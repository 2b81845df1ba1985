-- ===== src/Kernel/Typing.antt =====
-- src/nexus_u/kernel/core.py: type inference and checking, and the operations on the environment
-- that rest on them. Inference recurs on the term; the fuel is that of the normalizations in it.
pub mod Sound
pub mod Declare
pub mod Terminates
use nexus_u.Prelude.{
  ℕ, zero, suc, ◌+◌, max, String, Bool, true, false, Option, none, some, List, [], ◌∷◌, ok, err,
  ◌>>=◌, ◌>>◌, ltb, leb, if◌then◌else◌, pos, get_elem?,
}
use nexus_u.Kernel.Ast.{
  Term, sort, var, const, pi, lam, app, let_in, sum_type, inl, inr, case, empty_type, empty_elim,
  empty,
}
use nexus_u.Kernel.Fault.{Result, type_check_error, out_of_fuel}
use nexus_u.Kernel.Ops.{shift, substitute_top, node_count, max_depth}
use nexus_u.Kernel.Environment.{Declaration, Environment, get, add_unchecked, axioms}
use nexus_u.Kernel.Core.{NexusKernel, Budgeted, guard, whnf, convertible_with_budget}

-- A context lists the types of the variables, index 0 first.
unfoldable pub context_lookup : List Term → ℕ → Result Term
context_lookup Γ i = elim (get_elem? Γ i) [
  | none ↦ err type_check_error
  | some t ↦ shift t (pos (suc i)) 0
]

-- The shape tests on inferred types, with the error that follows a failure.
abbrev pub as_sort : Term → Result ℕ
as_sort (sort u) = ok u
as_sort _ = err type_check_error

abbrev pub as_pi : Term → Result (Term × Term)
as_pi (pi a b) = ok (a, b)
as_pi _ = err type_check_error

abbrev pub as_sum : Term → Result (Term × Term)
as_sum (sum_type a b) = ok (a, b)
as_sum _ = err type_check_error

module _ (k : NexusKernel) (f : ℕ) where
  -- `_expect_sort` and `check`, over the call of `_infer` that they make.
  unfoldable pub expect_sort_of : (ℕ → Budgeted) → ℕ → Result (ℕ × ℕ)
  expect_sort_of inferred n = do
    (t, n₁) ← inferred n
    (s, n₂) ← whnf k f t n₁
    u ← as_sort s
    if ltb k.limits.max_universe u then err type_check_error else ok (u, n₂)

  unfoldable pub check_of : (ℕ → Budgeted) → Term → Term → ℕ → Result ℕ
  check_of inferred t expected n = do
    guard k t
    guard k expected
    (a, n₁) ← inferred n
    (same, n₂) ← convertible_with_budget k f a expected n₁
    if same then ok n₂ else err type_check_error

  -- `_infer`
  unfoldable pub infer_with : Term → List Term → ℕ → Budgeted
  unfolding expect_sort_of check_of context_lookup shift substitute_top
  infer_with (sort u) Γ n =
      if leb k.limits.max_universe u then err type_check_error else ok (sort (suc u), n)
  infer_with (var i) Γ n = do t ← context_lookup Γ i; ok (t, n)
  infer_with (const x) Γ n = do d ← get k.environment x; ok (d.type, n)
  infer_with (pi a b) Γ n = do
    (u, n₁) ← expect_sort_of (infer_with a Γ) n
    (v, n₂) ← expect_sort_of (infer_with b (a ∷ Γ)) n₁
    ok (sort (max u v), n₂)
  infer_with (lam a b) Γ n = do
    (u, n₁) ← expect_sort_of (infer_with a Γ) n
    (t, n₂) ← infer_with b (a ∷ Γ) n₁
    ok (pi a t, n₂)
  infer_with (app g a) Γ n = do
    (t, n₁) ← infer_with g Γ n
    (t', n₂) ← whnf k f t n₁
    (d, c) ← as_pi t'
    n₃ ← check_of (infer_with a Γ) a d n₂
    r ← substitute_top a c
    ok (r, n₃)
  infer_with (let_in t v b) Γ n = do
    (u, n₁) ← expect_sort_of (infer_with t Γ) n
    n₂ ← check_of (infer_with v Γ) v t n₁
    (c, n₃) ← infer_with b (t ∷ Γ) n₂
    r ← substitute_top v c
    ok (r, n₃)
  infer_with (sum_type a b) Γ n = do
    (u, n₁) ← expect_sort_of (infer_with a Γ) n
    (v, n₂) ← expect_sort_of (infer_with b Γ) n₁
    ok (sort (max u v), n₂)
  infer_with (inl v t) Γ n = do
    (a, n₁) ← infer_with v Γ n
    (u, n₂) ← expect_sort_of (infer_with t Γ) n₁
    ok (sum_type a t, n₂)
  infer_with (inr t v) Γ n = do
    (u, n₁) ← expect_sort_of (infer_with t Γ) n
    (b, n₂) ← infer_with v Γ n₁
    ok (sum_type t b, n₂)
  infer_with (case s l r t) Γ n = do
    (c, n₁) ← infer_with s Γ n
    (c', n₂) ← whnf k f c n₁
    (a, b) ← as_sum c'
    (u, n₃) ← expect_sort_of (infer_with t Γ) n₂
    ta ← shift t (pos 1) 0
    tb ← shift t (pos 1) 0
    n₄ ← check_of (infer_with l Γ) l (pi a ta) n₃
    n₅ ← check_of (infer_with r Γ) r (pi b tb) n₄
    ok (t, n₅)
  infer_with empty_type Γ n = ok (sort 0, n)
  infer_with (empty_elim p t) Γ n = do
    n₁ ← check_of (infer_with p Γ) p empty n
    (u, n₂) ← expect_sort_of (infer_with t Γ) n₁
    ok (t, n₂)

  unfoldable pub expect_sort : Term → List Term → ℕ → Result (ℕ × ℕ)
  unfolding infer_with
  expect_sort t Γ n = expect_sort_of (infer_with t Γ) n

  unfoldable pub infer : Term → List Term → Result Term
  unfolding infer_with
  infer t Γ = do guard k t; (a, n) ← infer_with t Γ 0; ok a

  -- `check` with a fresh budget.
  unfoldable pub check : Term → Term → List Term → Result (Unit {0})
  unfolding infer_with
  check t expected Γ = do n ← check_of (infer_with t Γ) t expected 0; ok tt

  -- The report of `verify`, without the version and the digest of the source files.
  unfoldable pub verify : Term → Term → Result (ℕ × ℕ × ℕ × List String)
  unfolding expect_sort check node_count max_depth
  verify proof theorem = do
    (u, n) ← expect_sort theorem [] 0
    check proof theorem []
    ok (node_count proof, max_depth proof, node_count theorem, axioms k.environment.decls)

  unfoldable pub declare_axiom : String → Term → Result NexusKernel
  unfolding expect_sort
  declare_axiom x t = do
    (u, n) ← expect_sort t [] 0
    env ← add_unchecked (record { name = x; type = t; value = none; opaque = false }) k.environment
    ok (record k { environment = env })

  unfoldable pub declare_definition : String → Term → Term → Bool → Result NexusKernel
  unfolding expect_sort check
  declare_definition x t v opaque = do
    (u, n) ← expect_sort t [] 0
    check v t []
    env ←
        add_unchecked (record { name = x; type = t; value = some v; opaque = opaque }) k.environment
    ok (record k { environment = env })
