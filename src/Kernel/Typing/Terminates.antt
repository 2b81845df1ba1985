-- ===== src/Kernel/Typing/Terminates.antt =====
-- The checker ends on every input: some amount of fuel gives its one outcome, a type or one of the
-- exceptions of the source.
use nexus_u.Prelude.{ℕ, suc, List, [], ◌∷◌, err, ◌≢◌, arith, inl, inr, get_elem?, Option-cases}
use nexus_u.Prelude.Settles.{Settles-const, Settles-bind}
use nexus_u.Kernel.Ast.{
  Term, sort, var, const, pi, lam, app, let_in, sum_type, inl, inr, case, empty_type, empty_elim,
  empty,
}
use nexus_u.Kernel.Fault.{out_of_fuel}
use nexus_u.Kernel.Subst.{lift}
use nexus_u.Kernel.Ops.Lifting.{shift-pos}
use nexus_u.Kernel.Ops.Instantiate.{substitute_top_lem}
use nexus_u.Kernel.Environment.{get}
use nexus_u.Kernel.Core.{NexusKernel, Budgeted, guard}
use nexus_u.Kernel.Reduction.Terminates.{
  Ends, get-ne-out_of_fuel, whnf-Ends, convertible_with_budget-Ends,
}
use nexus_u.Kernel.Typing.{
  context_lookup, as_sort, as_pi, as_sum, expect_sort_of, check_of, infer_with, infer, verify,
  expect_sort, check,
}

as_sort-ne-out_of_fuel : (t : Term) → as_sort t ≢ err out_of_fuel
as_sort-ne-out_of_fuel (sort u) e = cc
as_sort-ne-out_of_fuel _ e = cc

as_pi-ne-out_of_fuel : (t : Term) → as_pi t ≢ err out_of_fuel
as_pi-ne-out_of_fuel (pi a b) e = cc
as_pi-ne-out_of_fuel _ e = cc

as_sum-ne-out_of_fuel : (t : Term) → as_sum t ≢ err out_of_fuel
as_sum-ne-out_of_fuel (sum_type a b) e = cc
as_sum-ne-out_of_fuel _ e = cc

context_lookup-ne-out_of_fuel : (Γ : List Term) (i : ℕ) → context_lookup Γ i ≢ err out_of_fuel
unfolding context_lookup
context_lookup-ne-out_of_fuel Γ i e = elim (Option-cases (get_elem? Γ i)) [
  | inl p ↦ cc (p)
  | inr (t, p) ↦ cc (p, shift-pos t (suc i) 0)
]

module _ (k : NexusKernel) where
  guard-ne-out_of_fuel : (t : Term) → guard k t ≢ err out_of_fuel
  guard-ne-out_of_fuel t e = ground arith

  expect_sort_of-Ends :
      (run : ℕ → ℕ → Budgeted) (n : ℕ)
      → ((m : ℕ) → Ends (λ f. run f m))
      → Ends (λ f. expect_sort_of k f (run f) n)
  unfolding expect_sort_of
  expect_sort_of-Ends run n h = Settles-bind (h n) λ (t, n₁) f e.
      Settles-bind (whnf-Ends k t n₁) λ (s, n₂) f' e'.
        Settles-bind (Settles-const (as_sort s) (as_sort-ne-out_of_fuel s))
          λ u _ _. Settles-const _ (λ e. ground arith)

  check_of-Ends :
      (run : ℕ → ℕ → Budgeted) (t expected : Term) (n : ℕ)
      → ((m : ℕ) → Ends (λ f. run f m))
      → Ends (λ f. check_of k f (run f) t expected n)
  unfolding check_of
  check_of-Ends run t expected n h =
      Settles-bind (Settles-const (guard k t) (guard-ne-out_of_fuel t)) λ _ _ _.
        Settles-bind (Settles-const (guard k expected) (guard-ne-out_of_fuel expected)) λ _ _ _.
          Settles-bind (h n) λ (a, n₁) f e.
            Settles-bind (convertible_with_budget-Ends k a expected n₁)
              λ (same, n₂) f' e'. Settles-const _ (λ e. ground arith)

  infer_with-Ends : (t : Term) (Γ : List Term) (n : ℕ) → Ends (λ f. infer_with k f t Γ n)
  unfolding infer_with
  infer_with-Ends (sort u) Γ n = Settles-const _ (λ e. ground arith)
  infer_with-Ends (var i) Γ n =
      Settles-bind (Settles-const (context_lookup Γ i) (context_lookup-ne-out_of_fuel Γ i))
        λ t f e. Settles-const _ (λ e. cc)
  infer_with-Ends (const x) Γ n =
      Settles-bind (Settles-const (get k.environment x) (get-ne-out_of_fuel k.environment x))
        λ d f e. Settles-const _ (λ e. cc)
  infer_with-Ends (pi a b) Γ n =
      Settles-bind (expect_sort_of-Ends _ n (infer_with-Ends a Γ)) λ (u, n₁) f e.
        Settles-bind (expect_sort_of-Ends _ n₁ (infer_with-Ends b (a ∷ Γ)))
          λ (v, n₂) f' e'. Settles-const _ (λ e. cc)
  infer_with-Ends (lam a b) Γ n =
      Settles-bind (expect_sort_of-Ends _ n (infer_with-Ends a Γ)) λ (u, n₁) f e.
        Settles-bind (infer_with-Ends b (a ∷ Γ) n₁) λ (t, n₂) f' e'. Settles-const _ (λ e. cc)
  infer_with-Ends (app g a) Γ n = Settles-bind (infer_with-Ends g Γ n) λ (t, n₁) f e.
      Settles-bind (whnf-Ends k t n₁) λ (t', n₂) f' e'.
        Settles-bind (Settles-const (as_pi t') (as_pi-ne-out_of_fuel t')) λ (d, c) _ _.
          Settles-bind (check_of-Ends _ a d n₂ (infer_with-Ends a Γ))
            λ n₃ _ _. rw substitute_top_lem (Settles-const _ (λ e. cc))
  infer_with-Ends (let_in t v b) Γ n =
      Settles-bind (expect_sort_of-Ends _ n (infer_with-Ends t Γ)) λ (u, n₁) f e.
        Settles-bind (check_of-Ends _ v t n₁ (infer_with-Ends v Γ)) λ n₂ _ _.
          Settles-bind (infer_with-Ends b (t ∷ Γ) n₂)
            λ (c, n₃) _ _. rw substitute_top_lem (Settles-const _ (λ e. cc))
  infer_with-Ends (sum_type a b) Γ n =
      Settles-bind (expect_sort_of-Ends _ n (infer_with-Ends a Γ)) λ (u, n₁) f e.
        Settles-bind (expect_sort_of-Ends _ n₁ (infer_with-Ends b Γ))
          λ (v, n₂) f' e'. Settles-const _ (λ e. cc)
  infer_with-Ends (inl v t) Γ n = Settles-bind (infer_with-Ends v Γ n) λ (a, n₁) f e.
      Settles-bind (expect_sort_of-Ends _ n₁ (infer_with-Ends t Γ))
        λ (u, n₂) f' e'. Settles-const _ (λ e. cc)
  infer_with-Ends (inr t v) Γ n =
      Settles-bind (expect_sort_of-Ends _ n (infer_with-Ends t Γ)) λ (u, n₁) f e.
        Settles-bind (infer_with-Ends v Γ n₁) λ (b, n₂) f' e'. Settles-const _ (λ e. cc)
  infer_with-Ends (case s l r t) Γ n = Settles-bind (infer_with-Ends s Γ n) λ (c, n₁) f e.
      Settles-bind (whnf-Ends k c n₁) λ (c', n₂) f' e'.
        Settles-bind (Settles-const (as_sum c') (as_sum-ne-out_of_fuel c')) λ (a, b) _ _.
          Settles-bind (expect_sort_of-Ends _ n₂ (infer_with-Ends t Γ)) λ (u, n₃) _ _.
            rw (shift-pos t 1 0) (
              Settles-bind (check_of-Ends _ l (pi a (lift 1 0 t)) n₃ (infer_with-Ends l Γ))
                λ n₄ _ _.
                  Settles-bind (check_of-Ends _ r (pi b (lift 1 0 t)) n₄ (infer_with-Ends r Γ))
                    λ n₅ _ _. Settles-const _ (λ e. cc))
  infer_with-Ends empty_type Γ n = Settles-const _ (λ e. cc)
  infer_with-Ends (empty_elim p t) Γ n =
      Settles-bind (check_of-Ends _ p empty n (infer_with-Ends p Γ)) λ n₁ _ _.
        Settles-bind (expect_sort_of-Ends _ n₁ (infer_with-Ends t Γ))
          λ (u, n₂) _ _. Settles-const _ (λ e. cc)

  -- On every term and context, `infer` ends: with enough fuel it has one outcome, which is a type
  -- or an exception of the source.
  pub infer-Ends : (t : Term) (Γ : List Term) → Ends (λ f. infer k f t Γ)
  unfolding infer
  infer-Ends t Γ =
      Settles-bind (Settles-const (guard k t) (guard-ne-out_of_fuel t))
        λ _ _ _. Settles-bind (infer_with-Ends t Γ 0) λ (a, n) _ _. Settles-const _ (λ e. cc)

  -- On every proof and statement, `verify` ends: with enough fuel it has one outcome, which is a
  -- report or an exception of the source.
  pub verify-Ends : (proof theorem : Term) → Ends (λ f. verify k f proof theorem)
  unfolding verify expect_sort check
  verify-Ends proof theorem =
      Settles-bind (expect_sort_of-Ends _ 0 (infer_with-Ends theorem [])) λ (u, n) _ _.
        Settles-bind
          (Settles-bind (check_of-Ends _ proof theorem 0 (infer_with-Ends proof []))
            λ m _ _. Settles-const _ (λ e. cc))
          λ _ _ _. Settles-const _ (λ e. cc)
