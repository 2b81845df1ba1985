-- ===== src/Kernel/Core.antt =====
-- src/nexus_u/kernel/core.py: limits, the reduction budget, weak-head normal forms, full normal
-- forms and conversion. A loop of the source that is not structural takes fuel; the budget is the
-- number of reductions made, which every call returns beside its result.
use mathlib.Core.Bool.{decide}
use native.Mathlib.Decide.{ℕ_discrete}
use nexus_u.Prelude.{
  ℕ, zero, suc, String, Bool, Option, none, some, ok, err, ◌>>=◌, ◌>>◌, ltb, if◌then◌else◌,
}
use nexus_u.Prelude.Tests.{String-discrete}
use nexus_u.Kernel.Ast.{
  Term, sort, var, const, pi, lam, app, let_in, sum_type, inl, inr, case, empty_type, empty_elim,
}
use nexus_u.Kernel.Fault.{Result, kernel_error, reduction_limit_error, out_of_fuel}
use nexus_u.Kernel.Ops.{substitute_top, node_count, max_depth}
use nexus_u.Kernel.Environment.{Declaration, Environment, get}

-- `==` of the frozen dataclasses.
unfoldable pub Term-discrete : Discrete Term
unfolding String-discrete ℕ_discrete
Term-discrete = hlevel (ℕ_discrete, String-discrete)

pub record KernelLimits : Type 0 where
  pub max_nodes : ℕ
  pub max_depth : ℕ
  pub max_reductions : ℕ
  pub max_universe : ℕ

abbrev pub default_limits : KernelLimits
default_limits = record {
  max_nodes = 100000;
  max_depth = 2000;
  max_reductions = 250000;
  max_universe = 1024;
}

pub record NexusKernel : Type 0 where
  pub environment : Environment
  pub limits : KernelLimits

-- What a budgeted call returns: the value and the reductions made so far.
abbrev pub Budgeted : Type 0
Budgeted = Result (Term × ℕ)

abbrev pub guard : NexusKernel → Term → Result (Unit {0})
guard k t =
    if ltb k.limits.max_nodes (node_count t)
    then err kernel_error
    else if ltb k.limits.max_depth (max_depth t)
    then err kernel_error
    else ok tt

-- `_step`: one more reduction, refused above the limit.
unfoldable pub step : NexusKernel → ℕ → Result ℕ
step k n = if ltb k.limits.max_reductions (suc n) then err reduction_limit_error else ok (suc n)

-- The value of a declaration that delta reduction may use.
unfoldable pub transparent : Declaration → Option Term
transparent d = if d.opaque then none else d.value

-- The turns of the loop of `whnf` at a constant, an application and a case, after the head is
-- known; `wh` is the loop that goes on.
unfoldable pub delta_turn :
    NexusKernel → (Term → ℕ → Budgeted) → String → Option Term → ℕ → Budgeted
delta_turn k wh x none n = ok (const x, n)
delta_turn k wh x (some v) n = do n' ← step k n; wh v n'

unfoldable pub beta_turn : NexusKernel → (Term → ℕ → Budgeted) → Term → Term → ℕ → Budgeted
beta_turn k wh a (lam d b) n = do n' ← step k n; t ← substitute_top a b; wh t n'
beta_turn k wh a g n = ok (app g a, n)

unfoldable pub case_turn :
    NexusKernel → (Term → ℕ → Budgeted) → Term → Term → Term → Term → ℕ → Budgeted
case_turn k wh l r t (inl v u) n = do n' ← step k n; wh (app l v) n'
case_turn k wh l r t (inr u v) n = do n' ← step k n; wh (app r v) n'
case_turn k wh l r t s n = ok (case s l r t, n)

-- One unit of fuel for each turn of `while True` and for each call of `whnf` on a part.
unfoldable pub whnf : NexusKernel → ℕ → Term → ℕ → Budgeted
unfolding transparent step get substitute_top delta_turn beta_turn case_turn
whnf k zero t n = err out_of_fuel
whnf k (suc f) (const x) n = do d ← get k.environment x; delta_turn k (whnf k f) x (transparent d) n
whnf k (suc f) (app g a) n = do (g', n') ← whnf k f g n; beta_turn k (whnf k f) a g' n'
whnf k (suc f) (let_in t v b) n = do n' ← step k n; c ← substitute_top v b; whnf k f c n'
whnf k (suc f) (case s l r t) n = do (s', n') ← whnf k f s n; case_turn k (whnf k f) l r t s' n'
whnf k (suc f) t n = ok (t, n)

-- The parts of a weak-head normal form, by a given way to normalize a part. The `let` case is
-- that of the source, which `whnf` never reaches.
unfoldable pub descend : (Term → ℕ → Budgeted) → (Term → ℕ → Budgeted) → Term → ℕ → Budgeted
descend nf wh (sort u) n = ok (sort u, n)
descend nf wh (var i) n = ok (var i, n)
descend nf wh (const x) n = ok (const x, n)
descend nf wh empty_type n = ok (empty_type, n)
descend nf wh (pi a b) n = do (a', n₁) ← nf a n; (b', n₂) ← nf b n₁; ok (pi a' b', n₂)
descend nf wh (lam a b) n = do (a', n₁) ← nf a n; (b', n₂) ← nf b n₁; ok (lam a' b', n₂)
descend nf wh (app g a) n = do (g', n₁) ← nf g n; (a', n₂) ← nf a n₁; ok (app g' a', n₂)
descend nf wh (let_in t v b) n = do (c, n₁) ← wh (let_in t v b) n; nf c n₁
descend nf wh (sum_type a b) n = do (a', n₁) ← nf a n; (b', n₂) ← nf b n₁; ok (sum_type a' b', n₂)
descend nf wh (inl v t) n = do (v', n₁) ← nf v n; (t', n₂) ← nf t n₁; ok (inl v' t', n₂)
descend nf wh (inr t v) n = do (t', n₁) ← nf t n; (v', n₂) ← nf v n₁; ok (inr t' v', n₂)
descend nf wh (case s l r t) n = do
  (s', n₁) ← nf s n
  (l', n₂) ← nf l n₁
  (r', n₃) ← nf r n₂
  (t', n₄) ← nf t n₃
  ok (case s' l' r' t', n₄)
descend nf wh (empty_elim p t) n = do
  (p', n₁) ← nf p n
  (t', n₂) ← nf t n₁
  ok (empty_elim p' t', n₂)

module _ (k : NexusKernel) where
  unfoldable pub normalize : ℕ → Term → ℕ → Budgeted
  unfolding whnf descend
  normalize zero t n = err out_of_fuel
  normalize (suc f) t n = do (head, n₁) ← whnf k f t n; descend (normalize f) (whnf k f) head n₁

  -- `_convertible_with_budget`: the answer and the budget.
  unfoldable pub convertible_with_budget : ℕ → Term → Term → ℕ → Result (Bool × ℕ)
  unfolding normalize Term-discrete
  convertible_with_budget f a b n = do
    (a', n₁) ← normalize f a n
    (b', n₂) ← normalize f b n₁
    ok (decide (Term-discrete a' b'), n₂)

  unfoldable pub convertible : ℕ → Term → Term → Result Bool
  unfolding convertible_with_budget node_count max_depth
  convertible f a b = do guard k a; guard k b; (same, n) ← convertible_with_budget f a b 0; ok same
