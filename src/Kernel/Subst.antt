-- ===== src/Kernel/Subst.antt =====
-- An independent account of substitution: simultaneous substitution by a function from indices to
-- terms, which never fails. The operations of ops.py are compared with it.
use nexus_u.Prelude.{ℕ, zero, suc, ◌+◌, leb, if◌then◌else◌}
use nexus_u.Kernel.Ast.{
  Term, sort, var, const, pi, lam, app, let_in, sum_type, inl, inr, case, empty_type, empty_elim,
}

-- The indices from `c` on grow by `d`.
unfoldable pub lift : ℕ → ℕ → Term → Term
lift d c (var i) = if leb c i then var (i + d) else var i
lift d c (sort u) = sort u
lift d c (const x) = const x
lift d c empty_type = empty_type
lift d c (pi a b) = pi (lift d c a) (lift d (suc c) b)
lift d c (lam a b) = lam (lift d c a) (lift d (suc c) b)
lift d c (app f a) = app (lift d c f) (lift d c a)
lift d c (let_in t v b) = let_in (lift d c t) (lift d c v) (lift d (suc c) b)
lift d c (sum_type a b) = sum_type (lift d c a) (lift d c b)
lift d c (inl v t) = inl (lift d c v) (lift d c t)
lift d c (inr t v) = inr (lift d c t) (lift d c v)
lift d c (case s l r t) = case (lift d c s) (lift d c l) (lift d c r) (lift d c t)
lift d c (empty_elim p t) = empty_elim (lift d c p) (lift d c t)

-- Under a binder the new index stands for itself.
unfoldable pub up : (ℕ → Term) → ℕ → Term
up σ zero = var zero
up σ (suc i) = lift 1 0 (σ i)

unfoldable pub parallel : (ℕ → Term) → Term → Term
unfolding up
parallel σ (var i) = σ i
parallel σ (sort u) = sort u
parallel σ (const x) = const x
parallel σ empty_type = empty_type
parallel σ (pi a b) = pi (parallel σ a) (parallel (up σ) b)
parallel σ (lam a b) = lam (parallel σ a) (parallel (up σ) b)
parallel σ (app f a) = app (parallel σ f) (parallel σ a)
parallel σ (let_in t v b) = let_in (parallel σ t) (parallel σ v) (parallel (up σ) b)
parallel σ (sum_type a b) = sum_type (parallel σ a) (parallel σ b)
parallel σ (inl v t) = inl (parallel σ v) (parallel σ t)
parallel σ (inr t v) = inr (parallel σ t) (parallel σ v)
parallel σ (case s l r t) = case (parallel σ s) (parallel σ l) (parallel σ r) (parallel σ t)
parallel σ (empty_elim p t) = empty_elim (parallel σ p) (parallel σ t)

-- The outermost index becomes `r`, and the others move down by one.
unfoldable pub top : Term → ℕ → Term
top r zero = r
top r (suc i) = var i

unfoldable pub instantiate : Term → Term → Term
unfolding parallel top
instantiate r body = parallel (top r) body
