-- ===== src/Kernel/Ops/Instantiate.antt =====
-- `substitute_top` is simultaneous substitution.
use nexus_u.Prelude.{
  ℕ, zero, suc, ◌+◌, ◌-◌, ◌≡◌, refl, ok, arith, ltb, ◌==◌, Bool-cases, inl, inr, if◌then◌else◌,
  negsuc,
}
use nexus_u.Kernel.Ast.{
  Term, sort, var, const, pi, lam, app, let_in, sum_type, case, empty_type, empty_elim,
}
use nexus_u.Kernel.Subst.{lift, up, top, parallel, instantiate}
use nexus_u.Kernel.Ops.{shift, substitute, substitute_top}
use nexus_u.Kernel.Ops.Lifting.{shift-pos, lift-lift_one, lift_one-lift, lift-zero, shift_down-lift}

-- `top r` under `k` binders.
abbrev tops : ℕ → Term → ℕ → Term
tops zero r = top r
tops (suc k) r = up (tops k r)

-- What stands for each index under `k` binders.
tops_lem :
    (k : ℕ) (r : Term) (i : ℕ)
    → tops k r i ≡ (if ltb i k then var i else if i == k then lift k 0 r else var (i - 1))
unfolding up top lift
tops_lem zero r zero = rw (lift-zero r 0)
tops_lem zero r (suc i) = ground arith
tops_lem (suc k) r zero = ground arith
tops_lem (suc k) r (suc i) = ground (arith, tops_lem k r i, lift-lift_one r k 0)

-- Substitution by the lifted argument under `k` binders gives a term, and the step down from it
-- gives the simultaneous substitution.
abbrev Steps : Term → ℕ → Term → Type 0
Steps r k t =
    (t' : Term) × (substitute t 0 (lift 1 0 r) k ≡ ok t')
    × (shift t' (negsuc 0) k ≡ ok (parallel (tops k r) t))

Steps-var : (r : Term) (k i : ℕ) → Steps r k (var i)
unfolding substitute parallel
Steps-var r k i = elim (Bool-cases (i == 0 + k)) [
  | inl hit ↦ (
    lift (suc k) 0 r,
    rw (hit, shift-pos (lift 1 0 r) k 0, lift_one-lift r k 0),
    rw (tops_lem k r i, shift_down-lift r k 0 k (omega arith)) (ground arith),
  )
  | inr miss ↦ (var i, rw miss, rw (tops_lem k r i) (unfold shift in ground arith))
]

steps : (r : Term) (k : ℕ) (t : Term) → Steps r k t
unfolding substitute shift parallel
steps r k (var i) = Steps-var r k i
steps r k (sort u) = (sort u, refl, refl)
steps r k (const x) = (const x, refl, refl)
steps r k empty_type = (empty_type, refl, refl)
steps r k (pi a b) =
    let (a', p, q) = steps r k a in
    let (b', p', q') = steps r (suc k) b in (pi a' b', rw (p, p'), rw (q, q'))
steps r k (lam a b) =
    let (a', p, q) = steps r k a in
    let (b', p', q') = steps r (suc k) b in (lam a' b', rw (p, p'), rw (q, q'))
steps r k (app f a) =
    let (f', p, q) = steps r k f in
    let (a', p', q') = steps r k a in (app f' a', rw (p, p'), rw (q, q'))
steps r k (let_in t v b) =
    let (t', p, q) = steps r k t in
    let (v', p', q') = steps r k v in
    let (b', p'', q'') = steps r (suc k) b in (let_in t' v' b', rw (p, p', p''), rw (q, q', q''))
steps r k (sum_type a b) =
    let (a', p, q) = steps r k a in
    let (b', p', q') = steps r k b in (sum_type a' b', rw (p, p'), rw (q, q'))
steps r k (Term.inl v t) =
    let (v', p, q) = steps r k v in
    let (t', p', q') = steps r k t in (Term.inl v' t', rw (p, p'), rw (q, q'))
steps r k (Term.inr t v) =
    let (t', p, q) = steps r k t in
    let (v', p', q') = steps r k v in (Term.inr t' v', rw (p, p'), rw (q, q'))
steps r k (case s l u t) =
    let (s', p₁, q₁) = steps r k s in
    let (l', p₂, q₂) = steps r k l in
    let (u', p₃, q₃) = steps r k u in
    let (t', p₄, q₄) = steps r k t in (case s' l' u' t', rw (p₁, p₂, p₃, p₄), rw (q₁, q₂, q₃, q₄))
steps r k (empty_elim e t) =
    let (e', p, q) = steps r k e in
    let (t', p', q') = steps r k t in (empty_elim e' t', rw (p, p'), rw (q, q'))

-- The shift up, substitution and shift down of `substitute_top` never raise, and together are the
-- simultaneous substitution that puts the argument for index 0 and lowers the others.
pub substitute_top_lem : (r body : Term) → substitute_top r body ≡ ok (instantiate r body)
unfolding substitute_top instantiate
substitute_top_lem r body = let (t', p, q) = steps r 0 body in rw (shift-pos r 1 0, p, q)
