-- ===== src/Kernel/Ops/Lifting.antt =====
-- `shift` upwards is `lift`, and `substitute` never fails.
use nexus_u.Prelude.{ℕ, suc, ◌+◌, ◌≡◌, refl, ok, arith, pos, negsuc}
use nexus_u.Kernel.Ast.{
  Term, sort, var, const, pi, lam, app, let_in, sum_type, inl, inr, case, empty_type, empty_elim,
}
use nexus_u.Kernel.Subst.{lift}
use nexus_u.Kernel.Ops.{shift}

pub shift-pos : (t : Term) (d c : ℕ) → shift t (pos d) c ≡ ok (lift d c t)
unfolding shift lift
shift-pos (var i) d c = ground arith
shift-pos (sort u) d c = refl
shift-pos (const x) d c = refl
shift-pos empty_type d c = refl
shift-pos (pi a b) d c = rw (shift-pos a d c, shift-pos b d (suc c))
shift-pos (lam a b) d c = rw (shift-pos a d c, shift-pos b d (suc c))
shift-pos (app f a) d c = rw (shift-pos f d c, shift-pos a d c)
shift-pos (let_in t v b) d c = rw (shift-pos t d c, shift-pos v d c, shift-pos b d (suc c))
shift-pos (sum_type a b) d c = rw (shift-pos a d c, shift-pos b d c)
shift-pos (inl v t) d c = rw (shift-pos v d c, shift-pos t d c)
shift-pos (inr t v) d c = rw (shift-pos t d c, shift-pos v d c)
shift-pos (case s l r t) d c =
    rw (shift-pos s d c, shift-pos l d c, shift-pos r d c, shift-pos t d c)
shift-pos (empty_elim p t) d c = rw (shift-pos p d c, shift-pos t d c)

-- Two shifts at the same place are one.
pub lift-lift_one : (t : Term) (k c : ℕ) → lift 1 c (lift k c t) ≡ lift (suc k) c t
unfolding lift
lift-lift_one (var i) k c = ground arith
lift-lift_one (sort u) k c = refl
lift-lift_one (const x) k c = refl
lift-lift_one empty_type k c = refl
lift-lift_one (pi a b) k c = rw (lift-lift_one a k c, lift-lift_one b k (suc c))
lift-lift_one (lam a b) k c = rw (lift-lift_one a k c, lift-lift_one b k (suc c))
lift-lift_one (app f a) k c = rw (lift-lift_one f k c, lift-lift_one a k c)
lift-lift_one (let_in t v b) k c =
    rw (lift-lift_one t k c, lift-lift_one v k c, lift-lift_one b k (suc c))
lift-lift_one (sum_type a b) k c = rw (lift-lift_one a k c, lift-lift_one b k c)
lift-lift_one (inl v t) k c = rw (lift-lift_one v k c, lift-lift_one t k c)
lift-lift_one (inr t v) k c = rw (lift-lift_one t k c, lift-lift_one v k c)
lift-lift_one (case s l r t) k c =
    rw (lift-lift_one s k c, lift-lift_one l k c, lift-lift_one r k c, lift-lift_one t k c)
lift-lift_one (empty_elim p t) k c = rw (lift-lift_one p k c, lift-lift_one t k c)

pub lift_one-lift : (t : Term) (k c : ℕ) → lift k c (lift 1 c t) ≡ lift (suc k) c t
unfolding lift
lift_one-lift (var i) k c = ground arith
lift_one-lift (sort u) k c = refl
lift_one-lift (const x) k c = refl
lift_one-lift empty_type k c = refl
lift_one-lift (pi a b) k c = rw (lift_one-lift a k c, lift_one-lift b k (suc c))
lift_one-lift (lam a b) k c = rw (lift_one-lift a k c, lift_one-lift b k (suc c))
lift_one-lift (app f a) k c = rw (lift_one-lift f k c, lift_one-lift a k c)
lift_one-lift (let_in t v b) k c =
    rw (lift_one-lift t k c, lift_one-lift v k c, lift_one-lift b k (suc c))
lift_one-lift (sum_type a b) k c = rw (lift_one-lift a k c, lift_one-lift b k c)
lift_one-lift (inl v t) k c = rw (lift_one-lift v k c, lift_one-lift t k c)
lift_one-lift (inr t v) k c = rw (lift_one-lift t k c, lift_one-lift v k c)
lift_one-lift (case s l r t) k c =
    rw (lift_one-lift s k c, lift_one-lift l k c, lift_one-lift r k c, lift_one-lift t k c)
lift_one-lift (empty_elim p t) k c = rw (lift_one-lift p k c, lift_one-lift t k c)

pub lift-zero : (t : Term) (c : ℕ) → lift 0 c t ≡ t
unfolding lift
lift-zero (var i) c = ground arith
lift-zero (sort u) c = refl
lift-zero (const x) c = refl
lift-zero empty_type c = refl
lift-zero (pi a b) c = rw (lift-zero a c, lift-zero b (suc c))
lift-zero (lam a b) c = rw (lift-zero a c, lift-zero b (suc c))
lift-zero (app f a) c = rw (lift-zero f c, lift-zero a c)
lift-zero (let_in t v b) c = rw (lift-zero t c, lift-zero v c, lift-zero b (suc c))
lift-zero (sum_type a b) c = rw (lift-zero a c, lift-zero b c)
lift-zero (inl v t) c = rw (lift-zero v c, lift-zero t c)
lift-zero (inr t v) c = rw (lift-zero t c, lift-zero v c)
lift-zero (case s l r t) c = rw (lift-zero s c, lift-zero l c, lift-zero r c, lift-zero t c)
lift-zero (empty_elim p t) c = rw (lift-zero p c, lift-zero t c)

-- One step down undoes one of `suc k` steps up, at any cutoff in the gap that these opened.
pub shift_down-lift :
    (t : Term) (k c e : ℕ) → e ≡ c + k → shift (lift (suc k) c t) (negsuc 0) e ≡ ok (lift k c t)
unfolding shift lift
shift_down-lift (var i) k c e h = ground arith
shift_down-lift (sort u) k c e h = refl
shift_down-lift (const x) k c e h = refl
shift_down-lift empty_type k c e h = refl
shift_down-lift (pi a b) k c e h =
    rw (shift_down-lift a k c e h, shift_down-lift b k (suc c) (suc e) (omega arith))
shift_down-lift (lam a b) k c e h =
    rw (shift_down-lift a k c e h, shift_down-lift b k (suc c) (suc e) (omega arith))
shift_down-lift (app f a) k c e h = rw (shift_down-lift f k c e h, shift_down-lift a k c e h)
shift_down-lift (let_in t v b) k c e h = rw (
  shift_down-lift t k c e h,
  shift_down-lift v k c e h,
  shift_down-lift b k (suc c) (suc e) (omega arith),
)
shift_down-lift (sum_type a b) k c e h = rw (shift_down-lift a k c e h, shift_down-lift b k c e h)
shift_down-lift (inl v t) k c e h = rw (shift_down-lift v k c e h, shift_down-lift t k c e h)
shift_down-lift (inr t v) k c e h = rw (shift_down-lift t k c e h, shift_down-lift v k c e h)
shift_down-lift (case s l r t) k c e h = rw (
  shift_down-lift s k c e h,
  shift_down-lift l k c e h,
  shift_down-lift r k c e h,
  shift_down-lift t k c e h,
)
shift_down-lift (empty_elim p t) k c e h = rw (shift_down-lift p k c e h, shift_down-lift t k c e h)
