-- ===== src/Kernel/Ops.antt =====
-- src/nexus_u/kernel/ops.py: shifting, substitution and the size measures of terms.
pub mod Lifting
pub mod Instantiate
use nexus_u.Prelude.{
  ℕ, suc, ◌+◌, ◌-◌, max, ok, err, ◌>>=◌, leb, ◌==◌, if◌then◌else◌, ℤ, pos, negsuc,
}
use nexus_u.Kernel.Ast.{
  Term, sort, var, const, pi, lam, app, let_in, sum_type, inl, inr, case, empty_type, empty_elim,
}
use nexus_u.Kernel.Fault.{Result, value_error}

-- `index + delta`, refused below zero.
pub shift_index : ℕ → ℤ → Result ℕ
shift_index i (pos d) = ok (i + d)
shift_index i (negsuc d) = if leb (suc d) i then ok (i - suc d) else err value_error

unfoldable pub shift : Term → ℤ → ℕ → Result Term
unfolding shift_index
shift (var i) d c = if leb c i then (do j ← shift_index i d; ok (var j)) else ok (var i)
shift (sort u) d c = ok (sort u)
shift (const x) d c = ok (const x)
shift empty_type d c = ok empty_type
shift (pi a b) d c = do a' ← shift a d c; b' ← shift b d (suc c); ok (pi a' b')
shift (lam a b) d c = do a' ← shift a d c; b' ← shift b d (suc c); ok (lam a' b')
shift (app f a) d c = do f' ← shift f d c; a' ← shift a d c; ok (app f' a')
shift (let_in t v b) d c = do
  t' ← shift t d c
  v' ← shift v d c
  b' ← shift b d (suc c)
  ok (let_in t' v' b')
shift (sum_type a b) d c = do a' ← shift a d c; b' ← shift b d c; ok (sum_type a' b')
shift (inl v t) d c = do v' ← shift v d c; t' ← shift t d c; ok (inl v' t')
shift (inr t v) d c = do t' ← shift t d c; v' ← shift v d c; ok (inr t' v')
shift (case s l r t) d c = do
  s' ← shift s d c
  l' ← shift l d c
  r' ← shift r d c
  t' ← shift t d c
  ok (case s' l' r' t')
shift (empty_elim p t) d c = do p' ← shift p d c; t' ← shift t d c; ok (empty_elim p' t')

unfoldable pub substitute : Term → ℕ → Term → ℕ → Result Term
substitute (var i) n r k = if i == n + k then shift r (pos k) 0 else ok (var i)
substitute (sort u) n r k = ok (sort u)
substitute (const x) n r k = ok (const x)
substitute empty_type n r k = ok empty_type
substitute (pi a b) n r k = do a' ← substitute a n r k; b' ← substitute b n r (suc k); ok (pi a' b')
substitute (lam a b) n r k = do
  a' ← substitute a n r k
  b' ← substitute b n r (suc k)
  ok (lam a' b')
substitute (app f a) n r k = do f' ← substitute f n r k; a' ← substitute a n r k; ok (app f' a')
substitute (let_in t v b) n r k = do
  t' ← substitute t n r k
  v' ← substitute v n r k
  b' ← substitute b n r (suc k)
  ok (let_in t' v' b')
substitute (sum_type a b) n r k = do
  a' ← substitute a n r k
  b' ← substitute b n r k
  ok (sum_type a' b')
substitute (inl v t) n r k = do v' ← substitute v n r k; t' ← substitute t n r k; ok (inl v' t')
substitute (inr t v) n r k = do t' ← substitute t n r k; v' ← substitute v n r k; ok (inr t' v')
substitute (case s l q t) n r k = do
  s' ← substitute s n r k
  l' ← substitute l n r k
  q' ← substitute q n r k
  t' ← substitute t n r k
  ok (case s' l' q' t')
substitute (empty_elim p t) n r k = do
  p' ← substitute p n r k
  t' ← substitute t n r k
  ok (empty_elim p' t')

-- The redex's argument comes first, as in the source.
unfoldable pub substitute_top : Term → Term → Result Term
unfolding shift substitute
substitute_top r body = do
  r' ← shift r (pos 1) 0
  body' ← substitute body 0 r' 0
  shift body' (negsuc 0) 0

unfoldable pub node_count : Term → ℕ
node_count (sort u) = 1
node_count (var i) = 1
node_count (const x) = 1
node_count empty_type = 1
node_count (pi a b) = 1 + node_count a + node_count b
node_count (lam a b) = 1 + node_count a + node_count b
node_count (app f a) = 1 + node_count f + node_count a
node_count (sum_type a b) = 1 + node_count a + node_count b
node_count (let_in t v b) = 1 + node_count t + node_count v + node_count b
node_count (inl v t) = 1 + node_count v + node_count t
node_count (inr t v) = 1 + node_count t + node_count v
node_count (case s l r t) = 1 + (node_count s + node_count l + node_count r + node_count t)
node_count (empty_elim p t) = 1 + node_count p + node_count t

unfoldable pub max_depth : Term → ℕ
max_depth (sort u) = 1
max_depth (var i) = 1
max_depth (const x) = 1
max_depth empty_type = 1
max_depth (pi a b) = 1 + max (max_depth a) (max_depth b)
max_depth (lam a b) = 1 + max (max_depth a) (max_depth b)
max_depth (app f a) = 1 + max (max_depth f) (max_depth a)
max_depth (let_in t v b) = 1 + max (max (max_depth t) (max_depth v)) (max_depth b)
max_depth (sum_type a b) = 1 + max (max_depth a) (max_depth b)
max_depth (inl v t) = 1 + max (max_depth v) (max_depth t)
max_depth (inr t v) = 1 + max (max_depth t) (max_depth v)
max_depth (case s l r t) =
    1 + max (max (max (max_depth s) (max_depth l)) (max_depth r)) (max_depth t)
max_depth (empty_elim p t) = 1 + max (max_depth p) (max_depth t)
