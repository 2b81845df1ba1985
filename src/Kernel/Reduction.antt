-- ===== src/Kernel/Reduction.antt =====
-- The reduction that core.py describes (beta, delta, zeta and sum-case reduction), as a relation
-- that is reflexive, transitive and goes under every constructor; its normal forms.
pub mod Sound
pub mod Normal
pub mod Terminates
pub mod Budget
use nexus_u.Prelude.{ℕ, String, Bool, true, false, none, some, ok, ◌≡◌}
use nexus_u.Kernel.Ast.{Term, sort, var, const, let_in, empty_type}
use nexus_u.Kernel.Subst.{instantiate}
use nexus_u.Kernel.Environment.{Declaration, Environment, get}
use nexus_u.Kernel.Core.{transparent}

pub data Reduces (E : Environment) : Term → Term → Type 0 where
  stay : {t : Term} → Reduces E t t
  trans : {t u v : Term} → Reduces E t u → Reduces E u v → Reduces E t v
  beta : {d b a : Term} → Reduces E (Term.app (Term.lam d b) a) (instantiate a b)
  delta :
      {x : String} {d : Declaration} {v : Term}
      → get E x ≡ ok d
      → transparent d ≡ some v
      → Reduces E (const x) v
  zeta : {t v b : Term} → Reduces E (let_in t v b) (instantiate v b)
  case_left : {v u l r t : Term} → Reduces E (Term.case (Term.inl v u) l r t) (Term.app l v)
  case_right : {v u l r t : Term} → Reduces E (Term.case (Term.inr u v) l r t) (Term.app r v)
  pi :
      {a a' b b' : Term} → Reduces E a a' → Reduces E b b' → Reduces E (Term.pi a b) (Term.pi a' b')
  lam :
      {a a' b b' : Term}
      → Reduces E a a'
      → Reduces E b b'
      → Reduces E (Term.lam a b) (Term.lam a' b')
  app :
      {a a' b b' : Term}
      → Reduces E a a'
      → Reduces E b b'
      → Reduces E (Term.app a b) (Term.app a' b')
  sum_type :
      {a a' b b' : Term}
      → Reduces E a a'
      → Reduces E b b'
      → Reduces E (Term.sum_type a b) (Term.sum_type a' b')
  inl :
      {a a' b b' : Term}
      → Reduces E a a'
      → Reduces E b b'
      → Reduces E (Term.inl a b) (Term.inl a' b')
  inr :
      {a a' b b' : Term}
      → Reduces E a a'
      → Reduces E b b'
      → Reduces E (Term.inr a b) (Term.inr a' b')
  case :
      {a a' b b' c c' d d' : Term}
      → Reduces E a a'
      → Reduces E b b'
      → Reduces E c c'
      → Reduces E d d'
      → Reduces E (Term.case a b c d) (Term.case a' b' c' d')
  empty_elim :
      {a a' b b' : Term}
      → Reduces E a a'
      → Reduces E b b'
      → Reduces E (Term.empty_elim a b) (Term.empty_elim a' b')

-- Two terms with a common reduct.
pub record Convertible (E : Environment) (a b : Term) : Type 0 where
  pub common : Term
  pub from_left : Reduces E a common
  pub from_right : Reduces E b common

-- Heads that make a redex of an application or of a case.
abbrev pub is_lam : Term → Bool
is_lam (Term.lam a b) = true
is_lam _ = false

abbrev pub is_injection : Term → Bool
is_injection (Term.inl a b) = true
is_injection (Term.inr a b) = true
is_injection _ = false

-- No beta, delta, zeta or sum-case redex stands anywhere in the term.
abbrev pub IsNormal : Environment → Term → Type 0
IsNormal E (sort u) = Unit
IsNormal E (var i) = Unit
IsNormal E (const x) = (d : Declaration) → get E x ≡ ok d → transparent d ≡ none
IsNormal E empty_type = Unit
IsNormal E (Term.pi a b) = IsNormal E a × IsNormal E b
IsNormal E (Term.lam a b) = IsNormal E a × IsNormal E b
IsNormal E (Term.app a b) = (is_lam a ≡ false) × IsNormal E a × IsNormal E b
IsNormal E (let_in t v b) = ⊥
IsNormal E (Term.sum_type a b) = IsNormal E a × IsNormal E b
IsNormal E (Term.inl a b) = IsNormal E a × IsNormal E b
IsNormal E (Term.inr a b) = IsNormal E a × IsNormal E b
IsNormal E (Term.case a b c d) =
    (is_injection a ≡ false) × IsNormal E a × IsNormal E b × IsNormal E c × IsNormal E d
IsNormal E (Term.empty_elim a b) = IsNormal E a × IsNormal E b
