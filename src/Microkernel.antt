-- ===== src/Microkernel.antt =====
-- src/nexus_u/formalization/microkernel.py: propositional natural deduction with proof terms.
pub mod Tests
pub mod Meaning
pub mod Schema
use mathlib.Core.Bool.{decide}
use nexus_u.Prelude.{
  String, Bool, Option, none, some, List, [], ◌∷◌, ok, err, ◌>>=◌, ◌>>◌, any, str_eq, if◌then◌else◌,
}
use nexus_u.Prelude
use nexus_u.Prelude.Tests.{String-discrete}

pub data Formula : Type 0 where
  atom : String → Formula
  bottom : Formula
  imp : Formula → Formula → Formula
  and : Formula → Formula → Formula

unfoldable pub Formula-discrete : Discrete Formula
unfolding String-discrete
Formula-discrete = hlevel String-discrete

abbrev pub not : Formula → Formula
not a = imp a bottom

pub data Term : Type 0 where
  hyp : String → Term
  lam : String → Formula → Term → Term
  app : Term → Term → Term
  pair : Term → Term → Term
  fst : Term → Term
  snd : Term → Term
  dne : Formula → Term → Term

-- `ProofError`, by its message.
pub data ProofError : Type 0 where
  unknown_hypothesis shadowed_hypothesis not_an_implication argument_mismatch : ProofError
  not_a_conjunction not_declared_decidable not_a_double_negation : ProofError

abbrev pub Result {ℓ} : Type ℓ → Type ℓ
Result A = Prelude.Result ProofError A

-- The hypotheses by name.
abbrev pub Context : Type 0
Context = List (String × Formula)

unfoldable pub lookup : String → Context → Option Formula
lookup x [] = none
lookup x ((y, a) ∷ Γ) = if str_eq y x then some a else lookup x Γ

-- `==` of formulas, and membership in the set of decidable formulas.
unfoldable pub same_formula : Formula → Formula → Bool
unfolding Formula-discrete
same_formula a b = decide (Formula-discrete a b)

unfoldable pub declared : Formula → List Formula → Bool
unfolding same_formula
declared a ds = any (λ d. same_formula d a) ds

abbrev pub known : Option Formula → Result Formula
known none = err unknown_hypothesis
known (some a) = ok a

abbrev pub unused : Option Formula → Result (Unit {0})
unused none = ok tt
unused (some a) = err shadowed_hypothesis

abbrev pub as_imp : Formula → Result (Formula × Formula)
as_imp (imp a b) = ok (a, b)
as_imp _ = err not_an_implication

abbrev pub as_and : Formula → Result (Formula × Formula)
as_and (and a b) = ok (a, b)
as_and _ = err not_a_conjunction

abbrev pub require : Bool → ProofError → Result (Unit {0})
require b e = if b then ok tt else err e

unfoldable pub infer : List Formula → Term → Context → Result Formula
unfolding lookup same_formula declared
infer ds (hyp x) Γ = known (lookup x Γ)
infer ds (lam x a t) Γ = do unused (lookup x Γ); b ← infer ds t ((x, a) ∷ Γ); ok (imp a b)
infer ds (app f t) Γ = do
  c ← infer ds f Γ
  a' ← infer ds t Γ
  (a, b) ← as_imp c
  require (same_formula a a') argument_mismatch
  ok b
infer ds (pair t u) Γ = do a ← infer ds t Γ; b ← infer ds u Γ; ok (and a b)
infer ds (fst t) Γ = do c ← infer ds t Γ; (a, b) ← as_and c; ok a
infer ds (snd t) Γ = do c ← infer ds t Γ; (a, b) ← as_and c; ok b
infer ds (dne a t) Γ = do
  require (declared a ds) not_declared_decidable
  c ← infer ds t Γ
  require (same_formula c (not (not a))) not_a_double_negation
  ok a
