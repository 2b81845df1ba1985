-- ===== src/Prelude/Ensures.antt =====
-- What holds of the value that code returns, if it returns one, with a rule for each `>>=`.
use mathlib.Core.Path.{◌≡◌, refl}
use mathlib.Core.Bool.{Bool, true, false}
use nexus_u.Prelude.Outcome.{Result, ok, err, ◌>>=◌}
use nexus_u.Prelude.Tests.{if◌then◌else◌}

pub data Ensures {ℓ} {E : Type 0} {A : Type ℓ} (P : A → Type ℓ) : Result E A → Type ℓ where
  returns : {a : A} → P a → Ensures P (ok a)
  raises : {e : E} → Ensures P (err e)

module _ {ℓ} {E : Type 0} {A : Type ℓ} {P : A → Type ℓ} where
  infixl 1 ◌⊳◌
  pub ◌⊳◌ :
      {B : Type ℓ} {Q : B → Type ℓ} {r : Result E A} {f : A → Result E B}
      → Ensures P r
      → ((a : A) → P a → Ensures Q (f a))
      → Ensures Q (r >>= f)
  returns {a} h ⊳ next = next a h
  raises ⊳ next = raises

  pub value_ensured : {a : A} → Ensures {E = E} P (ok a) → P a
  value_ensured (returns h) = h

-- The equation of the value itself is what any outcome ensures.
pub Ensures-self {ℓ} : {E : Type 0} {A : Type ℓ} (r : Result E A) → Ensures (λ a. r ≡ ok a) r
Ensures-self (ok a) = returns refl
Ensures-self (err e) = raises

pub Ensures-if {ℓ} :
    {E : Type 0} {A : Type ℓ} {P : A → Type ℓ} (b : Bool) {r s : Result E A}
    → (b ≡ true → Ensures P r)
    → (b ≡ false → Ensures P s)
    → Ensures P (if b then r else s)
Ensures-if true h g = h refl
Ensures-if false h g = g refl

pub Ensures-weaken {ℓ} :
    {E : Type 0} {A : Type ℓ} {P Q : A → Type ℓ} {r : Result E A}
    → ((a : A) → P a → Q a)
    → Ensures P r
    → Ensures Q r
Ensures-weaken g (returns h) = returns (g _ h)
Ensures-weaken g raises = raises
