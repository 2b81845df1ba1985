-- ===== src/Prelude/Settles.antt =====
-- Code that runs on fuel: from some amount of fuel on, its outcome is one and the same, and that
-- outcome is not the fault for fuel that ran out.
use nexus_u.Prelude.Outcome.{Result, ok, err, ◌>>=◌}
use Prim.Native.Nat.{ℕ, zero, suc, ◌≤◌, max}
use mathlib.Core.Path.{◌≡◌, refl, ◌∙◌}
use mathlib.Core.Logic.{◌≢◌}
use native.Mathlib.Omega.{arith}

module _ {ℓ} {E : Type 0} {A : Type ℓ} where
  -- `spent` is the fault for fuel that ran out.
  pub record Settles (spent : E) (run : ℕ → Result E A) : Type ℓ where
    pub fuel : ℕ
    pub outcome : Result E A
    pub not_spent : outcome ≢ err spent
    pub stable : (m : ℕ) → fuel ≤ m → run m ≡ outcome

module _ {ℓ} {E : Type 0} {spent : E} {A : Type ℓ} where
  -- An outcome that needs no fuel.
  pub Settles-const : (r : Result E A) → r ≢ err spent → Settles spent (λ f. r)
  Settles-const r h = record { fuel = 0; outcome = r; not_spent = h; stable = λ m _. refl }

  -- One more unit of fuel for a call.
  pub Settles-suc :
      {run : ℕ → Result E A} (call : ℕ → Result E A)
      → ((f : ℕ) → run (suc f) ≡ call f)
      → Settles spent call
      → Settles spent run
  Settles-suc {run} call h s = record {
    fuel = suc s.fuel;
    outcome = s.outcome;
    not_spent = s.not_spent;
    stable = later;
  }
    where
      later : (m : ℕ) → suc s.fuel ≤ m → run m ≡ s.outcome
      later zero le = absurd (omega arith)
      later (suc m) le = h m ∙ s.stable m (omega arith)

  pub Settles-bind {κ} :
      {B : Type κ} {run : ℕ → Result E A} {next : ℕ → A → Result E B}
      → Settles spent run
      → ((a : A) (f : ℕ) → run f ≡ ok a → Settles spent (λ m. next m a))
      → Settles spent (λ f. run f >>= next f)
  Settles-bind {run = run} {next = next} s g = go s.outcome s.not_spent s.stable
    where
      go :
          (o : Result E A)
          → o ≢ err spent
          → ((m : ℕ) → s.fuel ≤ m → run m ≡ o)
          → Settles spent (λ f. run f >>= next f)
      go (ok a) h st =
          let t = g a s.fuel (st s.fuel (omega arith)) in
          record {
            fuel = max s.fuel t.fuel;
            outcome = t.outcome;
            not_spent = t.not_spent;
            stable = λ m le. rw (st m (omega arith)) (t.stable m (omega arith));
          }
      go (err e) h st = record {
        fuel = s.fuel;
        outcome = err e;
        not_spent = λ p. h (cc);
        stable = λ m le. rw (st m le);
      }
