-- ===== src/Microkernel/Meaning.antt =====
-- What the checker accepts is true under every reading of the atoms as types.
use mathlib.Core.Bool.{decide}
use nexus_u.Prelude.{
  String, Bool, true, false, ◌≡◌, ◌≢◌, inl, inr, refl, some, List, [], ◌∷◌, ok, str_eq, Bool-cases,
  Option-cases, arith,
}
use nexus_u.Prelude.Ensures.{Ensures, returns, raises, ◌⊳◌, value_ensured, Ensures-self}
use nexus_u.Microkernel.{
  Formula, atom, bottom, imp, and, Formula-discrete, not, Term, hyp, lam, app, pair, fst, snd, dne,
  ProofError, Result, Context, lookup, same_formula, declared, unused, as_imp, as_and, require,
  infer,
}

-- An atom is read as the type that `ρ` gives.
abbrev pub Holds : (String → Type 0) → Formula → Type 0
Holds ρ (atom x) = ρ x
Holds ρ bottom = ⊥
Holds ρ (imp a b) = Holds ρ a → Holds ρ b
Holds ρ (and a b) = Holds ρ a × Holds ρ b

-- Every hypothesis holds.
abbrev pub AllHold : (String → Type 0) → Context → Type 0
AllHold ρ Γ = (x : String) (a : Formula) → lookup x Γ ≡ some a → Holds ρ a

-- The formulas declared decidable are decided.
abbrev pub AllDecided : (String → Type 0) → List Formula → Type 0
AllDecided ρ ds = (a : Formula) → declared a ds ≡ true → Dec (Holds ρ a)

same_formula→eq : (a b : Formula) → same_formula a b ≡ true → a ≡ b
unfolding same_formula decide
same_formula→eq a b h = of_decide (Formula-discrete a b) h
  where
    of_decide : (d : Dec (a ≡ b)) → decide d ≡ true → a ≡ b
    of_decide (yes e) p = e
    of_decide (no e) p = cc

as_imp-Ensures : (c : Formula) → Ensures (λ r. c ≡ imp r.0 r.1) (as_imp c)
as_imp-Ensures (imp a b) = returns refl
as_imp-Ensures _ = raises

as_and-Ensures : (c : Formula) → Ensures (λ r. c ≡ and r.0 r.1) (as_and c)
as_and-Ensures (and a b) = returns refl
as_and-Ensures _ = raises

of_require : (b : Bool) (e : ProofError) {u : Unit {0}} → require b e ≡ ok u → b ≡ true
of_require true e h = refl
of_require false e h = cc

module _ (ρ : String → Type 0) (ds : List Formula) (decided : AllDecided ρ ds) where
  AllHold-cons :
      (x : String) (a : Formula) (Γ : Context) → Holds ρ a → AllHold ρ Γ → AllHold ρ ((x, a) ∷ Γ)
  unfolding lookup
  AllHold-cons x a Γ p h y b e = elim (Bool-cases (str_eq x y)) [
    | inl hit ↦ let q : a ≡ b = ground arith in rw q at p
    | inr miss ↦ h y b (ground arith)
  ]

  double_negation : (a : Formula) → Dec (Holds ρ a) → Holds ρ (not (not a)) → Holds ρ a
  double_negation a (yes p) h = p
  double_negation a (no p) h = absurd (h p)

  -- The formula that comes out, if one does, holds where the hypotheses do.
  abbrev Means : Context → Result Formula → Type 0
  Means Γ = Ensures (λ a. AllHold ρ Γ → Holds ρ a)

  infer-Means : (t : Term) (Γ : Context) → Means Γ (infer ds t Γ)
  unfolding infer
  infer-Means (hyp x) Γ = elim (Option-cases (lookup x Γ)) [
    | inl e ↦ rw e raises
    | inr (a, e) ↦ rw e (returns (λ h. h x a e))
  ]
  infer-Means (lam x a t) Γ = Ensures-self (unused (lookup x Γ)) ⊳ λ _ _.
      infer-Means t ((x, a) ∷ Γ) ⊳ λ b p. returns (λ h q. p (AllHold-cons x a Γ q h))
  infer-Means (app f t) Γ = infer-Means f Γ ⊳ λ c p. infer-Means t Γ ⊳ λ a' q.
      as_imp-Ensures c ⊳ λ (a, b) e. Ensures-self (require (same_formula a a') _) ⊳ λ _ r.
      let same : a ≡ a' = same_formula→eq a a' (of_require _ _ r) in
      returns (λ h. (rw e at p h) (rw (← same) at q h))
  infer-Means (pair t u) Γ =
      infer-Means t Γ ⊳ λ a p. infer-Means u Γ ⊳ λ b q. returns (λ h. (p h, q h))
  infer-Means (fst t) Γ =
      infer-Means t Γ ⊳ λ c p. as_and-Ensures c ⊳ λ (a, b) e. returns (λ h. (rw e at p h).0)
  infer-Means (snd t) Γ =
      infer-Means t Γ ⊳ λ c p. as_and-Ensures c ⊳ λ (a, b) e. returns (λ h. (rw e at p h).1)
  infer-Means (dne a t) Γ = Ensures-self (require (declared a ds) _) ⊳ λ _ s.
      infer-Means t Γ ⊳ λ c p. Ensures-self (require (same_formula c (not (not a))) _) ⊳ λ _ r.
      let same : c ≡ not (not a) = same_formula→eq c (not (not a)) (of_require _ _ r) in
      returns (λ h. double_negation a (decided a (of_require _ _ s)) (rw same at p h))

  -- Under a reading of the atoms that decides the formulas declared decidable: if `infer` returns a
  -- formula, it holds wherever the hypotheses of the context hold.
  pub infer-Holds :
      (t : Term) (Γ : Context) {a : Formula} → infer ds t Γ ≡ ok a → AllHold ρ Γ → Holds ρ a
  infer-Holds t Γ e = value_ensured (rw e at (infer-Means t Γ))

-- Every formula is decided when no atom holds.
Nowhere : String → Type 0
Nowhere x = ⊥

dec_holds : (a : Formula) → Dec (Holds Nowhere a)
unfolding Nowhere
dec_holds (atom x) = no (λ h. h)
dec_holds bottom = no (λ h. h)
dec_holds (imp a b) = dec_imp (dec_holds a) (dec_holds b)
  where
    dec_imp : Dec (Holds Nowhere a) → Dec (Holds Nowhere b) → Dec (Holds Nowhere (imp a b))
    dec_imp _ (yes q) = yes (λ _. q)
    dec_imp (no p) (no q) = yes (λ h. absurd (p h))
    dec_imp (yes p) (no q) = no (λ h. q (h p))
dec_holds (and a b) = dec_and (dec_holds a) (dec_holds b)
  where
    dec_and : Dec (Holds Nowhere a) → Dec (Holds Nowhere b) → Dec (Holds Nowhere (and a b))
    dec_and (yes p) (yes q) = yes (p, q)
    dec_and (no p) _ = no (λ h. p h.0)
    dec_and (yes p) (no q) = no (λ h. q h.1)

-- No proof term proves falsity without hypotheses, whatever formulas are declared decidable.
pub infer_consistent : (ds : List Formula) (t : Term) → infer ds t [] ≢ ok bottom
infer_consistent ds t e =
    infer-Holds Nowhere ds (λ a _. dec_holds a) t [] e (unfold lookup in λ x a p. cc)
