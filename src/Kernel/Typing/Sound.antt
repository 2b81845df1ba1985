-- ===== src/Kernel/Typing/Sound.antt =====
-- What `_infer`, `check` and `verify` accept is derivable by the typing rules.
use nexus_u.Prelude.{
  ℕ, suc, List, [], ◌∷◌, ok, ◌≡◌, refl, ltb, leb, pos, get_elem?, Option-cases, inl, inr, String,
}
use nexus_u.Prelude.Ensures.{Ensures, returns, raises, ◌⊳◌, value_ensured, Ensures-self, Ensures-if}
use nexus_u.Kernel.Ast.{Term, empty}
use nexus_u.Kernel.Subst.{lift}
use nexus_u.Kernel.Ops.{shift}
use nexus_u.Kernel.Ops.Lifting.{shift-pos}
use nexus_u.Kernel.Ops.Instantiate.{substitute_top_lem}
use nexus_u.Kernel.Environment.{get}
use nexus_u.Kernel.Core.{NexusKernel, Budgeted, guard}
use nexus_u.Kernel.Reduction.{Reduces, stay}
use nexus_u.Kernel.Reduction.Sound.{whnf_sound, convertible_with_budget_sound}
use nexus_u.Kernel.Rules.{Typed, convert}
use nexus_u.Kernel.Typing.{
  context_lookup, as_sort, as_pi, as_sum, expect_sort_of, check_of, infer_with, infer, check,
  expect_sort, verify,
}

as_sort-Ensures : (t : Term) → Ensures (λ u. t ≡ Term.sort u) (as_sort t)
as_sort-Ensures (Term.sort u) = returns refl
as_sort-Ensures _ = raises

as_pi-Ensures : (t : Term) → Ensures (λ r. t ≡ Term.pi r.0 r.1) (as_pi t)
as_pi-Ensures (Term.pi a b) = returns refl
as_pi-Ensures _ = raises

as_sum-Ensures : (t : Term) → Ensures (λ r. t ≡ Term.sum_type r.0 r.1) (as_sum t)
as_sum-Ensures (Term.sum_type a b) = returns refl
as_sum-Ensures _ = raises

shift-Ensures : (t : Term) (d : ℕ) → Ensures (λ t'. t' ≡ lift d 0 t) (shift t (pos d) 0)
shift-Ensures t d = rw (shift-pos t d 0) (returns refl)

module _ (k : NexusKernel) (f : ℕ) where
  -- The type that comes out, if one does, is a type of the term.
  abbrev Infers : List Term → Term → Budgeted → Type 0
  Infers Γ t = Ensures (λ (a, n). Typed k.environment Γ t a)

  by_reduction :
      {Γ : List Term} {t a b c : Term}
      → Typed k.environment Γ t a
      → Reduces k.environment a b
      → b ≡ c
      → Typed k.environment Γ t c
  by_reduction h p e = convert h (record { common = _; from_left = p; from_right = rw (← e) stay })

  expect_sort_of_sound :
      (Γ : List Term) (t : Term) (r : ℕ → Budgeted) (n : ℕ)
      → ((m : ℕ) → Infers Γ t (r m))
      → Ensures (λ s. Typed k.environment Γ t (Term.sort s.0)) (expect_sort_of k f r n)
  unfolding expect_sort_of
  expect_sort_of_sound Γ t r n h = h n ⊳ λ (a, n₁) p. whnf_sound k f a n₁ ⊳ λ (s, n₂) q.
      as_sort-Ensures s ⊳ λ u e.
      Ensures-if (ltb k.limits.max_universe u) (λ _. raises) (λ _. returns (by_reduction p q e))

  check_of_sound :
      (Γ : List Term) (t expected : Term) (r : ℕ → Budgeted) (n : ℕ)
      → ((m : ℕ) → Infers Γ t (r m))
      → Ensures (λ n'. Typed k.environment Γ t expected) (check_of k f r t expected n)
  unfolding check_of
  check_of_sound Γ t expected r n h = Ensures-self (guard k t) ⊳ λ _ _.
      Ensures-self (guard k expected) ⊳ λ _ _. h n ⊳ λ (a, n₁) p.
      convertible_with_budget_sound k f a expected n₁ ⊳ λ (same, n₂) q.
      Ensures-if same (λ e. returns (convert p (q e))) (λ _. raises)

  context_lookup_sound :
      (Γ : List Term) (i : ℕ) → Ensures (Typed k.environment Γ (Term.var i)) (context_lookup Γ i)
  unfolding context_lookup
  context_lookup_sound Γ i = elim (Option-cases (get_elem? Γ i)) [
    | inl e ↦ rw (e, context_lookup) raises
    | inr (t, e) ↦ rw (e, context_lookup, shift-pos t (suc i) 0) (returns (Typed.var e))
  ]

  -- A type that inference returns is derivable, in any context and with any budget spent.
  pub infer_with_sound : (t : Term) (Γ : List Term) (n : ℕ) → Infers Γ t (infer_with k f t Γ n)
  unfolding infer_with
  infer_with_sound (Term.sort u) Γ n =
      Ensures-if (leb k.limits.max_universe u) (λ _. raises) (λ _. returns (Typed.sort u))
  infer_with_sound (Term.var i) Γ n = context_lookup_sound Γ i ⊳ λ t d. returns d
  infer_with_sound (Term.const x) Γ n =
      Ensures-self (get k.environment x) ⊳ λ d e. returns (Typed.const e)
  infer_with_sound (Term.pi a b) Γ n =
      expect_sort_of_sound Γ a _ n (infer_with_sound a Γ) ⊳ λ (u, n₁) p.
      expect_sort_of_sound (a ∷ Γ) b _ n₁ (infer_with_sound b (a ∷ Γ)) ⊳ λ (v, n₂) q.
      returns (Typed.pi p q)
  infer_with_sound (Term.lam a b) Γ n =
      expect_sort_of_sound Γ a _ n (infer_with_sound a Γ) ⊳ λ (u, n₁) p.
      infer_with_sound b (a ∷ Γ) n₁ ⊳ λ (t, n₂) q. returns (Typed.lam p q)
  infer_with_sound (Term.app g a) Γ n = infer_with_sound g Γ n ⊳ λ (t, n₁) p.
      whnf_sound k f t n₁ ⊳ λ (t', n₂) q. as_pi-Ensures t' ⊳ λ (d, c) e.
      check_of_sound Γ a d _ n₂ (infer_with_sound a Γ) ⊳ λ n₃ arg.
      rw (substitute_top_lem a c) (returns (Typed.app (by_reduction p q e) arg))
  infer_with_sound (Term.let_in t v b) Γ n =
      expect_sort_of_sound Γ t _ n (infer_with_sound t Γ) ⊳ λ (u, n₁) p.
      check_of_sound Γ v t _ n₁ (infer_with_sound v Γ) ⊳ λ n₂ q.
      infer_with_sound b (t ∷ Γ) n₂ ⊳ λ (c, n₃) r.
      rw (substitute_top_lem v c) (returns (Typed.let_in p q r))
  infer_with_sound (Term.sum_type a b) Γ n =
      expect_sort_of_sound Γ a _ n (infer_with_sound a Γ) ⊳ λ (u, n₁) p.
      expect_sort_of_sound Γ b _ n₁ (infer_with_sound b Γ) ⊳ λ (v, n₂) q.
      returns (Typed.sum_type p q)
  infer_with_sound (Term.inl v t) Γ n = infer_with_sound v Γ n ⊳ λ (a, n₁) p.
      expect_sort_of_sound Γ t _ n₁ (infer_with_sound t Γ) ⊳ λ (u, n₂) q. returns (Typed.inl p q)
  infer_with_sound (Term.inr t v) Γ n =
      expect_sort_of_sound Γ t _ n (infer_with_sound t Γ) ⊳ λ (u, n₁) p.
      infer_with_sound v Γ n₁ ⊳ λ (b, n₂) q. returns (Typed.inr p q)
  infer_with_sound (Term.case s l r t) Γ n = infer_with_sound s Γ n ⊳ λ (c, n₁) p.
      whnf_sound k f c n₁ ⊳ λ (c', n₂) q. as_sum-Ensures c' ⊳ λ (a, b) e.
      expect_sort_of_sound Γ t _ n₂ (infer_with_sound t Γ) ⊳ λ (u, n₃) result.
      rw (shift-pos t 1 0) (
        check_of_sound Γ l (Term.pi a (lift 1 0 t)) _ n₃ (infer_with_sound l Γ) ⊳ λ n₄ dl.
        check_of_sound Γ r (Term.pi b (lift 1 0 t)) _ n₄ (infer_with_sound r Γ) ⊳ λ n₅ dr.
        returns (Typed.case (by_reduction p q e) result dl dr))
  infer_with_sound Term.empty_type Γ n = returns Typed.empty_type
  infer_with_sound (Term.empty_elim p t) Γ n =
      check_of_sound Γ p empty _ n (infer_with_sound p Γ) ⊳ λ n₁ d.
      expect_sort_of_sound Γ t _ n₁ (infer_with_sound t Γ) ⊳ λ (u, n₂) result.
      returns (Typed.empty_elim d result)

  pub expect_sort_sound :
      (t : Term) (Γ : List Term) (n : ℕ)
      → Ensures (λ s. Typed k.environment Γ t (Term.sort s.0)) (expect_sort k f t Γ n)
  unfolding expect_sort
  expect_sort_sound t Γ n = expect_sort_of_sound Γ t _ n (infer_with_sound t Γ)

  pub check_sound :
      (t expected : Term) (Γ : List Term)
      → Ensures (λ _. Typed k.environment Γ t expected) (check k f t expected Γ)
  unfolding check
  check_sound t expected Γ =
      check_of_sound Γ t expected _ 0 (infer_with_sound t Γ) ⊳ λ n d. returns d

  infer-Ensures : (t : Term) (Γ : List Term) → Ensures (Typed k.environment Γ t) (infer k f t Γ)
  unfolding infer
  infer-Ensures t Γ =
      Ensures-self (guard k t) ⊳ λ _ _. infer_with_sound t Γ 0 ⊳ λ (a, n) d. returns d

  -- A proof that `verify` accepts is derivable at a statement that is itself derivably a type.
  abbrev pub IsTheorem : Term → Term → Type 0
  IsTheorem proof theorem =
      ((u : ℕ) × Typed k.environment [] theorem (Term.sort u))
      × Typed k.environment [] proof theorem

  verify-Ensures :
      (proof theorem : Term) → Ensures (λ _. IsTheorem proof theorem) (verify k f proof theorem)
  unfolding verify
  verify-Ensures proof theorem = expect_sort_sound theorem [] 0 ⊳ λ (u, n) p.
      check_sound proof theorem [] ⊳ λ _ q. returns ((u, p), q)

  -- If `infer` returns a type, the term has it by the rules.
  pub infer_sound :
      (t : Term) (Γ : List Term) {a : Term} → infer k f t Γ ≡ ok a → Typed k.environment Γ t a
  infer_sound t Γ e = value_ensured (rw e at (infer-Ensures t Γ))

  -- If `verify` returns a report, the statement is a type and the proof has it, by the rules.
  pub verify_sound :
      (proof theorem : Term) {report : ℕ × ℕ × ℕ × List String}
      → verify k f proof theorem ≡ ok report
      → IsTheorem proof theorem
  verify_sound proof theorem e = value_ensured (rw e at (verify-Ensures proof theorem))
