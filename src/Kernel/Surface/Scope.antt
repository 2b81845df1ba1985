-- ===== src/Kernel/Surface/Scope.antt =====
-- Elaboration yields well-scoped terms, and it does not depend on how binders are named.
use nexus_u.Prelude.{
  ℕ, suc, ◌<◌, ◌≡◌, refl, String, some, List, [], ◌∷◌, map, ok, inl, inr, arith, str_eq, str_eq→eq,
  str_eq_refl, str_eq→ne, Option-cases, Bool-cases, contains, length,
}
use nexus_u.Prelude.Lists.{index_of}
use nexus_u.Prelude.Ensures.{Ensures, returns, raises, ◌⊳◌, value_ensured, Ensures-self}
use nexus_u.Kernel.Ast.{
  Term, sort, var, const, pi, lam, app, let_in, sum_type, case, empty_type, empty_elim,
}
use nexus_u.Kernel.Fault.{Result}
use nexus_u.Kernel.Surface.{
  SurfaceTerm, svar, ssort, spi, slam, sapp, slet, ssum, sinl, sinr, scase, sempty, sempty_elim,
  found, fresh, elaborate,
}

-- The free indices lie below `n`, and no constant stands in the term.
abbrev pub IsScoped : ℕ → Term → Type 0
IsScoped n (sort u) = Unit
IsScoped n (var i) = i < n
IsScoped n (const x) = ⊥
IsScoped n (pi a b) = IsScoped n a × IsScoped (suc n) b
IsScoped n (lam a b) = IsScoped n a × IsScoped (suc n) b
IsScoped n (app g a) = IsScoped n g × IsScoped n a
IsScoped n (let_in t v b) = IsScoped n t × IsScoped n v × IsScoped (suc n) b
IsScoped n (sum_type a b) = IsScoped n a × IsScoped n b
IsScoped n (Term.inl v t) = IsScoped n v × IsScoped n t
IsScoped n (Term.inr t v) = IsScoped n t × IsScoped n v
IsScoped n (case s l r t) = IsScoped n s × IsScoped n l × IsScoped n r × IsScoped n t
IsScoped n empty_type = Unit
IsScoped n (empty_elim p t) = IsScoped n p × IsScoped n t

index_of-lt : (x : String) (Γ : List String) (i : ℕ) → index_of x Γ ≡ some i → i < length Γ
unfolding index_of
index_of-lt x [] i h = cc
index_of-lt x (y ∷ Γ) i h = elim (Option-cases (index_of x Γ)) [
  | inl e ↦ ground arith
  | inr (j, e) ↦ ground (arith, index_of-lt x Γ j e)
]

abbrev Scopes : ℕ → Result Term → Type 0
Scopes n = Ensures (IsScoped n)

found-IsScoped : (x : String) (Γ : List String) → Scopes (length Γ) (found (index_of x Γ))
found-IsScoped x Γ = elim (Option-cases (index_of x Γ)) [
  | inl e ↦ rw e raises
  | inr (i, e) ↦ rw e (returns (index_of-lt x Γ i e))
]

elaborate-Scopes : (s : SurfaceTerm) (Γ : List String) → Scopes (length Γ) (elaborate s Γ)
unfolding elaborate
elaborate-Scopes (svar x) Γ = found-IsScoped x Γ
elaborate-Scopes (ssort u) Γ = returns tt
elaborate-Scopes (spi x a b) Γ = Ensures-self (fresh x Γ) ⊳ λ _ _.
    elaborate-Scopes a Γ ⊳ λ _ p. elaborate-Scopes b (x ∷ Γ) ⊳ λ _ q. returns (p, q)
elaborate-Scopes (slam x a b) Γ = Ensures-self (fresh x Γ) ⊳ λ _ _.
    elaborate-Scopes a Γ ⊳ λ _ p. elaborate-Scopes b (x ∷ Γ) ⊳ λ _ q. returns (p, q)
elaborate-Scopes (sapp g a) Γ =
    elaborate-Scopes g Γ ⊳ λ _ p. elaborate-Scopes a Γ ⊳ λ _ q. returns (p, q)
elaborate-Scopes (slet x t v b) Γ = Ensures-self (fresh x Γ) ⊳ λ _ _. elaborate-Scopes t Γ ⊳ λ _ p.
    elaborate-Scopes v Γ ⊳ λ _ q. elaborate-Scopes b (x ∷ Γ) ⊳ λ _ r. returns (p, q, r)
elaborate-Scopes (ssum a b) Γ =
    elaborate-Scopes a Γ ⊳ λ _ p. elaborate-Scopes b Γ ⊳ λ _ q. returns (p, q)
elaborate-Scopes (sinl v t) Γ =
    elaborate-Scopes v Γ ⊳ λ _ p. elaborate-Scopes t Γ ⊳ λ _ q. returns (p, q)
elaborate-Scopes (sinr t v) Γ =
    elaborate-Scopes t Γ ⊳ λ _ p. elaborate-Scopes v Γ ⊳ λ _ q. returns (p, q)
elaborate-Scopes (scase s l r t) Γ = elaborate-Scopes s Γ ⊳ λ _ p. elaborate-Scopes l Γ ⊳ λ _ q.
    elaborate-Scopes r Γ ⊳ λ _ p'. elaborate-Scopes t Γ ⊳ λ _ q'. returns (p, q, p', q')
elaborate-Scopes sempty Γ = returns tt
elaborate-Scopes (sempty_elim p t) Γ =
    elaborate-Scopes p Γ ⊳ λ _ p'. elaborate-Scopes t Γ ⊳ λ _ q. returns (p', q)

-- If elaboration succeeds, the term's free indices lie below the length of the context, and it
-- holds no constants.
pub elaborate-IsScoped :
    (s : SurfaceTerm) (Γ : List String) {t : Term} → elaborate s Γ ≡ ok t → IsScoped (length Γ) t
elaborate-IsScoped s Γ e = value_ensured (rw e at (elaborate-Scopes s Γ))

-- Another name for every name.
unfoldable pub rename : (String → String) → SurfaceTerm → SurfaceTerm
rename ρ (svar x) = svar (ρ x)
rename ρ (ssort u) = ssort u
rename ρ (spi x a b) = spi (ρ x) (rename ρ a) (rename ρ b)
rename ρ (slam x a b) = slam (ρ x) (rename ρ a) (rename ρ b)
rename ρ (sapp g a) = sapp (rename ρ g) (rename ρ a)
rename ρ (slet x t v b) = slet (ρ x) (rename ρ t) (rename ρ v) (rename ρ b)
rename ρ (ssum a b) = ssum (rename ρ a) (rename ρ b)
rename ρ (sinl v t) = sinl (rename ρ v) (rename ρ t)
rename ρ (sinr t v) = sinr (rename ρ t) (rename ρ v)
rename ρ (scase s l r t) = scase (rename ρ s) (rename ρ l) (rename ρ r) (rename ρ t)
rename ρ sempty = sempty
rename ρ (sempty_elim p t) = sempty_elim (rename ρ p) (rename ρ t)

module _ (ρ : String → String) (injective : (x y : String) → ρ x ≡ ρ y → x ≡ y) where
  str_eq-rename : (x y : String) → str_eq (ρ x) (ρ y) ≡ str_eq x y
  str_eq-rename x y = elim (Bool-cases (str_eq x y)) [
    | inl same ↦ rw (str_eq→eq x y same, str_eq_refl, str_eq_refl) refl
    | inr differ ↦ elim (Bool-cases (str_eq (ρ x) (ρ y))) [
      | inl h ↦ absurd (str_eq→ne x y differ (injective x y (str_eq→eq (ρ x) (ρ y) h)))
      | inr h ↦ rw (h, differ)
    ]
  ]

  index_of-rename : (x : String) (Γ : List String) → index_of (ρ x) (map ρ Γ) ≡ index_of x Γ
  unfolding index_of
  index_of-rename x [] = refl
  index_of-rename x (y ∷ Γ) = rw (str_eq-rename y x, index_of-rename x Γ)

  contains-rename : (x : String) (Γ : List String) → contains (ρ x) (map ρ Γ) ≡ contains x Γ
  contains-rename x [] = refl
  contains-rename x (y ∷ Γ) = rw (str_eq-rename y x, contains-rename x Γ)

  -- Under an injective renaming of all names, free and bound, a surface term elaborates to the same
  -- term, or is refused in the same way.
  pub elaborate-rename :
      (s : SurfaceTerm) (Γ : List String) → elaborate (rename ρ s) (map ρ Γ) ≡ elaborate s Γ
  unfolding elaborate rename
  elaborate-rename (svar x) Γ = rw (index_of-rename x Γ)
  elaborate-rename (ssort u) Γ = refl
  elaborate-rename (spi x a b) Γ =
      rw (contains-rename x Γ, elaborate-rename a Γ, elaborate-rename b (x ∷ Γ))
  elaborate-rename (slam x a b) Γ =
      rw (contains-rename x Γ, elaborate-rename a Γ, elaborate-rename b (x ∷ Γ))
  elaborate-rename (sapp g a) Γ = rw (elaborate-rename g Γ, elaborate-rename a Γ)
  elaborate-rename (slet x t v b) Γ =
      rw (
        contains-rename x Γ,
        elaborate-rename t Γ,
        elaborate-rename v Γ,
        elaborate-rename b (x ∷ Γ),
      )
  elaborate-rename (ssum a b) Γ = rw (elaborate-rename a Γ, elaborate-rename b Γ)
  elaborate-rename (sinl v t) Γ = rw (elaborate-rename v Γ, elaborate-rename t Γ)
  elaborate-rename (sinr t v) Γ = rw (elaborate-rename t Γ, elaborate-rename v Γ)
  elaborate-rename (scase s l r t) Γ =
      rw (elaborate-rename s Γ, elaborate-rename l Γ, elaborate-rename r Γ, elaborate-rename t Γ)
  elaborate-rename sempty Γ = refl
  elaborate-rename (sempty_elim p t) Γ = rw (elaborate-rename p Γ, elaborate-rename t Γ)
