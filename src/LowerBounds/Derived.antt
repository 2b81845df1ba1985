-- ===== src/LowerBounds/Derived.antt =====
-- What the claims that reductions give rest on.
use nexus_u.Prelude.{
  Bool, true, ◌&&◌, ◌≡◌, refl, Option, none, some, List, [], ◌∷◌, ok, any, arith, inl, inr,
  Bool-cases,
}
use nexus_u.LowerBounds.{
  lower, published_result, conditional_theorem, ProblemDefinition, BoundClaim, ReductionRecord,
  problem_of, is_established,
}
use nexus_u.LowerBounds.Derivation.{
  establishes_premise, derived_claim, conditional_claim, derive_claim, derive_reduction_claims,
}

pub data Member {A : Type 0} (p : A → Bool) : List A → Type 0 where
  here : {x : A} {xs : List A} → p x ≡ true → Member p (x ∷ xs)
  there : {x : A} {xs : List A} → Member p xs → Member p (x ∷ xs)

-- What is derived by a reduction: a lower bound for its target, published if the reduction and its
-- premise are established, and otherwise conditional, on assumptions that are written down.
pub data Grounded (claims : List BoundClaim) (r : ReductionRecord) (c : BoundClaim) : Type 0 where
  published :
      c.status ≡ published_result
      → is_established r.status ≡ true
      → Member (establishes_premise r) claims
      → Grounded claims r c
  conditional : c.status ≡ conditional_theorem → ¬ (c.assumptions ≡ []) → Grounded claims r c

pub record Derives (claims : List BoundClaim) (r : ReductionRecord) (c : BoundClaim) : Type 0 where
  pub is_lower_bound : c.kind ≡ lower
  pub of_target : c.problem_id ≡ r.target_problem_id
  pub consequence : c.complexity ≡ r.consequence_bound
  pub grounded : Grounded claims r c

-- One claim for each reduction, in order.
pub data AllDerived (claims : List BoundClaim)
    : List ReductionRecord → List BoundClaim → Type 0 where
  done : AllDerived claims [] []
  derive :
      {r : ReductionRecord} {rs : List ReductionRecord} {c : BoundClaim} {cs : List BoundClaim}
      → Derives claims r c
      → AllDerived claims rs cs
      → AllDerived claims (r ∷ rs) (c ∷ cs)

any-Member : {A : Type 0} (p : A → Bool) (xs : List A) → any p xs ≡ true → Member p xs
any-Member p [] h = absurd cc
any-Member p (x ∷ xs) h = elim (Bool-cases (p x)) [
  | inl e ↦ here e
  | inr e ↦ there (any-Member p xs (rw e at h))
]

cons_not_nil : {A : Type 0} (x : A) (xs : List A) → ¬ (x ∷ xs ≡ [])
cons_not_nil x xs h = cc

both_of : (a b : Bool) → a && b ≡ true → (a ≡ true) × (b ≡ true)
both_of a b h = ground arith

conditional_claim-Derives :
    (claims : List BoundClaim) (r : ReductionRecord) (p : Option ProblemDefinition)
    → ¬ (p ≡ none)
    → (c : BoundClaim) × (conditional_claim r p ≡ ok c) × Derives claims r c
conditional_claim-Derives claims r none h = absurd (h refl)
conditional_claim-Derives claims r (some p) h = (
  _,
  refl,
  record {
    is_lower_bound = refl;
    of_target = refl;
    consequence = refl;
    grounded = conditional refl (cons_not_nil _ _);
  },
)

published_claim-Derives :
    (claims : List BoundClaim) (r : ReductionRecord)
    → is_established r.status && any (establishes_premise r) claims ≡ true
    → Derives claims r (derived_claim r published_result [])
published_claim-Derives claims r e =
    let (established, premise) = both_of _ _ e in
    record {
      is_lower_bound = refl;
      of_target = refl;
      consequence = refl;
      grounded = published refl established (any-Member (establishes_premise r) claims premise);
    }

-- The source problem of every reduction is registered.
abbrev pub AllKnown : List ProblemDefinition → List ReductionRecord → Type 0
AllKnown problems [] = Unit
AllKnown problems (r ∷ rs) =
    (¬ (problem_of r.source_problem_id problems ≡ none)) × AllKnown problems rs

module _ (claims : List BoundClaim) (problems : List ProblemDefinition) where
  derive_claim-Derives :
      (r : ReductionRecord)
      → ¬ (problem_of r.source_problem_id problems ≡ none)
      → (c : BoundClaim) × (derive_claim claims problems r ≡ ok c) × Derives claims r c
  unfolding derive_claim
  derive_claim-Derives r h =
      elim (Bool-cases (is_established r.status && any (establishes_premise r) claims)) [
        | inl e ↦ (_, rw e refl, published_claim-Derives claims r e)
        | inr e ↦ rw e (conditional_claim-Derives claims r _ h)
      ]

  -- When the source problem of every reduction is registered, the reductions give one claim each,
  -- in their order: a lower bound for the reduction's target, which is PUBLISHED_RESULT only if the
  -- reduction is established and some registered lower bound is its premise and established, and
  -- otherwise is conditional on assumptions that it names.
  pub derive_reduction_claims-AllDerived :
      (rs : List ReductionRecord)
      → AllKnown problems rs
      → (cs : List BoundClaim) × (derive_reduction_claims rs claims problems ≡ ok cs)
        × AllDerived claims rs cs
  unfolding derive_reduction_claims
  derive_reduction_claims-AllDerived [] h = ([], refl, done)
  derive_reduction_claims-AllDerived (r ∷ rs) (h, hs) =
      let (c, p, d) = derive_claim-Derives r h in
      let (rest, q, ds) = derive_reduction_claims-AllDerived rs hs in
      (c ∷ rest, rw (p, q) refl, derive d ds)
