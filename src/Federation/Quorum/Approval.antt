-- ===== src/Federation/Quorum/Approval.antt =====
-- What an approval says of the ledger.
use nexus_u.Prelude.{
  ℕ, ◌≤◌, String, Bool, true, false, not, ◌≡◌, refl, List, [], ◌∷◌, ◌++◌, length, ltb, Bool-cases,
  inl, inr, arith,
}
use nexus_u.Federation.{
  ActorRole, EvidenceSubmission, FederationLedger, value_at, no_errors, verify_submission,
}
use nexus_u.Federation.Quorum.{
  approved, blocked, conflict, insufficient_quorum, missing_dependency, QuorumPolicy,
  FederationReason, FederationDecision, evidence_for, keep, is_supports, is_refutes, has_role,
  total_weight, distinct, texts_of, roles_present, roles_absent, is_satisfied, unsatisfied,
  reason_if, first_of, valid_evidence, invalid_reasons, decision, quorum_reasons, decide_on,
  evaluate,
}

-- Every dependency is marked as satisfied.
abbrev pub AllSatisfied : FederationLedger → List String → Type 0
AllSatisfied l [] = Unit
AllSatisfied l (x ∷ xs) = (is_satisfied (value_at x l.dependencies) ≡ true) × AllSatisfied l xs

abbrev pub AllPresent : List ActorRole → List ActorRole → Type 0
AllPresent present [] = Unit
AllPresent present (r ∷ rs) = (has_role r present ≡ true) × AllPresent present rs

module _ (hmac_sign : EvidenceSubmission → String → String) (l : FederationLedger) where
  abbrev pub AllVerified : List EvidenceSubmission → Type 0
  AllVerified [] = Unit
  AllVerified (e ∷ es) = (verify_submission hmac_sign l e ≡ []) × AllVerified es

  -- The evidence for the obligation that verifies and has the verdict.
  abbrev pub supporting_of : String → List EvidenceSubmission
  supporting_of x =
      keep (λ e. is_supports e.verdict) (valid_evidence hmac_sign l (evidence_for x l))

  abbrev pub refuting_of : String → List EvidenceSubmission
  refuting_of x = keep (λ e. is_refutes e.verdict) (valid_evidence hmac_sign l (evidence_for x l))

  pub record Approved (x : String) (policy : QuorumPolicy) : Type 0 where
    pub verified : AllVerified (evidence_for x l)
    pub satisfied : AllSatisfied l policy.required_dependencies
    pub unopposed : refuting_of x ≡ []
    pub organizations :
        policy.minimum_organizations
        ≤ length (distinct (texts_of (λ e. e.organization) (supporting_of x)))
    pub groups :
        policy.minimum_independent_evidence
        ≤ length (distinct (texts_of (λ e. e.provenance_group) (supporting_of x)))
    pub weight : policy.minimum_weight ≤ total_weight l (supporting_of x)
    pub roles : AllPresent (roles_present l (supporting_of x)) policy.required_roles

-- A decision by the last of four tests.
last_case :
    (a b c d : Bool) (d₁ d₂ d₃ d₄ d₅ : FederationDecision)
    → (first_of a b c d d₁ d₂ d₃ d₄ d₅).status ≡ approved
    → d₁.status ≡ missing_dependency
    → d₂.status ≡ conflict
    → d₃.status ≡ blocked
    → d₄.status ≡ insufficient_quorum
    → (a ≡ false) × (d ≡ false)
unfolding first_of
last_case true b c d d₁ d₂ d₃ d₄ d₅ e h₁ h₂ h₃ h₄ = absurd cc
last_case false true c d d₁ d₂ d₃ d₄ d₅ e h₁ h₂ h₃ h₄ = absurd cc
last_case false false true d d₁ d₂ d₃ d₄ d₅ e h₁ h₂ h₃ h₄ = absurd cc
last_case false false false true d₁ d₂ d₃ d₄ d₅ e h₁ h₂ h₃ h₄ = absurd cc
last_case false false false false d₁ d₂ d₃ d₄ d₅ e h₁ h₂ h₃ h₄ = (refl, refl)

nothing-nil : {A : Type 0} (xs : List A) → no_errors xs ≡ true → xs ≡ []
nothing-nil [] h = refl
nothing-nil (x ∷ xs) h = cc

nothing-append :
    {A : Type 0} (xs ys : List A)
    → no_errors (xs ++ ys) ≡ true
    → (no_errors xs ≡ true) × (no_errors ys ≡ true)
nothing-append [] ys h = (refl, h)
nothing-append (x ∷ xs) ys h = cc

no_reason : (b : Bool) (r : FederationReason) → no_errors (reason_if b r) ≡ true → b ≡ false
unfolding reason_if
no_reason true r h = cc
no_reason false r h = refl

not_less : (a b : ℕ) → ltb a b ≡ false → b ≤ a
not_less a b h = ground arith

of_not : (b c : Bool) → not b ≡ c → b ≡ not c
of_not b c h = ground arith

unsatisfied-AllSatisfied :
    (l : FederationLedger) (xs : List String)
    → no_errors (unsatisfied xs l) ≡ true
    → AllSatisfied l xs
unfolding unsatisfied
unsatisfied-AllSatisfied l [] h = tt
unsatisfied-AllSatisfied l (x ∷ xs) h =
    elim (Bool-cases (is_satisfied (value_at x l.dependencies))) [
      | inl p ↦ (p, unsatisfied-AllSatisfied l xs (rw p at h))
      | inr p ↦ absurd (let q = rw p at h in cc)
    ]

roles_absent-AllPresent :
    (rs present : List ActorRole)
    → no_errors (roles_absent rs present) ≡ true
    → AllPresent present rs
unfolding roles_absent
roles_absent-AllPresent [] present h = tt
roles_absent-AllPresent (r ∷ rs) present h = elim (Bool-cases (has_role r present)) [
  | inl p ↦ (p, roles_absent-AllPresent rs present (rw p at h))
  | inr p ↦ absurd (let q = rw p at h in cc)
]

module _ (hmac_sign : EvidenceSubmission → String → String) (l : FederationLedger) where
  invalid_reasons-AllVerified :
      (es : List EvidenceSubmission)
      → no_errors (invalid_reasons hmac_sign l es) ≡ true
      → AllVerified hmac_sign l es
  unfolding invalid_reasons
  invalid_reasons-AllVerified [] h = tt
  invalid_reasons-AllVerified (e ∷ es) h =
      elim (Bool-cases (no_errors (verify_submission hmac_sign l e))) [
        | inl p ↦ (nothing-nil _ p, invalid_reasons-AllVerified es (rw p at h))
        | inr p ↦ absurd (let q = rw p at h in cc)
      ]

  -- An obligation is approved only if every submission for it verifies, every required dependency
  -- is satisfied, no verified submission refutes it, and the verified submissions that support it
  -- come from enough organizations and enough provenance groups, have enough weight, and have
  -- actors with every required role.
  pub evaluate-Approved :
      (x : String) (policy : QuorumPolicy)
      → (evaluate hmac_sign l x policy).status ≡ approved
      → Approved hmac_sign l x policy
  unfolding evaluate decide_on decision quorum_reasons
  evaluate-Approved x policy h =
      let (missing, reasons) = last_case _ _ _ _ _ _ _ _ _ h refl refl refl refl in
      let (valid, quorum) =
        nothing-append (invalid_reasons hmac_sign l (evidence_for x l)) _ (of_not _ _ reasons) in
      let (quorum₁, undecided) = nothing-append _ _ quorum in
      let (quorum₂, roles) = nothing-append _ _ quorum₁ in
      let (quorum₃, weight) = nothing-append _ _ quorum₂ in
      let (quorum₄, groups) = nothing-append _ _ quorum₃ in
      let (refuting, organizations) = nothing-append _ _ quorum₄ in
      record {
        verified = invalid_reasons-AllVerified (evidence_for x l) valid;
        satisfied = unsatisfied-AllSatisfied l policy.required_dependencies (of_not _ _ missing);
        unopposed = nothing-nil _ (of_not _ _ (no_reason _ _ refuting));
        organizations = not_less _ _ (no_reason _ _ organizations);
        groups = not_less _ _ (no_reason _ _ groups);
        weight = not_less _ _ (no_reason _ _ weight);
        roles = roles_absent-AllPresent policy.required_roles _ (of_not _ _ (no_reason _ _ roles));
      }
