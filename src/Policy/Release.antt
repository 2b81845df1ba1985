-- ===== src/Policy/Release.antt =====
-- What a release decision that allows says of the record.
use nexus_u.Prelude.{
  ℕ, ◌≤◌, String, Bool, true, false, ◌≡◌, refl, ap, ◌∙◌, List, [], ◌∷◌, ◌++◌, ok, >>=-eq-ok, length,
  any, ltb, if◌then◌else◌, Bool-cases, inl, inr, arith,
}
use nexus_u.Claims.{EpistemicStatus, rank, better, Claim, strongest_evidence_status}
use nexus_u.Planner.{TaskMode}
use nexus_u.Task.{TaskSpec}
use nexus_u.Record.{ArtifactRecord}
use nexus_u.Policy.Decision.{Reason, no_claim_record, PolicyDecision}
use nexus_u.Policy.{
  Policy, is_empty, is_formal, occurs, reason_if, greatest, denied_patterns, required_statuses,
  status_reasons, claim_reasons, release_reasons, evaluate_release,
}

-- No pattern occurs in the text.
abbrev pub NoneOccurs : (String → String) → List String → String → Type 0
NoneOccurs lower [] text = Unit
NoneOccurs lower (p ∷ ps) text = (occurs (lower p) text ≡ false) × NoneOccurs lower ps text

abbrev pub AllReached : EpistemicStatus → List EpistemicStatus → Type 0
AllReached actual [] = Unit
AllReached actual (s ∷ ss) = (rank s ≤ rank actual) × AllReached actual ss

-- There is a claim, and the evidence of the first one reaches every status that the modes require.
abbrev pub Warranted : (String → String) → Policy → List TaskMode → List Claim → Type 0
Warranted lower policy modes [] = ⊥
Warranted lower policy modes (claim ∷ _) =
    (required : List EpistemicStatus) × (required_statuses lower policy modes ≡ ok required)
    × AllReached (strongest_evidence_status claim) required

pub record Permitted (lower : String → String) (policy : Policy) (task : TaskSpec)
    (r : ArtifactRecord) : Type 0 where
  pub resolved : length r.unresolved_obligations ≤ policy.max_unresolved
  pub clean :
      any is_formal task.modes ≡ true
      → NoneOccurs lower policy.deny_output_patterns (lower r.output.dumped)
  pub warranted : Warranted lower policy task.modes r.claims

empty-append :
    {A : Type 0} (xs ys : List A)
    → is_empty (xs ++ ys) ≡ true
    → (is_empty xs ≡ true) × (is_empty ys ≡ true)
empty-append [] ys h = (refl, h)
empty-append (x ∷ xs) ys h = cc

greatest-AllReached :
    (actual best : EpistemicStatus) (ss : List EpistemicStatus)
    → rank (greatest best ss) ≤ rank actual
    → (rank best ≤ rank actual) × AllReached actual ss
unfolding greatest better
greatest-AllReached actual best [] h = (h, tt)
greatest-AllReached actual best (s ∷ ss) h =
    let (p, q) = greatest-AllReached actual (better best s) ss h in
    elim (Bool-cases (ltb (rank best) (rank s))) [
      | inl k ↦ let m : rank s ≤ rank actual = rw k at p in (ground arith, (m, q))
      | inr k ↦ let m : rank best ≤ rank actual = rw k at p in (m, (ground arith, q))
    ]

module _ (lower : String → String) (policy : Policy) where
  denied_patterns-NoneOccurs :
      (ps : List String) (text : String)
      → is_empty (denied_patterns lower policy ps text) ≡ true
      → NoneOccurs lower ps text
  unfolding denied_patterns
  denied_patterns-NoneOccurs [] text h = tt
  denied_patterns-NoneOccurs (p ∷ ps) text h = elim (Bool-cases (occurs (lower p) text)) [
    | inl k ↦ absurd (let q = rw k at h in cc)
    | inr k ↦ (k, denied_patterns-NoneOccurs ps text (rw k at h))
  ]

  status_reasons-AllReached :
      (actual : EpistemicStatus) (ss : List EpistemicStatus)
      → is_empty (status_reasons lower policy actual ss) ≡ true
      → AllReached actual ss
  status_reasons-AllReached actual [] h = tt
  status_reasons-AllReached actual (s ∷ ss) h =
      elim (Bool-cases (ltb (rank actual) (rank (greatest s ss)))) [
        | inl k ↦ absurd (let q = rw k at h in cc)
        | inr k ↦ greatest-AllReached actual s ss (ground arith)
      ]

  claim_reasons-Warranted :
      (modes : List TaskMode) (claims : List Claim) (claimed : List Reason)
      → claim_reasons lower policy modes claims ≡ ok claimed
      → is_empty claimed ≡ true
      → Warranted lower policy modes claims
  unfolding claim_reasons
  claim_reasons-Warranted modes [] claimed e h =
      absurd (let p : no_claim_record ∷ [] ≡ claimed = cc in let q = ap is_empty p ∙ h in cc)
  claim_reasons-Warranted modes (claim ∷ rest) claimed e h =
      let (required, p, q) = >>=-eq-ok (required_statuses lower policy modes) _ e in
      let same : status_reasons lower policy (strongest_evidence_status claim) required ≡ claimed =
        cc in
      (required, p, status_reasons-AllReached _ required (ap is_empty same ∙ h))

  formal_clean :
      (b : Bool) (ps : List String) (text : String)
      → is_empty (if b then denied_patterns lower policy ps text else []) ≡ true
      → b ≡ true
      → NoneOccurs lower ps text
  formal_clean true ps text h e = denied_patterns-NoneOccurs ps text h
  formal_clean false ps text h e = cc

  few : (a b : ℕ) (r : Reason) → is_empty (reason_if (ltb a b) r) ≡ true → b ≤ a
  few a b r h = elim (Bool-cases (ltb a b)) [
    | inl k ↦ absurd (let q = rw k at h in cc)
    | inr k ↦ ground arith
  ]

  -- A release is allowed only if no more obligations are unresolved than the policy permits, the
  -- output of a formal task contains no denied pattern, and there is a claim whose evidence reaches
  -- the status that the policy requires of each of the task's modes.
  pub evaluate_release-Permitted :
      (task : TaskSpec) (r : ArtifactRecord) {d : PolicyDecision}
      → evaluate_release lower policy task r ≡ ok d
      → d.allowed ≡ true
      → Permitted lower policy task r
  unfolding evaluate_release
  evaluate_release-Permitted task r {d} e h =
      let (claimed, p, q) = >>=-eq-ok (claim_reasons lower policy task.modes r.claims) _ e in
      let reasons = release_reasons lower policy task r claimed in
      let same : is_empty reasons ≡ d.allowed = cc in
      let (first, warranted) = empty-append _ claimed (same ∙ h) in
      let (unresolved, formal) = empty-append _ _ first in
      record {
        resolved = few _ _ _ unresolved;
        clean = formal_clean (any is_formal task.modes) _ _ formal;
        warranted = claim_reasons-Warranted task.modes r.claims claimed p warranted;
      }
