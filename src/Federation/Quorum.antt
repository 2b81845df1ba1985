-- ===== src/Federation/Quorum.antt =====
-- `evaluate`: whether the evidence for an obligation meets a quorum policy.
pub mod Approval
use mathlib.Core.Bool.{decide}
use nexus_u.Prelude.{
  ℕ, ◌+◌, String, Bool, true, false, not, ◌&&◌, ◌||◌, Option, none, some, List, [], ◌∷◌, ◌++◌,
  length, contains, any, ltb, leb, str_eq, if◌then◌else◌,
}
use nexus_u.Federation.{
  ActorRole, ActorRole-discrete, EvidenceVerdict, supports, refutes, inconclusive, FederationActor,
  EvidenceSubmission, FederationLedger, SubmissionError, actor_of, value_at, no_errors,
  verify_submission,
}

pub data FederationDecisionStatus : Type 0 where
  approved blocked conflict insufficient_quorum missing_dependency : FederationDecisionStatus

pub record QuorumPolicy : Type 0 where
  pub policy_id : String
  pub minimum_organizations : ℕ
  pub minimum_weight : ℕ
  pub minimum_independent_evidence : ℕ
  pub required_roles : List ActorRole
  pub veto_roles : List ActorRole
  pub allow_inconclusive : Bool
  pub require_no_conflicts : Bool
  pub required_dependencies : List String

-- The reasons, by their messages.
pub data FederationReason : Type 0 where
  invalid_submission : String → List SubmissionError → FederationReason
  dependencies_missing conflicting_evidence vetoed unresolved_refutation : FederationReason
  organization_quorum evidence_quorum weight_quorum : ℕ → ℕ → FederationReason
  roles_missing : List ActorRole → FederationReason
  inconclusive_not_permitted quorum_satisfied : FederationReason

pub record FederationDecision : Type 0 where
  pub obligation_id : String
  pub policy_id : String
  pub status : FederationDecisionStatus
  pub reasons : List FederationReason
  pub supporting_submissions : List String
  pub refuting_submissions : List String
  pub inconclusive_submissions : List String
  pub total_weight : ℕ
  pub missing_roles : List ActorRole
  pub missing_dependencies : List String

-- `sorted` by the time of creation, which keeps the order of equal times.
unfoldable pub insert_by_time :
    EvidenceSubmission → List EvidenceSubmission → List EvidenceSubmission
insert_by_time e [] = e ∷ []
insert_by_time e (d ∷ ds) =
    let rest = insert_by_time e ds in
    if leb e.created_at d.created_at then e ∷ (d ∷ ds) else d ∷ rest

unfoldable pub sorted_by_time : List EvidenceSubmission → List EvidenceSubmission
unfolding insert_by_time
sorted_by_time [] = []
sorted_by_time (e ∷ es) = insert_by_time e (sorted_by_time es)

abbrev pub keep : (EvidenceSubmission → Bool) → List EvidenceSubmission → List EvidenceSubmission
keep p [] = []
keep p (e ∷ es) = let rest = keep p es in if p e then e ∷ rest else rest

unfoldable pub evidence_for : String → FederationLedger → List EvidenceSubmission
unfolding sorted_by_time
evidence_for x l = sorted_by_time (keep (λ e. str_eq e.obligation_id x) l.submissions)

abbrev pub is_supports : EvidenceVerdict → Bool
is_supports supports = true
is_supports _ = false

abbrev pub is_refutes : EvidenceVerdict → Bool
is_refutes refutes = true
is_refutes _ = false

abbrev pub is_inconclusive : EvidenceVerdict → Bool
is_inconclusive inconclusive = true
is_inconclusive _ = false

abbrev pub has_role : ActorRole → List ActorRole → Bool
has_role r roles = any (λ s. decide (ActorRole-discrete s r)) roles

-- A verified submission has an actor, so that its lookup does not fail.
abbrev pub roles_of : Option FederationActor → List ActorRole
roles_of none = []
roles_of (some a) = a.roles

abbrev pub weight_of : Option FederationActor → ℕ
weight_of none = 0
weight_of (some a) = a.trust_weight

unfoldable pub total_weight : FederationLedger → List EvidenceSubmission → ℕ
unfolding actor_of
total_weight l [] = 0
total_weight l (e ∷ es) = weight_of (actor_of e.actor l.actors) + total_weight l es

-- The number of different texts.
unfoldable pub distinct : List String → List String
distinct [] = []
distinct (x ∷ xs) = let rest = distinct xs in if contains x rest then rest else x ∷ rest

abbrev pub texts_of : (EvidenceSubmission → String) → List EvidenceSubmission → List String
texts_of f [] = []
texts_of f (e ∷ es) = f e ∷ texts_of f es

unfoldable pub roles_present : FederationLedger → List EvidenceSubmission → List ActorRole
unfolding actor_of
roles_present l [] = []
roles_present l (e ∷ es) = roles_of (actor_of e.actor l.actors) ++ roles_present l es

unfoldable pub roles_absent : List ActorRole → List ActorRole → List ActorRole
roles_absent [] present = []
roles_absent (r ∷ rs) present =
    let rest = roles_absent rs present in if has_role r present then rest else r ∷ rest

-- `self.dependencies.get(x, False)`
abbrev pub is_satisfied : Option Bool → Bool
is_satisfied none = false
is_satisfied (some b) = b

unfoldable pub unsatisfied : List String → FederationLedger → List String
unfolding value_at
unsatisfied [] l = []
unsatisfied (x ∷ xs) l =
    let rest = unsatisfied xs l in
    if is_satisfied (value_at x l.dependencies) then rest else x ∷ rest

unfoldable pub reason_if : Bool → FederationReason → List FederationReason
reason_if b r = if b then r ∷ [] else []

-- The decision of the first test that holds, or the last one.
unfoldable pub first_of :
    Bool
    → Bool
    → Bool
    → Bool
    → FederationDecision
    → FederationDecision
    → FederationDecision
    → FederationDecision
    → FederationDecision
    → FederationDecision
first_of a b c d d₁ d₂ d₃ d₄ d₅ =
    if a then d₁ else if b then d₂ else if c then d₃ else if d then d₄ else d₅

module _ (hmac_sign : EvidenceSubmission → String → String) (l : FederationLedger) where
  unfoldable pub valid_evidence : List EvidenceSubmission → List EvidenceSubmission
  unfolding verify_submission
  valid_evidence es = keep (λ e. no_errors (verify_submission hmac_sign l e)) es

  unfoldable pub invalid_reasons : List EvidenceSubmission → List FederationReason
  unfolding verify_submission
  invalid_reasons [] = []
  invalid_reasons (e ∷ es) =
      let errors = verify_submission hmac_sign l e in
      let rest = invalid_reasons es in
      if no_errors errors then rest else invalid_submission e.submission_id errors ∷ rest

  -- The actor of the submission has one of the veto roles.
  abbrev pub may_veto : QuorumPolicy → EvidenceSubmission → Bool
  may_veto policy e = any (λ r. has_role r policy.veto_roles) (roles_of (actor_of e.actor l.actors))

  -- `_decision`
  unfoldable pub decision :
      String
      → QuorumPolicy
      → FederationDecisionStatus
      → List FederationReason
      → List EvidenceSubmission
      → List ActorRole
      → List String
      → FederationDecision
  unfolding total_weight
  decision x policy status reasons valid roles missing =
      let supporting = keep (λ e. is_supports e.verdict) valid in
      record {
        obligation_id = x;
        policy_id = policy.policy_id;
        status = status;
        reasons = reasons;
        supporting_submissions = texts_of (λ e. e.submission_id) supporting;
        refuting_submissions =
            texts_of (λ e. e.submission_id) (keep (λ e. is_refutes e.verdict) valid);
        inconclusive_submissions =
            texts_of (λ e. e.submission_id) (keep (λ e. is_inconclusive e.verdict) valid);
        total_weight = total_weight l supporting;
        missing_roles = roles;
        missing_dependencies = missing;
      }

  -- The reasons of the last part of `evaluate`.
  unfoldable pub quorum_reasons :
      QuorumPolicy
      → List EvidenceSubmission
      → List EvidenceSubmission
      → List EvidenceSubmission
      → List FederationReason
  unfolding distinct total_weight roles_present roles_absent
  quorum_reasons policy supporting refuting undecided =
      let organizations = length (distinct (texts_of (λ e. e.organization) supporting)) in
      let groups = length (distinct (texts_of (λ e. e.provenance_group) supporting)) in
      let weight = total_weight l supporting in
      let absent = roles_absent policy.required_roles (roles_present l supporting) in
      reason_if (not (no_errors refuting)) unresolved_refutation
      ++ reason_if (ltb organizations policy.minimum_organizations)
          (organization_quorum organizations policy.minimum_organizations)
      ++ reason_if (ltb groups policy.minimum_independent_evidence)
          (evidence_quorum groups policy.minimum_independent_evidence)
      ++ reason_if (ltb weight policy.minimum_weight) (weight_quorum weight policy.minimum_weight)
      ++ reason_if (not (no_errors absent)) (roles_missing absent)
      ++ reason_if (not (no_errors undecided) && not policy.allow_inconclusive)
          inconclusive_not_permitted

  -- From the evidence that verifies and the reasons of what does not.
  unfoldable pub decide_on :
      String → QuorumPolicy → List EvidenceSubmission → List FederationReason → FederationDecision
  unfolding unsatisfied decision quorum_reasons
  decide_on x policy valid invalid =
      let supporting = keep (λ e. is_supports e.verdict) valid in
      let refuting = keep (λ e. is_refutes e.verdict) valid in
      let undecided = keep (λ e. is_inconclusive e.verdict) valid in
      let missing = unsatisfied policy.required_dependencies l in
      let absent = roles_absent policy.required_roles (roles_present l supporting) in
      let reasons = invalid ++ quorum_reasons policy supporting refuting undecided in
      first_of (not (no_errors missing))
        (not (no_errors supporting) && not (no_errors refuting) && policy.require_no_conflicts)
        (any (may_veto policy) refuting) (not (no_errors reasons))
        (decision x policy missing_dependency (invalid ++ dependencies_missing ∷ []) valid []
          missing)
        (decision x policy conflict (invalid ++ conflicting_evidence ∷ []) valid [] [])
        (decision x policy blocked (invalid ++ vetoed ∷ []) valid [] [])
        (decision x policy insufficient_quorum reasons valid absent [])
        (decision x policy approved (quorum_satisfied ∷ []) valid [] [])

  unfoldable pub evaluate : String → QuorumPolicy → FederationDecision
  unfolding evidence_for valid_evidence invalid_reasons decide_on
  evaluate x policy =
      let evidence = evidence_for x l in
      decide_on x policy (valid_evidence evidence) (invalid_reasons evidence)
