-- ===== src/Policy.antt =====
-- src/nexus_u/core/policy.py: the decisions of the policy engine before a run and before a release.
-- `load_policy` reads a file of JSON; a policy is the record of the entries that the engine reads.
pub mod Decision
pub mod Release
use Prim.Native.Char.{code}
use mathlib.Core.Bool.{decide}
use nexus_u.Prelude.{
  ℕ, String, Bool, true, false, not, ◌&&◌, ◌||◌, ◌==◌, Option, none, some, List, [], ◌∷◌, ◌++◌, ok,
  err, ◌>>=◌, length, contains, any, ltb, str_eq, if◌then◌else◌,
}
use nexus_u.Prelude
use nexus_u.Planner.{TaskMode, formal_proof, TaskMode-discrete}
use nexus_u.Claims.{
  EpistemicStatus, unknown, speculative_hypothesis, heuristic_strategy, formalization_target,
  empirical_support, computational_evidence, execution_verified, conditional_theorem,
  mathematically_derived, kernel_verified, independently_reproduced, refuted, rank, better, Claim,
  strongest_evidence_status,
}
use nexus_u.Task.{TaskSpec}
use nexus_u.Record.{ArtifactRecord}
use nexus_u.Policy.Decision.{
  preflight, release, Reason, not_allowed, unavailable, missing_approvals, too_many_unresolved,
  denied_pattern, no_claim_record, below_minimum, Warning, no_assumptions, no_audit_root,
  PolicyDecision,
}

-- `minimum_status_by_mode` gives the text of a mode's entry.
pub record Policy : Type 0 where
  pub policy_id : String
  pub allowed_adapters : List String
  pub deny_unknown_adapters : Bool
  pub max_unresolved : ℕ
  pub minimum_status_by_mode : TaskMode → Option String
  pub require_approval : Bool
  pub approval_roles : List String
  pub input_flag : String
  pub deny_output_patterns : List String
  pub require_audit_chain : Bool

-- EpistemicStatus(raw) raises ValueError.
pub data PolicyError : Type 0 where
  invalid_status : String → PolicyError

abbrev pub PolicyResult {ℓ} : Type ℓ → Type ℓ
PolicyResult A = Prelude.Result PolicyError A

unfoldable pub parse_status : String → PolicyResult EpistemicStatus
parse_status s =
    if str_eq s "UNKNOWN"
    then ok unknown
    else if str_eq s "SPECULATIVE_HYPOTHESIS"
    then ok speculative_hypothesis
    else if str_eq s "HEURISTIC_STRATEGY"
    then ok heuristic_strategy
    else if str_eq s "FORMALIZATION_TARGET"
    then ok formalization_target
    else if str_eq s "EMPIRICAL_SUPPORT"
    then ok empirical_support
    else if str_eq s "COMPUTATIONAL_EVIDENCE"
    then ok computational_evidence
    else if str_eq s "EXECUTION_VERIFIED"
    then ok execution_verified
    else if str_eq s "CONDITIONAL_THEOREM"
    then ok conditional_theorem
    else if str_eq s "MATHEMATICALLY_DERIVED"
    then ok mathematically_derived
    else if str_eq s "KERNEL_VERIFIED"
    then ok kernel_verified
    else if str_eq s "INDEPENDENTLY_REPRODUCED"
    then ok independently_reproduced
    else if str_eq s "REFUTED"
    then ok refuted
    else err (invalid_status s)

-- The text of a status.
unfoldable pub status_name : EpistemicStatus → String
status_name unknown = "UNKNOWN"
status_name speculative_hypothesis = "SPECULATIVE_HYPOTHESIS"
status_name heuristic_strategy = "HEURISTIC_STRATEGY"
status_name formalization_target = "FORMALIZATION_TARGET"
status_name empirical_support = "EMPIRICAL_SUPPORT"
status_name computational_evidence = "COMPUTATIONAL_EVIDENCE"
status_name execution_verified = "EXECUTION_VERIFIED"
status_name conditional_theorem = "CONDITIONAL_THEOREM"
status_name mathematically_derived = "MATHEMATICALLY_DERIVED"
status_name kernel_verified = "KERNEL_VERIFIED"
status_name independently_reproduced = "INDEPENDENTLY_REPRODUCED"
status_name refuted = "REFUTED"

abbrev pub starts_with : String → String → Bool
starts_with String.[] text = true
starts_with (String.◌∷◌ c p) String.[] = false
starts_with (String.◌∷◌ c p) (String.◌∷◌ d text) =
    let rest = starts_with p text in code c == code d && rest

-- `pattern in text`
unfoldable pub occurs : String → String → Bool
occurs p String.[] = starts_with p String.[]
occurs p (String.◌∷◌ d text) = starts_with p (String.◌∷◌ d text) || occurs p text

abbrev pub is_empty {ℓ} : {A : Type ℓ} → List A → Bool
is_empty [] = true
is_empty (x ∷ xs) = false

-- The roles of the policy that have not approved.
unfoldable pub missing_roles : List String → List String → List String
missing_roles [] supplied = []
missing_roles (role ∷ roles) supplied =
    let rest = missing_roles roles supplied in if contains role supplied then rest else role ∷ rest

abbrev pub reason_if : Bool → Reason → List Reason
reason_if b r = if b then r ∷ [] else []

abbrev pub warning_if : Bool → Warning → List Warning
warning_if b w = if b then w ∷ [] else []

-- `max(required_statuses, key=RANK)`
unfoldable pub greatest : EpistemicStatus → List EpistemicStatus → EpistemicStatus
unfolding better
greatest best [] = best
greatest best (s ∷ ss) = greatest (better best s) ss

-- The empty text counts as no entry.
abbrev pub entry_status : Option String → PolicyResult (List EpistemicStatus)
entry_status none = ok []
entry_status (some raw) = if str_eq raw "" then ok [] else (do s ← parse_status raw; ok (s ∷ []))

abbrev pub is_formal : TaskMode → Bool
is_formal mode = decide (TaskMode-discrete mode formal_proof)

-- `str.lower` is a parameter.
module _ (lower : String → String) (policy : Policy) where
  abbrev pub approvals_missing : TaskSpec → List String
  approvals_missing task =
      if task.flag policy.input_flag && policy.require_approval
      then missing_roles policy.approval_roles task.approved_roles
      else []

  unfoldable pub evaluate_preflight : TaskSpec → List String → PolicyDecision
  unfolding missing_roles
  evaluate_preflight task available =
      let approvals = approvals_missing task in
      let reasons =
        reason_if
          (policy.deny_unknown_adapters && not (contains task.adapter policy.allowed_adapters))
          (not_allowed task.adapter)
        ++ reason_if (not (contains task.adapter available)) (unavailable task.adapter)
        ++ reason_if (not (is_empty approvals)) missing_approvals in
      record {
        allowed = is_empty reasons;
        phase = preflight;
        policy_id = policy.policy_id;
        reasons = reasons;
        warnings = warning_if (is_empty task.assumptions) no_assumptions;
        required_approvals = approvals;
      }

  unfoldable pub denied_patterns : List String → String → List Reason
  unfolding occurs
  denied_patterns [] text = []
  denied_patterns (p ∷ ps) text =
      let rest = denied_patterns ps text in
      if occurs (lower p) text then denied_pattern p ∷ rest else rest

  unfoldable pub required_statuses : List TaskMode → PolicyResult (List EpistemicStatus)
  unfolding parse_status
  required_statuses [] = ok []
  required_statuses (mode ∷ modes) = do
    s ← entry_status (policy.minimum_status_by_mode mode)
    rest ← required_statuses modes
    ok (s ++ rest)

  -- The claim's evidence against the greatest of the required statuses.
  abbrev pub status_reasons : EpistemicStatus → List EpistemicStatus → List Reason
  status_reasons actual [] = []
  status_reasons actual (s ∷ ss) =
      let required = greatest s ss in
      reason_if (ltb (rank actual) (rank required)) (below_minimum actual required)

  unfoldable pub claim_reasons : List TaskMode → List Claim → PolicyResult (List Reason)
  unfolding required_statuses greatest strongest_evidence_status
  claim_reasons modes [] = ok (no_claim_record ∷ [])
  claim_reasons modes (claim ∷ _) = do
    required ← required_statuses modes
    ok (status_reasons (strongest_evidence_status claim) required)

  abbrev pub no_root : Option String → Bool
  no_root none = true
  no_root (some r) = str_eq r ""

  abbrev pub release_reasons : TaskSpec → ArtifactRecord → List Reason → List Reason
  release_reasons task r claimed =
      let count = length r.unresolved_obligations in
      reason_if (ltb policy.max_unresolved count) (too_many_unresolved count policy.max_unresolved)
      ++ (if any is_formal task.modes
          then denied_patterns policy.deny_output_patterns (lower r.output.dumped)
          else [])
      ++ claimed

  unfoldable pub evaluate_release : TaskSpec → ArtifactRecord → PolicyResult PolicyDecision
  unfolding claim_reasons denied_patterns
  evaluate_release task r = do
    claimed ← claim_reasons task.modes r.claims
    let reasons = release_reasons task r claimed
    ok (record {
      allowed = is_empty reasons;
      phase = release;
      policy_id = policy.policy_id;
      reasons = reasons;
      warnings = warning_if (policy.require_audit_chain && no_root r.audit_root) no_audit_root;
      required_approvals = [];
    })
