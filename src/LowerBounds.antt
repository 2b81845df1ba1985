-- ===== src/LowerBounds.antt =====
-- src/nexus_u/lower_bounds/models.py: the registry of lower bounds. A dictionary is the list of its
-- values, whose identifiers differ.
use nexus_u.Prelude.{
  ℕ, String, Bool, true, false, not, ◌&&◌, ◌||◌, Option, none, some, List, [], ◌∷◌, ◌++◌, ok, err,
  ◌>>=◌, any, str_eq, if◌then◌else◌,
}
pub mod Audit
pub mod Derivation
mod Firewall
mod Derived
mod Tests

pub data BoundKind : Type 0 where
  upper lower : BoundKind

pub data ClaimStatus : Type 0 where
  proved published_result conditional_theorem opened empirical heuristic refuted : ClaimStatus
  unknown formalization_target : ClaimStatus

pub data EvidenceKind : Type 0 where
  peer_reviewed_proof published_proof formal_proof proved_reduction empirical_timing : EvidenceKind
  finite_tests information_counting consensus no_evidence : EvidenceKind

pub data AuditDecision : Type 0 where
  accept accept_restricted hold_conditional reject_promotion : AuditDecision

pub data ObstructionKind : Type 0 where
  model_mismatch online_offline_gap restricted_to_universal_gap : ObstructionKind
  information_counting_too_weak reversibility_escape reduction_premise_open : ObstructionKind
  reduction_overhead empirical_to_asymptotic_gap circuit_to_turing_transfer_gap : ObstructionKind
  unproved_transpose_bound missing_source no_obstruction : ObstructionKind

unfoldable pub obstruction_name : ObstructionKind → String
obstruction_name model_mismatch = "MODEL_MISMATCH"
obstruction_name online_offline_gap = "ONLINE_OFFLINE_GAP"
obstruction_name restricted_to_universal_gap = "RESTRICTED_TO_UNIVERSAL_GAP"
obstruction_name information_counting_too_weak = "INFORMATION_COUNTING_TOO_WEAK"
obstruction_name reversibility_escape = "REVERSIBILITY_ESCAPE"
obstruction_name reduction_premise_open = "REDUCTION_PREMISE_OPEN"
obstruction_name reduction_overhead = "REDUCTION_OVERHEAD"
obstruction_name empirical_to_asymptotic_gap = "EMPIRICAL_TO_ASYMPTOTIC_GAP"
obstruction_name circuit_to_turing_transfer_gap = "CIRCUIT_TO_TURING_TRANSFER_GAP"
obstruction_name unproved_transpose_bound = "UNPROVED_TRANSPOSE_BOUND"
obstruction_name missing_source = "MISSING_SOURCE"
obstruction_name no_obstruction = "NONE"

-- The fields that the engine reads.
pub record MachineModel : Type 0 where
  pub model_id : String
  pub access_pattern : String
  pub online : Bool

pub record ProblemDefinition : Type 0 where
  pub problem_id : String
  pub name : String
  pub machine_model_id : String

pub record BoundClaim : Type 0 where
  pub claim_id : String
  pub problem_id : String
  pub kind : BoundKind
  pub complexity : String
  pub status : ClaimStatus
  pub evidence_kind : EvidenceKind
  pub source_ids : List String
  pub assumptions : List String

pub record ReductionRecord : Type 0 where
  pub reduction_id : String
  pub source_problem_id : String
  pub target_problem_id : String
  pub premise_bound : String
  pub consequence_bound : String
  pub status : ClaimStatus
  pub source_ids : List String
  pub assumptions : List String

-- `flag name` is whether the candidate's metadata has a true entry of that name. A model that is
-- None is the empty text.
pub record CandidateClaim : Type 0 where
  pub candidate_id : String
  pub target_problem_id : String
  pub requested_status : ClaimStatus
  pub evidence_kind : EvidenceKind
  pub source_model_id : String
  pub target_model_id : String
  pub flag : String → Bool

-- The reasons only repeat the obstructions and the decision in words.
pub record CandidateAudit : Type 0 where
  pub candidate_id : String
  pub decision : AuditDecision
  pub allowed_status : ClaimStatus
  pub obstructions : List ObstructionKind

-- PROVED or PUBLISHED_RESULT
abbrev pub is_established : ClaimStatus → Bool
is_established proved = true
is_established published_result = true
is_established _ = false

unfoldable pub problem_of : String → List ProblemDefinition → Option ProblemDefinition
problem_of x [] = none
problem_of x (p ∷ ps) = if str_eq p.problem_id x then some p else problem_of x ps
