-- ===== src/LowerBounds/Tests.antt =====
-- Two machines, a problem on each, a reduction between them, and candidates.
use nexus_u.Prelude.{String, Bool, true, false, none, List, [], ◌∷◌, ok, ◌≡◌, refl, str_eq}
use nexus_u.LowerBounds.{
  lower, ClaimStatus, proved, published_result, opened, EvidenceKind, formal_proof, finite_tests,
  peer_reviewed_proof, accept, reject_promotion, hold_conditional, MachineModel, ProblemDefinition,
  BoundClaim, ReductionRecord, CandidateClaim, problem_of,
}
use nexus_u.LowerBounds.Audit.{note_if, audit_candidate}
use nexus_u.LowerBounds.Derivation.{derive_reduction_claims}
use nexus_u.LowerBounds.Firewall.{is_accepted, Promoted, audit_candidate-Promoted}
use nexus_u.LowerBounds.Derived.{AllDerived, derive_reduction_claims-AllDerived}

abbrev machines : List MachineModel
machines =
    record { model_id = "tm"; access_pattern = "sequential_tapes"; online = false }
    ∷ record { model_id = "online"; access_pattern = "random"; online = true }
    ∷ []

abbrev known_problems : List ProblemDefinition
known_problems =
    record { problem_id = "network"; name = "Network coding"; machine_model_id = "online" }
    ∷ record { problem_id = "mul"; name = "Multiplication"; machine_model_id = "tm" }
    ∷ []

abbrev network_bound : ClaimStatus → BoundClaim
network_bound status = record {
  claim_id = "n";
  problem_id = "network";
  kind = lower;
  complexity = "n log n";
  status = status;
  evidence_kind = peer_reviewed_proof;
  source_ids = [];
  assumptions = [];
}

abbrev to_multiplication : ReductionRecord
to_multiplication = record {
  reduction_id = "r";
  source_problem_id = "network";
  target_problem_id = "mul";
  premise_bound = "n log n";
  consequence_bound = "n log n";
  status = proved;
  source_ids = [];
  assumptions = [];
}

abbrev candidate : ClaimStatus → EvidenceKind → (String → Bool) → CandidateClaim
candidate status evidence flag = record {
  candidate_id = "c";
  target_problem_id = "mul";
  requested_status = status;
  evidence_kind = evidence;
  source_model_id = "";
  target_model_id = "";
  flag = flag;
}

abbrev unflagged : String → Bool
unflagged x = false

abbrev formal : CandidateClaim
formal = candidate proved formal_proof unflagged

tests_do_not_prove :
    (audit_candidate (candidate proved finite_tests unflagged) machines known_problems).decision
    ≡ reject_promotion
unfolding audit_candidate note_if
tests_do_not_prove = refl

open_premise_holds :
    (audit_candidate
      (candidate proved formal_proof (str_eq "depends_on_open_premise"))
      machines
      known_problems).decision
    ≡ hold_conditional
unfolding audit_candidate note_if
open_premise_holds = refl

-- A proof about online machines is accepted for a problem on offline ones if it names no target.
online_for_offline :
    (audit_candidate
      (record formal { source_model_id = "online" })
      machines
      known_problems).decision
    ≡ accept
unfolding audit_candidate note_if
online_for_offline = refl

formal-accepted : (audit_candidate formal machines known_problems).decision ≡ accept
unfolding audit_candidate note_if
formal-accepted = refl

is_accepted-formal : is_accepted (audit_candidate formal machines known_problems).decision ≡ true
unfolding audit_candidate note_if
is_accepted-formal = refl

audit_candidate-Promoted_example :
    Promoted formal machines known_problems
      (audit_candidate formal machines known_problems).allowed_status
audit_candidate-Promoted_example =
    audit_candidate-Promoted formal machines known_problems is_accepted-formal

network-known : ¬ (problem_of "network" known_problems ≡ none)
unfolding problem_of
network-known h = cc

derive_reduction_claims-AllDerived_example :
    (cs : List BoundClaim) × (derive_reduction_claims
        (to_multiplication ∷ [])
        (network_bound opened ∷ network_bound published_result ∷ [])
        known_problems
      ≡ ok cs)
    × AllDerived
        (network_bound opened ∷ network_bound published_result ∷ [])
        (to_multiplication ∷ [])
        cs
derive_reduction_claims-AllDerived_example =
    derive_reduction_claims-AllDerived (network_bound opened ∷ network_bound published_result ∷ [])
      known_problems (to_multiplication ∷ []) (network-known, tt)
