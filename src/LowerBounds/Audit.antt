-- ===== src/LowerBounds/Audit.antt =====
-- src/nexus_u/lower_bounds/engine.py, `audit_candidate`: the audit of a candidate for promotion. The
-- claims and the reductions, which it does not read, are not arguments here.
use nexus_u.Obligations.Text.{text_le}
use nexus_u.Prelude.{
  String, Bool, true, false, not, ◌&&◌, Option, none, some, List, [], ◌∷◌, ◌++◌, str_eq,
  if◌then◌else◌,
}
use nexus_u.LowerBounds.{
  ClaimStatus, proved, conditional_theorem, opened, heuristic, unknown, EvidenceKind,
  peer_reviewed_proof, published_proof, formal_proof, empirical_timing, finite_tests,
  information_counting, consensus, accept, accept_restricted, hold_conditional, reject_promotion,
  ObstructionKind, model_mismatch, online_offline_gap, restricted_to_universal_gap,
  information_counting_too_weak, reversibility_escape, reduction_premise_open, reduction_overhead,
  empirical_to_asymptotic_gap, circuit_to_turing_transfer_gap, missing_source, obstruction_name,
  MachineModel, ProblemDefinition, CandidateClaim, CandidateAudit, is_established, problem_of,
}

abbrev pub is_proved : ClaimStatus → Bool
is_proved proved = true
is_proved _ = false

abbrev pub is_open : ClaimStatus → Bool
is_open opened = true
is_open _ = false

abbrev pub is_empirical : EvidenceKind → Bool
is_empirical empirical_timing = true
is_empirical finite_tests = true
is_empirical _ = false

abbrev pub is_consensus : EvidenceKind → Bool
is_consensus consensus = true
is_consensus _ = false

abbrev pub is_counting : EvidenceKind → Bool
is_counting information_counting = true
is_counting _ = false

-- `PROOF_EVIDENCE`
abbrev pub is_proof : EvidenceKind → Bool
is_proof peer_reviewed_proof = true
is_proof published_proof = true
is_proof formal_proof = true
is_proof _ = false

unfoldable pub model_of : String → List MachineModel → Option MachineModel
model_of x [] = none
model_of x (m ∷ ms) = if str_eq m.model_id x then some m else model_of x ms

unfoldable pub note_if : Bool → ObstructionKind → List ObstructionKind
note_if b o = if b then o ∷ [] else []

-- `source and target and source.online and not target.online`
abbrev pub online_to_offline : Option MachineModel → Option MachineModel → Bool
online_to_offline (some source) (some target) = source.online && not target.online
online_to_offline _ _ = false

unfoldable pub crosses_models : CandidateClaim → Bool
crosses_models c =
    not (str_eq c.source_model_id "")
    && not (str_eq c.target_model_id "")
    && not (str_eq c.source_model_id c.target_model_id)

abbrev pub gap_between : List MachineModel → CandidateClaim → ObstructionKind
gap_between models c =
    if online_to_offline (model_of c.source_model_id models) (model_of c.target_model_id models)
    then online_offline_gap
    else model_mismatch

unfoldable pub obstructions_of :
    CandidateClaim → MachineModel → List MachineModel → List ObstructionKind
unfolding crosses_models model_of
obstructions_of c target_model models =
    note_if (is_empirical c.evidence_kind && is_established c.requested_status)
      empirical_to_asymptotic_gap
    ++ note_if (is_consensus c.evidence_kind && is_proved c.requested_status)
        empirical_to_asymptotic_gap
    ++ note_if (crosses_models c) (gap_between models c)
    ++ note_if (c.flag "restricted_scope" && c.flag "universalize") restricted_to_universal_gap
    ++ note_if (is_counting c.evidence_kind) information_counting_too_weak
    ++ note_if (is_counting c.evidence_kind && not (c.flag "reversibility_accounted"))
        reversibility_escape
    ++ note_if (c.flag "circuit_result" && str_eq target_model.access_pattern "sequential_tapes")
        circuit_to_turing_transfer_gap
    ++ note_if (c.flag "depends_on_open_premise") reduction_premise_open
    ++ note_if (c.flag "reduction_overhead_unchecked") reduction_overhead

-- `sorted(set(obstructions), key=...)`
unfoldable pub insert_name : ObstructionKind → List ObstructionKind → List ObstructionKind
unfolding obstruction_name text_le
insert_name o [] = o ∷ []
insert_name o (p ∷ ps) =
    let rest = insert_name o ps in
    if str_eq (obstruction_name o) (obstruction_name p)
    then p ∷ ps
    else if text_le (obstruction_name o) (obstruction_name p)
    then o ∷ (p ∷ ps)
    else p ∷ rest

unfoldable pub sorted_names : List ObstructionKind → List ObstructionKind
unfolding insert_name
sorted_names [] = []
sorted_names (o ∷ os) = insert_name o (sorted_names os)

-- An open premise and nothing else is held; anything else that obstructs rejects the promotion.
abbrev pub only_open_premise : List ObstructionKind → Bool
only_open_premise (reduction_premise_open ∷ []) = true
only_open_premise _ = false

abbrev pub obstructed : CandidateClaim → List ObstructionKind → CandidateAudit
obstructed c found =
    if only_open_premise found
    then record {
      candidate_id = c.candidate_id;
      decision = hold_conditional;
      allowed_status = conditional_theorem;
      obstructions = sorted_names found;
    }
    else record {
      candidate_id = c.candidate_id;
      decision = reject_promotion;
      allowed_status = heuristic;
      obstructions = sorted_names found;
    }

abbrev pub unobstructed : CandidateClaim → CandidateAudit
unobstructed c =
    if is_proof c.evidence_kind
    then record {
      candidate_id = c.candidate_id;
      decision = if c.flag "restricted_scope" then accept_restricted else accept;
      allowed_status = c.requested_status;
      obstructions = [];
    }
    else if is_open c.requested_status
    then record {
      candidate_id = c.candidate_id;
      decision = accept;
      allowed_status = opened;
      obstructions = [];
    }
    else record {
      candidate_id = c.candidate_id;
      decision = reject_promotion;
      allowed_status = heuristic;
      obstructions = [];
    }

abbrev pub decided : CandidateClaim → List ObstructionKind → CandidateAudit
decided c [] = unobstructed c
decided c (o ∷ os) = obstructed c (o ∷ os)

abbrev pub undefined : CandidateClaim → ObstructionKind → CandidateAudit
undefined c o = record {
  candidate_id = c.candidate_id;
  decision = reject_promotion;
  allowed_status = unknown;
  obstructions = o ∷ [];
}

abbrev pub audit_on : CandidateClaim → List MachineModel → Option MachineModel → CandidateAudit
audit_on c models none = undefined c model_mismatch
audit_on c models (some target) = decided c (obstructions_of c target models)

abbrev pub audit_for :
    CandidateClaim → List MachineModel → Option ProblemDefinition → CandidateAudit
audit_for c models none = undefined c missing_source
audit_for c models (some p) = audit_on c models (model_of p.machine_model_id models)

unfoldable pub audit_candidate :
    CandidateClaim → List MachineModel → List ProblemDefinition → CandidateAudit
unfolding obstructions_of sorted_names problem_of
audit_candidate c models problems = audit_for c models (problem_of c.target_problem_id problems)
