-- ===== src/Claims.antt =====
-- src/nexus_u/core/claims.py, and the status, evidence and claim of src/nexus_u/core/models.py.
pub mod Tests
pub mod Capped
use mathlib.Core.Bool.{decide}
use nexus_u.Prelude.{
  ℕ, String, Bool, true, false, List, [], ◌∷◌, ◌++◌, ltb, leb, ◌&&◌, str_eq, if◌then◌else◌,
}

pub data EpistemicStatus : Type 0 where
  unknown speculative_hypothesis heuristic_strategy formalization_target : EpistemicStatus
  empirical_support computational_evidence execution_verified conditional_theorem : EpistemicStatus
  mathematically_derived kernel_verified independently_reproduced refuted : EpistemicStatus

unfoldable pub rank : EpistemicStatus → ℕ
rank unknown = 0
rank speculative_hypothesis = 1
rank heuristic_strategy = 2
rank formalization_target = 3
rank empirical_support = 4
rank computational_evidence = 5
rank execution_verified = 6
rank conditional_theorem = 7
rank mathematically_derived = 8
rank kernel_verified = 9
rank independently_reproduced = 10
rank refuted = 11

unfoldable pub EpistemicStatus-discrete : Discrete EpistemicStatus
EpistemicStatus-discrete = hlevel

-- What the claims read of a piece of evidence.
pub record Evidence : Type 0 where
  pub kind : String
  pub summary : String

-- `EVIDENCE_CAP.get(kind, UNKNOWN)`
unfoldable pub evidence_cap : String → EpistemicStatus
evidence_cap kind =
    if str_eq kind "none"
    then unknown
    else if str_eq kind "heuristic"
    then heuristic_strategy
    else if str_eq kind "formal_target"
    then formalization_target
    else if str_eq kind "empirical"
    then empirical_support
    else if str_eq kind "computation"
    then computational_evidence
    else if str_eq kind "execution"
    then execution_verified
    else if str_eq kind "conditional_proof"
    then conditional_theorem
    else if str_eq kind "derivation"
    then mathematically_derived
    else if str_eq kind "kernel"
    then kernel_verified
    else if str_eq kind "reproduction"
    then independently_reproduced
    else if str_eq kind "counterexample"
    then refuted
    else unknown

-- The messages that `assign_status` appends.
pub data MissingObligation : Type 0 where
  no_evidence : MissingObligation
  requested_above : EpistemicStatus → EpistemicStatus → MissingObligation

pub record Claim : Type 0 where
  pub requested_status : EpistemicStatus
  pub assigned_status : EpistemicStatus
  pub evidence : List Evidence
  pub missing_obligations : List MissingObligation

-- `max(caps, key=RANK)`: the first of the highest rank.
unfoldable pub better : EpistemicStatus → EpistemicStatus → EpistemicStatus
better best s = if ltb (rank best) (rank s) then s else best

unfoldable pub highest : EpistemicStatus → List Evidence → EpistemicStatus
highest best [] = best
highest best (e ∷ es) = highest (better best (evidence_cap e.kind)) es

unfoldable pub strongest : List Evidence → EpistemicStatus
strongest [] = unknown
strongest (e ∷ es) = highest (evidence_cap e.kind) es

unfoldable pub strongest_evidence_status : Claim → EpistemicStatus
strongest_evidence_status claim = strongest claim.evidence

-- `==` of statuses.
unfoldable pub same_status : EpistemicStatus → EpistemicStatus → Bool
same_status s t = decide (EpistemicStatus-discrete s t)

unfoldable pub assign_without_evidence : Claim → Claim
assign_without_evidence claim =
    if same_status claim.requested_status unknown
    then record claim { assigned_status = unknown }
    else record claim {
      assigned_status = unknown;
      missing_obligations = claim.missing_obligations ++ no_evidence ∷ [];
    }

unfoldable pub assign_with_cap : EpistemicStatus → Claim → Claim
assign_with_cap cap claim =
    let requested = claim.requested_status in
    if same_status requested refuted && same_status cap refuted
    then record claim { assigned_status = refuted }
    else if leb (rank requested) (rank cap)
    then record claim { assigned_status = requested }
    else record claim {
      assigned_status = cap;
      missing_obligations = claim.missing_obligations ++ requested_above requested cap ∷ [];
    }

unfoldable pub assign : List Evidence → Claim → Claim
assign [] claim = assign_without_evidence claim
assign (e ∷ es) claim = assign_with_cap (strongest_evidence_status claim) claim

-- The claim after the call; what the source returns is its assigned status.
unfoldable pub assign_status : Claim → Claim
assign_status claim = assign claim.evidence claim
