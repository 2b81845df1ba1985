-- ===== src/Obligations/Promotion.antt =====
-- `promotion_decision`: whether the obligations allow a promotion. The rest of the report repeats
-- the parts of the decision; the floating-point potential is left out.
pub mod Allowed
use mathlib.Core.Bool.{decide}
use nexus_u.Prelude.{
  String, Bool, true, false, ◌&&◌, ◌||◌, not, List, [], ◌∷◌, any, ok, err, ◌>>=◌, str_eq,
  if◌then◌else◌,
}
use nexus_u.Obligations.Graph.{
  ObligationKind, intent, requirement, claim, proof, safety, policy, evidence, ObligationStatus,
  discharged, acknowledged, refuted, Severity, high, critical, ObligationNode, ObligationGraph,
  is_evidence, is_unresolved,
}
use nexus_u.Obligations.Cycles.{SearchResult}
use nexus_u.Obligations.Conservation.{ConservationError, verify_conservation}

unfoldable pub ObligationKind-discrete : Discrete ObligationKind
ObligationKind-discrete = hlevel

abbrev pub is_severe : Severity → Bool
is_severe high = true
is_severe critical = true
is_severe _ = false

abbrev pub is_settled : ObligationStatus → Bool
is_settled discharged = true
is_settled acknowledged = true
is_settled refuted = true
is_settled _ = false

-- In `unresolved(blocking_only=True)`, and severe.
abbrev pub is_blocker : ObligationNode → Bool
is_blocker n =
    not (is_evidence n.kind) && is_unresolved n.status && n.blocking && is_severe n.severity

-- `find(kind=kind)`
unfoldable pub find_kind : ObligationKind → List ObligationNode → List ObligationNode
unfolding ObligationKind-discrete
find_kind kind [] = []
find_kind kind (n ∷ ns) =
    let rest = find_kind kind ns in
    if decide (ObligationKind-discrete n.kind kind) then n ∷ rest else rest

abbrev pub is_nil {ℓ} : {A : Type ℓ} → List A → Bool
is_nil [] = true
is_nil (x ∷ xs) = false

-- No node of the kind, or one that blocks and is not settled.
unfoldable pub kind_missing : List ObligationNode → ObligationKind → Bool
unfolding find_kind
kind_missing ns kind =
    let of_kind = find_kind kind ns in
    is_nil of_kind || any (λ n. n.blocking && not (is_settled n.status)) of_kind

unfoldable pub required_kinds : String → List ObligationKind
required_kinds target =
    if str_eq target "RELEASED"
    then intent ∷ requirement ∷ claim ∷ safety ∷ policy ∷ []
    else if str_eq target "KERNEL_VERIFIED"
    then claim ∷ proof ∷ []
    else []

abbrev pub decision : String → ObligationGraph → List ConservationError → Bool
decision target g errors =
    is_nil errors
    && not (any is_blocker g.nodes)
    && not (is_nil (find_kind evidence g.nodes))
    && not (any (kind_missing g.nodes) (required_kinds target))

-- The field `allowed` of the report.
unfoldable pub promotion_allowed : String → ObligationGraph → SearchResult Bool
unfolding verify_conservation find_kind kind_missing required_kinds
promotion_allowed target g = do errors ← verify_conservation g; ok (decision target g errors)
