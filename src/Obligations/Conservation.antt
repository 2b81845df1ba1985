-- ===== src/Obligations/Conservation.antt =====
-- `evidence_for` and `verify_conservation`: the audit of a graph.
pub mod Accountable
use nexus_u.Prelude.{
  String, Bool, true, false, ◌&&◌, ◌||◌, not, Option, none, some, List, [], ◌∷◌, ◌++◌, map, all, ok,
  err, ◌>>=◌, contains, str_eq, if◌then◌else◌,
}
use nexus_u.Obligations.Graph.{
  ObligationStatus, discharged, refuted, deferred, escalated, transferred, Relation, discharges,
  verifies, supports, contradicts, refines, transfers, decomposes, Meta, text, texts, nothing,
  Metadata, ObligationNode, ObligationEdge, GraphEvent, ObligationGraph, is_evidence, node_ids,
  find_node, get_meta,
}
use nexus_u.Obligations.Cycles.{SearchResult, cycles}

-- The messages of the audit.
pub data ConservationError : Type 0 where
  dangling_edge lacks_evidence lacks_defer_reason lacks_escalation_reason :
      String → ConservationError
  lacks_transport_edge unknown_in_event : String → ConservationError
  graph_cycle : List String → ConservationError
  disappeared : ConservationError

abbrev pub carries_evidence : Relation → Bool
carries_evidence discharges = true
carries_evidence verifies = true
carries_evidence supports = true
carries_evidence contradicts = true
carries_evidence _ = false

abbrev pub carries_transport : Relation → Bool
carries_transport refines = true
carries_transport transfers = true
carries_transport decomposes = true
carries_transport _ = false

-- The node itself, if there is one and it is evidence.
abbrev pub as_evidence : Option ObligationNode → List ObligationNode
as_evidence none = []
as_evidence (some n) = if is_evidence n.kind then n ∷ [] else []

unfoldable pub evidence_along :
    List ObligationNode → String → List ObligationEdge → List ObligationNode
unfolding find_node
evidence_along ns x [] = []
evidence_along ns x (e ∷ es) =
    let rest = evidence_along ns x es in
    if str_eq e.target x && carries_evidence e.relation
    then as_evidence (find_node e.source ns) ++ rest
    else rest

unfoldable pub evidence_for : ObligationGraph → String → List ObligationNode
unfolding evidence_along
evidence_for g x = evidence_along g.nodes x g.edges

-- `related`: whether an edge carries the obligation over to another.
unfoldable pub has_transport : String → List ObligationEdge → Bool
has_transport x [] = false
has_transport x (e ∷ es) =
    let rest = has_transport x es in (str_eq e.target x && carries_transport e.relation) || rest

-- Whether `metadata.get(key)` counts as true.
abbrev pub truthy : Option Meta → Bool
truthy none = false
truthy (some (text s)) = not (str_eq s "")
truthy (some (texts [])) = false
truthy (some (texts (x ∷ xs))) = true
truthy (some nothing) = false

abbrev pub no_nodes : List ObligationNode → Bool
no_nodes [] = true
no_nodes (n ∷ ns) = false

-- An error if the test holds.
abbrev pub error_if : Bool → ConservationError → List ConservationError
error_if b e = if b then e ∷ [] else []

-- The tests on the status of a node that is no evidence.
unfoldable pub status_errors :
    ObligationGraph → ObligationNode → ObligationStatus → List ConservationError
unfolding evidence_for has_transport get_meta
status_errors g n discharged =
    error_if (no_nodes (evidence_for g n.node_id)) (lacks_evidence n.node_id)
status_errors g n refuted =
    error_if (no_nodes (evidence_for g n.node_id)) (lacks_evidence n.node_id)
status_errors g n deferred =
    error_if (not (truthy (get_meta "defer_reason" n.metadata))) (lacks_defer_reason n.node_id)
status_errors g n escalated =
    error_if (not (truthy (get_meta "escalation_reason" n.metadata)))
      (lacks_escalation_reason n.node_id)
status_errors g n transferred =
    error_if (not (has_transport n.node_id g.edges)) (lacks_transport_edge n.node_id)
status_errors g n _ = []

unfoldable pub node_errors : ObligationGraph → List ObligationNode → List ConservationError
unfolding status_errors
node_errors g [] = []
node_errors g (n ∷ ns) =
    (if is_evidence n.kind then [] else status_errors g n n.status) ++ node_errors g ns

unfoldable pub edge_errors : List String → List ObligationEdge → List ConservationError
edge_errors known [] = []
edge_errors known (e ∷ es) =
    error_if (not (contains e.source known && contains e.target known)) (dangling_edge e.edge_id)
    ++ edge_errors known es

-- `current`, and whether all of it is known.
abbrev pub event_known : List String → GraphEvent → Bool
event_known known event =
    all (λ x. contains x known) (event.active_before ++ event.active_after ++ event.affected)

unfoldable pub event_errors : List String → List GraphEvent → List ConservationError
event_errors known [] = []
event_errors known (event ∷ events) =
    error_if (not (event_known known event)) (unknown_in_event event.operation)
    ++ event_errors known events

-- The errors; the graph is valid if there are none.
unfoldable pub verify_conservation : ObligationGraph → SearchResult (List ConservationError)
unfolding cycles node_errors edge_errors event_errors
verify_conservation g =
    let known = node_ids g.nodes in
    do
      found ← cycles g
      ok (
          edge_errors known g.edges
          ++ node_errors g g.nodes
          ++ map graph_cycle found
          ++ event_errors known g.events
          ++ error_if (not (all (event_known known) g.events)) disappeared)
