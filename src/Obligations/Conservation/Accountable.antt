-- ===== src/Obligations/Conservation/Accountable.antt =====
-- What a graph that passes the audit is like.
use nexus_u.Prelude.{
  String, Bool, true, false, ◌≡◌, ◌≢◌, refl, ◌&&◌, not, List, [], ◌∷◌, ◌++◌, map, all, ok, contains,
  if◌then◌else◌, >>=-eq-ok,
}
use nexus_u.Obligations.Graph.{
  ObligationStatus, discharged, refuted, ObligationNode, ObligationEdge, ObligationGraph,
  is_evidence, node_ids,
}
use nexus_u.Obligations.Cycles.{SearchResult, cycles}
use nexus_u.Obligations.Cycles.Acyclic.{Leads, cycles_complete}
use nexus_u.Obligations.Conservation.{
  ConservationError, graph_cycle, evidence_for, no_nodes, error_if, status_errors, node_errors,
  edge_errors, event_known, verify_conservation,
}

-- Both ends of every edge are known.
abbrev pub Attached : List String → List ObligationEdge → Type 0
Attached known [] = Unit
Attached known (e ∷ es) =
    ((contains e.source known && contains e.target known) ≡ true) × Attached known es

abbrev pub is_terminal : ObligationStatus → Bool
is_terminal discharged = true
is_terminal refuted = true
is_terminal _ = false

-- Every discharged or refuted node that is no evidence has evidence.
abbrev pub Supported : ObligationGraph → List ObligationNode → Type 0
Supported g [] = Unit
Supported g (n ∷ ns) =
    (is_evidence n.kind ≡ false → is_terminal n.status ≡ true → evidence_for g n.node_id ≢ [])
    × Supported g ns

pub record Accountable (g : ObligationGraph) : Type 0 where
  pub attached : Attached (node_ids g.nodes) g.edges
  pub supported : Supported g g.nodes
  pub acyclic : (x : String) → ¬ Leads (node_ids g.nodes) g.edges x x
  pub remembered : all (event_known (node_ids g.nodes)) g.events ≡ true

append-eq-nil {ℓ} : {A : Type ℓ} (xs ys : List A) → xs ++ ys ≡ [] → (xs ≡ []) × (ys ≡ [])
append-eq-nil [] ys e = (refl, e)
append-eq-nil (x ∷ xs) ys e = cc

ok-eq-nil :
    (xs : List ConservationError)
    → Path (SearchResult (List ConservationError)) (ok xs) (ok [])
    → xs ≡ []
ok-eq-nil xs e = cc

map-eq-nil : (xs : List (List String)) → map graph_cycle xs ≡ [] → xs ≡ []
map-eq-nil [] e = refl
map-eq-nil (x ∷ xs) e = cc

error_if-eq-nil : (b : Bool) (e : ConservationError) → error_if (not b) e ≡ [] → b ≡ true
error_if-eq-nil true e h = refl
error_if-eq-nil false e h = cc

edge_errors-Attached :
    (known : List String) (es : List ObligationEdge) → edge_errors known es ≡ [] → Attached known es
unfolding edge_errors
edge_errors-Attached known [] h = tt
edge_errors-Attached known (e ∷ es) h =
    let (p, q) = append-eq-nil _ _ h in (error_if-eq-nil _ _ p, edge_errors-Attached known es q)

no_evidence_error :
    (ns : List ObligationNode) (e : ConservationError) → error_if (no_nodes ns) e ≡ [] → ns ≢ []
no_evidence_error [] e h p = cc
no_evidence_error (n ∷ ns) e h p = cc

status_errors_terminal :
    (g : ObligationGraph) (n : ObligationNode) (s : ObligationStatus)
    → status_errors g n s ≡ []
    → is_terminal s ≡ true
    → evidence_for g n.node_id ≢ []
unfolding status_errors
status_errors_terminal g n discharged h t = no_evidence_error (evidence_for g n.node_id) _ h
status_errors_terminal g n refuted h t = no_evidence_error (evidence_for g n.node_id) _ h
status_errors_terminal g n _ h t = cc

unless_evidence :
    {A : Type 0} (b : Bool) (xs : List A) → (if b then [] else xs) ≡ [] → b ≡ false → xs ≡ []
unless_evidence true xs h p = cc
unless_evidence false xs h p = h

node_errors-Supported :
    (g : ObligationGraph) (ns : List ObligationNode) → node_errors g ns ≡ [] → Supported g ns
unfolding node_errors
node_errors-Supported g [] h = tt
node_errors-Supported g (n ∷ ns) h =
    let (p, q) = append-eq-nil _ _ h in
    (
      λ kind terminal.
          status_errors_terminal g n n.status (unless_evidence (is_evidence n.kind) _ p kind)
            terminal,
      node_errors-Supported g ns q,
    )

-- If the audit finds no error, every edge joins two nodes of the graph, every discharged or refuted
-- obligation has evidence, no path of edges that are not contradictions returns to its start, and
-- every node that an event names is in the graph.
pub verify_conservation-Accountable :
    (g : ObligationGraph) → verify_conservation g ≡ ok [] → Accountable g
unfolding verify_conservation
verify_conservation-Accountable g e =
    let (found, p, q) = >>=-eq-ok (cycles g) _ e in
    let (rest₁, last) = append-eq-nil _ _ (ok-eq-nil _ q) in
    let (rest₂, events) = append-eq-nil _ _ rest₁ in
    let (rest₃, loops) = append-eq-nil _ _ rest₂ in
    let (edges, nodes) = append-eq-nil _ _ rest₃ in
    record {
      attached = edge_errors-Attached _ g.edges edges;
      supported = node_errors-Supported g g.nodes nodes;
      acyclic = cycles_complete g (rw (map-eq-nil found loops) at p);
      remembered = error_if-eq-nil _ _ last;
    }
