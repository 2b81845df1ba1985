-- ===== src/Obligations/Operations.antt =====
-- The operations that change an obligation graph. An operation that raises leaves the graph as the
-- statements before the `raise` have made it. Times are left out.
pub mod Commands
pub mod FromTask
pub mod Evidence
pub mod Linked
pub mod Steps
pub mod Every
pub mod Wired
pub mod Gives
pub mod Builds
pub mod Conserved
pub mod Fresh
pub mod Started
use nexus_u.Prelude.{
  ℕ, zero, suc, String, Bool, true, false, ◌&&◌, not, Option, none, some, List, [], ◌∷◌, ◌++◌, ok,
  err, contains, str_eq, if◌then◌else◌,
}
use nexus_u.Obligations.Text.{strip}
use nexus_u.Obligations.Graph.{
  ObligationKind, ObligationStatus, opened, deferred, discharged, escalated, refuted, transferred,
  Severity, Relation, discharges, contradicts, Meta, text, texts, nothing, Metadata, ObligationNode,
  ObligationEdge, GraphEvent, ObligationGraph, is_evidence, is_contradicts, node_ids, find_node,
  update_node, put_edge, remove_edge, put_meta, active_ids,
}
use nexus_u.Obligations.Cycles.{cycles}
use nexus_u.Obligations.Exec.{
  GraphError, empty_statement, duplicate_node, unknown_node, not_evidence, missing_endpoint,
  evidence_as_obligation, no_evidence, introduces_cycle, search_fault, World, Outcome, Exec, raise,
  return, ◌>>=◌, read, write,
}

-- `_node`
unfoldable pub node_at : String → Exec ObligationNode
node_at x w = (w, elim (find_node x w.graph.nodes) [ none ↦ err (unknown_node x) | some n ↦ ok n ])

-- `before if before is not None else ...`
abbrev pub given : {A : Type 0} → Option A → A → A
given none b = b
given (some a) b = a

-- `_record`, with the active nodes before and after.
unfoldable pub record_event : String → List String → Option (List String) → Exec Unit
record_event operation affected before w =
    let g = w.graph in
    let now = active_ids g in
    write
      (record g {
        events =
            g.events
            ++ (record {
              operation = operation;
              affected = affected;
              active_before = given before now;
              active_after = now;
            })
              ∷ [];
      })
      w

abbrev pub put_all : Metadata → Metadata → Metadata
put_all [] m = m
put_all ((key, value) ∷ entries) m = put_all entries (put_meta key value m)

abbrev pub closed : ObligationStatus → Metadata → ObligationNode → ObligationNode
closed status entries n = record n { status = status; metadata = put_all entries n.metadata }

-- What `add_node` is given: `given_id` is none where the identifier is to be drawn.
pub record NewNode : Type 0 where
  pub new_statement : String
  pub new_kind : ObligationKind
  pub new_status : ObligationStatus
  pub new_severity : Severity
  pub new_blocking : Bool
  pub new_source : String
  pub new_metadata : Metadata
  pub given_id : Option String

module _ (uuid : ℕ → String) where
  abbrev pub draw : Exec String
  draw w = (record w { drawn = suc w.drawn }, ok (uuid w.drawn))

  -- `node_id or str(uuid.uuid4())`
  abbrev pub chosen_id : Option String → Exec String
  chosen_id none = draw
  chosen_id (some x) = if str_eq x "" then draw else return x

  abbrev pub created : NewNode → String → ObligationNode
  created new x = record {
    statement = strip new.new_statement;
    kind = new.new_kind;
    status = new.new_status;
    severity = new.new_severity;
    blocking = new.new_blocking;
    source = new.new_source;
    metadata = new.new_metadata;
    node_id = x;
  }

  -- From the test for a duplicate on.
  unfoldable pub insert_node : NewNode → String → List String → Exec String
  insert_node new x before w =
      let g = w.graph in
      if contains x (node_ids g.nodes)
      then (w, err (duplicate_node x))
      else (do
        _ ← write (record g { nodes = g.nodes ++ created new x ∷ [] })
        _ ←
            record_event (if is_evidence new.new_kind then "ADD_EVIDENCE" else "CREATE_OBLIGATION")
              (x ∷ []) (some before)
        return x)
          w

  unfoldable pub add_node : NewNode → Exec String
  add_node new =
      if str_eq (strip new.new_statement) ""
      then raise empty_statement
      else (do g ← read; x ← chosen_id new.given_id; insert_node new x (active_ids g))

  abbrev pub search_cycles : Exec (List (List String))
  search_cycles w =
      (w, elim (cycles w.graph) [ ok found ↦ ok found | err e ↦ err (search_fault e) ])

  abbrev pub accept_edge : ObligationEdge → Exec String
  accept_edge e = do
    _ ← record_event "ADD_RELATION" (e.source ∷ e.target ∷ []) none
    return e.edge_id

  abbrev pub settle_edge : ObligationEdge → List (List String) → Exec String
  settle_edge e [] = accept_edge e
  settle_edge e (c ∷ cs) = if is_contradicts e.relation then accept_edge e else (do
    g ← read
    _ ← write (record g { edges = remove_edge e.edge_id g.edges })
    raise (introduces_cycle c))

  abbrev pub drawn_edge : String → String → Relation → Metadata → String → ObligationEdge
  drawn_edge source target relation metadata x = record {
    source = source;
    target = target;
    relation = relation;
    metadata = metadata;
    edge_id = x;
  }

  -- From the insertion of the edge on.
  unfoldable pub insert_edge : ObligationEdge → Exec String
  insert_edge e w =
      let g = w.graph in
      (do
        _ ← write (record g { edges = put_edge e g.edges })
        found ← search_cycles
        settle_edge e found)
        w

  unfoldable pub add_edge : String → String → Relation → Metadata → Exec String
  add_edge source target relation metadata w =
      let ids = node_ids w.graph.nodes in
      if contains source ids && contains target ids
      then (do x ← draw; insert_edge (drawn_edge source target relation metadata x)) w
      else (w, err missing_endpoint)

  -- A node whose status and metadata are set: `node.status = ...`, `node.metadata[key] = ...`.
  unfoldable pub close_node : String → ObligationStatus → Metadata → Exec Unit
  close_node x status entries = do
    g ← read
    write (record g { nodes = update_node x (closed status entries) g.nodes })

  -- The evidence that `discharge` checks before it changes anything.
  unfoldable pub all_evidence : List String → Exec Unit
  all_evidence [] = return tt
  all_evidence (x ∷ xs) = do
    n ← node_at x
    if is_evidence n.kind then all_evidence xs else raise (not_evidence x)

  unfoldable pub link_all : List String → String → Relation → Metadata → Exec Unit
  link_all [] node_id relation metadata = return tt
  link_all (x ∷ xs) node_id relation metadata = do
    _ ← add_edge x node_id relation metadata
    link_all xs node_id relation metadata

  -- `refute` checks each piece of evidence as it links it.
  unfoldable pub link_counterevidence : List String → String → Metadata → Exec Unit
  link_counterevidence [] node_id metadata = return tt
  link_counterevidence (x ∷ xs) node_id metadata = do
    n ← node_at x
    if is_evidence n.kind
        then (do
          _ ← add_edge x node_id contradicts metadata
          link_counterevidence xs node_id metadata)
        else raise (not_evidence x)

  abbrev pub reason_entry : String → String → Metadata
  reason_entry key reason = (key, text reason) ∷ []

  unfoldable pub discharge : String → List String → String → Exec Unit
  discharge node_id evidence_ids reason = do
    node ← node_at node_id
    if is_evidence node.kind
        then raise evidence_as_obligation
        else elim evidence_ids as (λ _. Exec Unit) [
          | [] ↦ raise no_evidence
          | _ ∷ _ ↦ do
            _ ← all_evidence evidence_ids
            g ← read
            _ ← link_all evidence_ids node_id discharges (reason_entry "reason" reason)
            _ ← close_node node_id discharged (reason_entry "discharge_reason" reason)
            record_event "DISCHARGE_OBLIGATION" (node_id ∷ evidence_ids) (some (active_ids g))
        ]

  unfoldable pub defer : String → String → List String → Exec Unit
  defer node_id reason retry_conditions = do
    _ ← node_at node_id
    g ← read
    _ ←
        close_node node_id deferred
          (("defer_reason", text reason) ∷ ("retry_conditions", texts retry_conditions) ∷ [])
    record_event "DEFER_OBLIGATION" (node_id ∷ []) (some (active_ids g))

  -- An owner is recorded if one is named: `if owner:`.
  abbrev pub owner_entry : Option String → Metadata
  owner_entry none = []
  owner_entry (some o) = if str_eq o "" then [] else ("owner", text o) ∷ []

  unfoldable pub escalate : String → String → Option String → Exec Unit
  escalate node_id reason owner = do
    _ ← node_at node_id
    g ← read
    _ ← close_node node_id escalated (("escalation_reason", text reason) ∷ owner_entry owner)
    record_event "ESCALATE_OBLIGATION" (node_id ∷ []) (some (active_ids g))

  unfoldable pub refute : String → List String → String → Exec Unit
  refute node_id evidence_ids reason = do
    _ ← node_at node_id
    elim evidence_ids as (λ _. Exec Unit) [
      | [] ↦ raise no_evidence
      | _ ∷ _ ↦ do
        g ← read
        _ ← link_counterevidence evidence_ids node_id (reason_entry "reason" reason)
        _ ← close_node node_id refuted (reason_entry "refutation_reason" reason)
        record_event "REFUTE_OBLIGATION" (node_id ∷ evidence_ids) (some (active_ids g))
    ]

  abbrev pub successor_of : String → ObligationNode → String → String → NewNode
  successor_of node_id old statement reason = record {
    new_statement = statement;
    new_kind = old.kind;
    new_status = opened;
    new_severity = old.severity;
    new_blocking = old.blocking;
    new_source = "shape_transform";
    new_metadata = ("transferred_from", text node_id) ∷ ("reason", text reason) ∷ [];
    given_id = none;
  }

  unfoldable pub transfer : String → String → Relation → String → Exec String
  transfer node_id new_statement relation reason = do
    old ← node_at node_id
    g ← read
    new_id ← add_node (successor_of node_id old new_statement reason)
    _ ← add_edge new_id node_id relation (reason_entry "reason" reason)
    _ ← close_node node_id transferred []
    _ ← record_event "TRANSFER_OBLIGATION" (node_id ∷ new_id ∷ []) (some (active_ids g))
    return new_id

  unfoldable pub checkpoint : String → Exec Unit
  checkpoint operation = record_event operation [] none
