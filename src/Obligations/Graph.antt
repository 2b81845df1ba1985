-- ===== src/Obligations/Graph.antt =====
-- The nodes, edges and events of the graph, and what it computes from them. The times of creation
-- and change are left out; metadata holds the texts that the operations write.
use nexus_u.Prelude.{
  String, Bool, true, false, ◌&&◌, not, Option, none, some, List, [], ◌∷◌, str_eq, if◌then◌else◌,
}
use nexus_u.Obligations.Text.{sorted}

pub data ObligationKind : Type 0 where
  intent specification requirement assumption claim test proof safety policy : ObligationKind
  resource risk provenance evidence unknown : ObligationKind

pub data ObligationStatus : Type 0 where
  opened acknowledged discharged deferred refuted escalated transferred : ObligationStatus

pub data Severity : Type 0 where
  info low medium high critical : Severity

pub data Relation : Type 0 where
  depends_on discharges introduces refines decomposes transfers : Relation
  verifies contradicts blocks supports : Relation

-- A metadata value: a text, a list of texts, or None.
pub data Meta : Type 0 where
  text : String → Meta
  texts : List String → Meta
  nothing : Meta

abbrev pub Metadata : Type 0
Metadata = List (String × Meta)

pub record ObligationNode : Type 0 where
  pub statement : String
  pub kind : ObligationKind
  pub status : ObligationStatus
  pub severity : Severity
  pub blocking : Bool
  pub source : String
  pub metadata : Metadata
  pub node_id : String

pub record ObligationEdge : Type 0 where
  pub source : String
  pub target : String
  pub relation : Relation
  pub metadata : Metadata
  pub edge_id : String

pub record GraphEvent : Type 0 where
  pub operation : String
  pub affected : List String
  pub active_before : List String
  pub active_after : List String

-- The dictionaries `nodes` and `edges` list their values in order of insertion; each value carries
-- its key.
pub record ObligationGraph : Type 0 where
  pub nodes : List ObligationNode
  pub edges : List ObligationEdge
  pub events : List GraphEvent

abbrev pub empty_graph : ObligationGraph
empty_graph = record { nodes = []; edges = []; events = [] }

abbrev pub is_evidence : ObligationKind → Bool
is_evidence evidence = true
is_evidence _ = false

abbrev pub is_contradicts : Relation → Bool
is_contradicts contradicts = true
is_contradicts _ = false

-- OPEN, DEFERRED or ESCALATED.
abbrev pub is_unresolved : ObligationStatus → Bool
is_unresolved opened = true
is_unresolved deferred = true
is_unresolved escalated = true
is_unresolved _ = false

unfoldable pub node_ids : List ObligationNode → List String
node_ids [] = []
node_ids (n ∷ ns) = n.node_id ∷ node_ids ns

unfoldable pub find_node : String → List ObligationNode → Option ObligationNode
find_node x [] = none
find_node x (n ∷ ns) = if str_eq n.node_id x then some n else find_node x ns

-- `self.nodes[x] = f(self.nodes[x])`, or nothing if there is no such node.
unfoldable pub update_node :
    String → (ObligationNode → ObligationNode) → List ObligationNode → List ObligationNode
update_node x f [] = []
update_node x f (n ∷ ns) = (if str_eq n.node_id x then f n else n) ∷ update_node x f ns

-- `self.edges[edge.edge_id] = edge`: a new key goes to the end, an old one keeps its place.
unfoldable pub put_edge : ObligationEdge → List ObligationEdge → List ObligationEdge
put_edge e [] = e ∷ []
put_edge e (d ∷ ds) =
    let rest = put_edge e ds in if str_eq d.edge_id e.edge_id then e ∷ ds else d ∷ rest

-- `del self.edges[x]`
unfoldable pub remove_edge : String → List ObligationEdge → List ObligationEdge
remove_edge x [] = []
remove_edge x (d ∷ ds) = let rest = remove_edge x ds in if str_eq d.edge_id x then ds else d ∷ rest

-- `metadata[key] = value`
unfoldable pub put_meta : String → Meta → Metadata → Metadata
put_meta x v [] = (x, v) ∷ []
put_meta x v ((y, w) ∷ m) =
    let rest = put_meta x v m in if str_eq y x then (y, v) ∷ m else (y, w) ∷ rest

unfoldable pub get_meta : String → Metadata → Option Meta
get_meta x [] = none
get_meta x ((y, w) ∷ m) = if str_eq y x then some w else get_meta x m

-- `unresolved()`, and its identifiers, which `_active_ids` sorts.
unfoldable pub unresolved : List ObligationNode → List ObligationNode
unresolved [] = []
unresolved (n ∷ ns) =
    let rest = unresolved ns in
    if not (is_evidence n.kind) && is_unresolved n.status then n ∷ rest else rest

unfoldable pub active_ids : ObligationGraph → List String
unfolding sorted node_ids unresolved
active_ids g = sorted (node_ids (unresolved g.nodes))
