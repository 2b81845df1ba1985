-- ===== src/Federation/Merge.antt =====
-- src/nexus_u/federation/graph_merge.py: the obligation graphs of several repositories as one. The
-- graphs of the caller, which are changed, are passed and returned; they share no dictionary with
-- each other, as graphs that are read from files do not. Every node has an identifier, every edge an
-- identifier and two ends, and metadata that is there is a dictionary.
pub mod Joined
use nexus_u.Obligations.Text.{join, text_le}
use nexus_u.Prelude.{
  ℕ, suc, String, Bool, true, false, not, ◌&&◌, ◌||◌, ◌≡◌, refl, ap, ◌∙◌, Option, none, some, List,
  [], ◌∷◌, ◌++◌, ok, err, ◌>>=◌, >>=-eq-ok, contains, str_eq, str_eq_refl, if◌then◌else◌,
  Bool-cases, inl, inr, arith,
}
use nexus_u.Prelude
use nexus_u.Federation.{value_at, put_value}

pub record CrossRepositoryObligation : Type 0 where
  pub source_repository : String
  pub source_obligation_id : String
  pub target_repository : String
  pub target_obligation_id : String
  pub relation : String
  pub required_digest : String

-- What merging only copies: the other entries of a dictionary.
abbrev pub Entries : Type 0 → Type 0
Entries Value = List (String × Value)

pub record MergedNode (Value : Type 0) : Type 0 where
  pub node_id : String
  pub metadata : Option (Entries Value)
  pub entries : Entries Value

pub record MergedEdge (Value : Type 0) : Type 0 where
  pub edge_id : String
  pub source : String
  pub target : String
  pub entries : Entries Value

pub record GraphOf (Value : Type 0) : Type 0 where
  pub nodes : List (MergedNode Value)
  pub edges : List (MergedEdge Value)
  pub entries : Entries Value

-- KeyError on an edge whose end is no node.
pub data MergeError : Type 0 where
  missing_end : String → MergeError

abbrev pub MergeResult {ℓ} : Type ℓ → Type ℓ
MergeResult A = Prelude.Result MergeError A

-- A graph under the name of its repository, and the loop's three collections.
pub record Namespaced (Value : Type 0) : Type 0 where
  pub digest : String
  pub nodes : List (MergedNode Value)
  pub edges : List (MergedEdge Value)

pub record Collected (Value : Type 0) : Type 0 where
  pub repositories : List (String × String)
  pub nodes : List (MergedNode Value)
  pub edges : List (MergedEdge Value)

pub record Merged (Value : Type 0) : Type 0 where
  pub repositories : List (String × String)
  pub nodes : List (MergedNode Value)
  pub edges : List (MergedEdge Value)
  pub unresolved_links : List CrossRepositoryObligation
  pub federation_valid : Bool

-- A text as a value, the metadata of a link's edge, SHA-256 of the JSON text of a graph, and a number
-- written out.
pub record Outside (Value : Type 0) : Type 0 where
  pub text : String → Value
  pub cross_repository : Value
  pub graph_digest : GraphOf Value → String
  pub show : ℕ → String

-- `f"{repository}:{x}"`
abbrev pub scoped : String → String → String
scoped repository x = join repository (join ":" x)

module _ {Value : Type 0} where
  unfoldable pub ids_of : List (MergedNode Value) → List String
  ids_of [] = []
  ids_of (n ∷ ns) = n.node_id ∷ ids_of ns

  -- `sorted(graphs.items())`, on keys that differ.
  unfoldable pub insert_graph :
      String × GraphOf Value → List (String × GraphOf Value) → List (String × GraphOf Value)
  unfolding text_le
  insert_graph (x, g) [] = (x, g) ∷ []
  insert_graph (x, g) ((y, h) ∷ rest) =
      let later = insert_graph (x, g) rest in
      if text_le x y then (x, g) ∷ (y, h) ∷ rest else (y, h) ∷ later

  unfoldable pub sorted_graphs : List (String × GraphOf Value) → List (String × GraphOf Value)
  unfolding insert_graph
  sorted_graphs [] = []
  sorted_graphs (p ∷ ps) = insert_graph p (sorted_graphs ps)

module _ {Value : Type 0} (o : Outside Value) where
  -- The clone and the node share the dictionary of metadata, if the node has one, so the name of the
  -- repository is written into both; a node that has none stays without.
  unfoldable pub in_repository : String → Entries Value → Entries Value
  unfolding put_value
  in_repository repository metadata = put_value "repository" (o.text repository) metadata

  abbrev pub clone_metadata : String → Option (Entries Value) → Option (Entries Value)
  clone_metadata repository none = some (in_repository repository [])
  clone_metadata repository (some metadata) = some (in_repository repository metadata)

  abbrev pub left_metadata : String → Option (Entries Value) → Option (Entries Value)
  left_metadata repository none = none
  left_metadata repository (some metadata) = some (in_repository repository metadata)

  unfoldable pub scoped_nodes : String → List (MergedNode Value) → List (MergedNode Value)
  unfolding in_repository
  scoped_nodes repository [] = []
  scoped_nodes repository (n ∷ ns) =
      record n {
        node_id = scoped repository n.node_id;
        metadata = clone_metadata repository n.metadata;
      }
      ∷ scoped_nodes repository ns

  unfoldable pub left_nodes : String → List (MergedNode Value) → List (MergedNode Value)
  unfolding in_repository
  left_nodes repository [] = []
  left_nodes repository (n ∷ ns) =
      record n { metadata = left_metadata repository n.metadata } ∷ left_nodes repository ns

  -- The graph of the caller after the loop over its nodes.
  abbrev pub left_graph : String → GraphOf Value → GraphOf Value
  left_graph repository g = record g { nodes = left_nodes repository g.nodes }

  -- `node_map[x]`
  unfoldable pub mapped : String → List String → String → MergeResult String
  mapped repository ids x = if contains x ids then ok (scoped repository x) else err (missing_end x)

  unfoldable pub scoped_edges :
      String → List String → List (MergedEdge Value) → MergeResult (List (MergedEdge Value))
  unfolding mapped
  scoped_edges repository ids [] = ok []
  scoped_edges repository ids (e ∷ es) = do
    source ← mapped repository ids e.source
    target ← mapped repository ids e.target
    rest ← scoped_edges repository ids es
    ok (record e { edge_id = scoped repository e.edge_id; source = source; target = target } ∷ rest)

  -- The caller's graph afterwards, and the result. The digest is of the graph as it then is.
  unfoldable pub namespace_graph :
      String → GraphOf Value → GraphOf Value × MergeResult (Namespaced Value)
  unfolding ids_of scoped_edges scoped_nodes left_nodes
  namespace_graph repository g = (
    left_graph repository g,
    do
      edges ← scoped_edges repository (ids_of g.nodes) g.edges
      ok (record {
        digest = o.graph_digest (left_graph repository g);
        nodes = scoped_nodes repository g.nodes;
        edges = edges;
      }),
  )

  -- The first loop of `merge_graphs`: one graph, and those that follow. A graph that raises leaves
  -- those that follow as they were.
  abbrev pub gather :
      String
      → GraphOf Value × MergeResult (Namespaced Value)
      → List (String × GraphOf Value)
      → List (String × GraphOf Value) × MergeResult (Collected Value)
      → List (String × GraphOf Value) × MergeResult (Collected Value)
  gather repository (g, err e) rest later = ((repository, g) ∷ rest, err e)
  gather repository (g, ok h) rest (left, later) = (
    (repository, g) ∷ left,
    do
      l ← later
      ok (record {
        repositories = (repository, h.digest) ∷ l.repositories;
        nodes = h.nodes ++ l.nodes;
        edges = h.edges ++ l.edges;
      }),
  )

  unfoldable pub collect :
      List (String × GraphOf Value) → List (String × GraphOf Value) × MergeResult (Collected Value)
  unfolding namespace_graph
  collect [] = ([], ok (record { repositories = []; nodes = []; edges = [] }))
  collect ((repository, g) ∷ rest) =
      gather repository (namespace_graph repository g) rest (collect rest)

  abbrev pub digest_differs : Option String → String → Bool
  digest_differs none required = true
  digest_differs (some d) required = not (str_eq d required)

  -- A link whose ends are no nodes, or whose target does not have the digest required.
  unfoldable pub is_unresolved :
      List String → List (String × String) → CrossRepositoryObligation → Bool
  unfolding value_at
  is_unresolved ids repositories link =
      not (
        contains (scoped link.source_repository link.source_obligation_id) ids
        && contains (scoped link.target_repository link.target_obligation_id) ids)
      || (not (str_eq link.required_digest "")
          && digest_differs (value_at link.target_repository repositories) link.required_digest)

  abbrev pub cross_edge : ℕ → CrossRepositoryObligation → MergedEdge Value
  cross_edge index link =
      let source = scoped link.source_repository link.source_obligation_id in
      let target = scoped link.target_repository link.target_obligation_id in
      record {
        edge_id = join "cross:" (join (o.show index) (join ":" (join source (join "->" target))));
        source = source;
        target = target;
        entries = ("relation", o.text link.relation) ∷ ("metadata", o.cross_repository) ∷ [];
      }

  -- The second loop: the edges and the links that stay unresolved.
  unfoldable pub link_all :
      List String
      → List (String × String)
      → ℕ
      → List CrossRepositoryObligation
      → List (MergedEdge Value) × List CrossRepositoryObligation
  unfolding is_unresolved
  link_all ids repositories index [] = ([], [])
  link_all ids repositories index (link ∷ links) =
      let (edges, unresolved) = link_all ids repositories (suc index) links in
      if is_unresolved ids repositories link
      then (edges, link ∷ unresolved)
      else (cross_edge index link ∷ edges, unresolved)

  abbrev pub is_nil {ℓ} : {A : Type ℓ} → List A → Bool
  is_nil [] = true
  is_nil (x ∷ xs) = false

  abbrev pub merged_with : List CrossRepositoryObligation → Collected Value → Merged Value
  merged_with links c =
      let linked = link_all (ids_of c.nodes) c.repositories 0 links in
      record {
        repositories = c.repositories;
        nodes = c.nodes;
        edges = c.edges ++ linked.0;
        unresolved_links = linked.1;
        federation_valid = is_nil linked.1;
      }

  -- The caller's graphs afterwards, in the sorted order, and the result.
  unfoldable pub merge_graphs :
      List (String × GraphOf Value)
      → List CrossRepositoryObligation
      → List (String × GraphOf Value) × MergeResult (Merged Value)
  unfolding sorted_graphs collect link_all
  merge_graphs graphs links =
      let (left, collected) = collect (sorted_graphs graphs) in
      (left, do c ← collected; ok (merged_with links c))
