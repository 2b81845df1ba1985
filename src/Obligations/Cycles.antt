-- ===== src/Obligations/Cycles.antt =====
-- `cycles`: the depth-first search over the edges that are not contradictions.
pub mod Acyclic
pub mod Fuel
pub mod Known
pub mod Real
pub mod Within
pub mod Absent
use nexus_u.Prelude.{
  ℕ, zero, suc, String, Bool, true, false, Option, none, some, List, [], ◌∷◌, ◌++◌, ok, err, ◌>>=◌,
  contains, str_eq, length, if◌then◌else◌,
}
use nexus_u.Prelude
use nexus_u.Obligations.Graph.{ObligationEdge, ObligationGraph, is_contradicts, node_ids}

-- A search that meets a node without an entry in the adjacency table raises KeyError.
pub data SearchFault : Type 0 where
  missing_node out_of_fuel : SearchFault

abbrev pub SearchResult {ℓ} : Type ℓ → Type ℓ
SearchResult A = Prelude.Result SearchFault A

-- `adjacency[x]`: the targets of the edges from `x`, in order.
unfoldable pub successors : String → List ObligationEdge → List String
successors x [] = []
successors x (e ∷ es) =
    let rest = successors x es in
    if is_contradicts e.relation then rest else if str_eq e.source x then e.target ∷ rest else rest

-- The variables of the search. `stack` holds the nodes being visited, the innermost first; it has
-- the same members as the set `visiting`.
pub record Search : Type 0 where
  pub stack : List String
  pub visited : List String
  pub found : List (List String)

-- `stack[idx:] + [x]`: the nodes from the first `x` on, outermost first, and `x` again.
unfoldable pub cycle_from : String → List String → List String → List String
cycle_from x [] acc = acc
cycle_from x (y ∷ ys) acc = if str_eq y x then y ∷ acc else cycle_from x ys (y ∷ acc)

abbrev pub visit_all :
    (String → Search → SearchResult Search) → List String → Search → SearchResult Search
visit_all visit [] s = ok s
visit_all visit (x ∷ xs) s = do s' ← visit x s; visit_all visit xs s'

module _ (known : List String) (edges : List ObligationEdge) where
  -- One unit of fuel for each call on the way down.
  unfoldable pub visit : ℕ → String → Search → SearchResult Search
  unfolding successors cycle_from
  visit zero x s = err out_of_fuel
  visit (suc f) x s =
      let into = visit_all (visit f) (successors x edges) (record s { stack = x ∷ s.stack }) in
      if contains x s.stack
      then ok (record s { found = s.found ++ cycle_from x s.stack (x ∷ []) ∷ [] })
      else if contains x s.visited
      then ok s
      else if contains x known
      then (do s' ← into; ok (record s' { stack = s.stack; visited = x ∷ s'.visited }))
      else err missing_node

abbrev pub start : Search
start = record { stack = []; visited = []; found = [] }

-- A source that is no node raises KeyError while the table is built.
abbrev pub sources_known : List String → List ObligationEdge → Bool
sources_known known [] = true
sources_known known (e ∷ es) =
    if is_contradicts e.relation
    then sources_known known es
    else if contains e.source known
    then sources_known known es
    else false

-- The fuel is one more than the number of nodes: no node is twice on the way down.
unfoldable pub cycles : ObligationGraph → SearchResult (List (List String))
unfolding visit node_ids
cycles g =
    let known = node_ids g.nodes in
    if sources_known known g.edges
    then (do s ← visit_all (visit known g.edges (suc (length known))) known start; ok s.found)
    else err missing_node
