-- ===== src/Obligations/Exec.antt =====
-- Computations on an obligation graph, whose changes stay where a later step raises.
use nexus_u.Prelude.{ℕ, String, List, ok, err}
use nexus_u.Prelude
use nexus_u.Obligations.Graph.{ObligationGraph}
use nexus_u.Obligations.Cycles.{SearchFault}

-- ObligationGraphError by its messages, what the search for cycles raises, and the ValueError of a
-- text that names no kind, status or severity.
pub data GraphError : Type 0 where
  empty_statement : GraphError
  duplicate_node unknown_node not_evidence : String → GraphError
  missing_endpoint evidence_as_obligation no_evidence : GraphError
  introduces_cycle : List String → GraphError
  invalid_value : String → GraphError
  search_fault : SearchFault → GraphError

-- The graph, and the number of identifiers that `uuid4` has given out.
pub record World : Type 0 where
  pub graph : ObligationGraph
  pub drawn : ℕ

abbrev pub Outcome : Type 0 → Type 0
Outcome A = Prelude.Result GraphError A

abbrev pub Exec : Type 0 → Type 0
Exec A = World → World × Outcome A

abbrev pub raise : {A : Type 0} → GraphError → Exec A
raise e w = (w, err e)

abbrev pub return : {A : Type 0} → A → Exec A
return a w = (w, ok a)

abbrev pub continue : {A B : Type 0} → (A → Exec B) → World × Outcome A → World × Outcome B
continue f (w, ok a) = f a w
continue f (w, err e) = (w, err e)

infixl 1 ◌>>=◌
unfoldable pub ◌>>=◌ : {A B : Type 0} → Exec A → (A → Exec B) → Exec B
(m >>= f) w = continue f (m w)

abbrev pub read : Exec ObligationGraph
read w = (w, ok w.graph)

abbrev pub write : ObligationGraph → Exec Unit
write g w = (record w { graph = g }, ok tt)
