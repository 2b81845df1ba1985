-- ===== src/Pipeline/Exec.antt =====
-- A run as a computation on its record, its audit chain and its obligation graph, which it may leave
-- early, and what it uses of the code around it.
use nexus_u.Prelude.{ℕ, String, Option, List, ok, err}
use nexus_u.Prelude
use nexus_u.Audit.{Hashing, AuditChain}
use nexus_u.Obligations.Graph.{ObligationGraph, Meta}
use nexus_u.Obligations.Exec.{GraphError, World}
use nexus_u.Obligations.Exec
use nexus_u.Obligations.Conservation.{ConservationError}
use nexus_u.Policy.{Policy, PolicyError}
use nexus_u.Policy.Decision.{Reason}
use nexus_u.Resources.{BudgetFault, Reading}
use nexus_u.StateMachine.{RunStatus}
use nexus_u.Task.{TaskSpec}
use nexus_u.Record.{StageEvent, AdapterResult, ArtifactRecord}

-- An exception other than BudgetExceeded, by where it is raised.
pub data Failure : Type 0 where
  in_graph : GraphError → Failure
  in_policy : PolicyError → Failure
  in_transition : RunStatus → RunStatus → Failure
  in_adapter : String → Failure
  in_persistence : String → Failure

-- `finished` is an early `return` from the body.
pub data Exit : Type 0 where
  finished : Exit
  budget_exceeded : BudgetFault → Exit
  failed : Failure → Exit

pub record Run : Type 0 where
  pub world : World
  pub artifact : ArtifactRecord
  pub chain : AuditChain StageEvent

abbrev pub Outcome : Type 0 → Type 0
Outcome A = Prelude.Result Exit A

abbrev pub Pipe : Type 0 → Type 0
Pipe A = Run → Run × Outcome A

abbrev pub return : {A : Type 0} → A → Pipe A
return a r = (r, ok a)

abbrev pub leave : {A : Type 0} → Exit → Pipe A
leave e r = (r, err e)

abbrev pub continue : {A B : Type 0} → (A → Pipe B) → Run × Outcome A → Run × Outcome B
continue f (r, ok a) = f a r
continue f (r, err e) = (r, err e)

infixl 1 ◌>>=◌
unfoldable pub ◌>>=◌ : {A B : Type 0} → Pipe A → (A → Pipe B) → Pipe B
(m >>= f) r = continue f (m r)

-- A call of the graph.
abbrev pub graph_outcome : {A : Type 0} → Run → World × Exec.Outcome A → Run × Outcome A
graph_outcome r (w, ok a) = (record r { world = w }, ok a)
graph_outcome r (w, err e) = (record r { world = w }, err (failed (in_graph e)))

unfoldable pub on_graph : {A : Type 0} → Exec.Exec A → Pipe A
on_graph m r = graph_outcome r (m r.world)

abbrev pub artifact : Pipe ArtifactRecord
artifact r = (r, ok r.artifact)

abbrev pub graph : Pipe ObligationGraph
graph r = (r, ok r.world.graph)

abbrev pub edit : (ArtifactRecord → ArtifactRecord) → Pipe Unit
edit f r = (record r { artifact = f r.artifact }, ok tt)

-- The operations of an adapter, whose exceptions are texts here.
pub record Adapter : Type 0 where
  pub construct : TaskSpec → Prelude.Result String AdapterResult
  pub execute : TaskSpec → AdapterResult → Prelude.Result String AdapterResult
  pub verify : TaskSpec → AdapterResult → Prelude.Result String AdapterResult

-- What a run is given. `adapter_of` is `registry.get`; `reading n` is what the guard measures
-- at its `n`th call; `report` the number of routing
-- recommendations, or the exception that summing up or routing the graph raises; `write_graph` and
-- `save` write files.
pub record Setting : Type 0 where
  pub uuid : ℕ → String
  pub str_of : Meta → String
  pub lower : String → String
  pub reason_text : Reason → String
  pub failure_text : Failure → String
  pub error_text : ConservationError → String
  pub hashing : Hashing StageEvent
  pub policy : Policy
  pub adapter_names : List String
  pub adapter_of : String → Prelude.Result String Adapter
  pub reading : ℕ → Reading
  pub report : ObligationGraph → Prelude.Result String ℕ
  pub write_graph : ObligationGraph → Prelude.Result String (Unit {0})
  pub save : Run → Prelude.Result String (Unit {0})
