-- ===== src/Obligations/Operations/Commands.antt =====
-- Sequences of calls of the operations.
use nexus_u.Prelude.{ℕ, String, Option, List, [], ◌∷◌}
use nexus_u.Obligations.Graph.{Relation, Metadata}
use nexus_u.Obligations.Exec.{World}
use nexus_u.Obligations.Operations.{
  NewNode, add_node, add_edge, discharge, refute, defer, escalate, transfer, checkpoint,
}

-- A call of one operation.
pub data Command : Type 0 where
  create : NewNode → Command
  relate : String → String → Relation → Metadata → Command
  discharge_by refute_by : String → List String → String → Command
  defer_for : String → String → List String → Command
  escalate_to : String → String → Option String → Command
  transfer_to : String → String → Relation → String → Command
  mark : String → Command

module _ (uuid : ℕ → String) where
  -- The world that a call leaves, whether it returns or raises.
  unfoldable pub perform : Command → World → World
  unfolding add_node add_edge discharge refute defer escalate transfer checkpoint
  perform (create new) w = (add_node uuid new w).0
  perform (relate s t r m) w = (add_edge uuid s t r m w).0
  perform (discharge_by x es reason) w = (discharge uuid x es reason w).0
  perform (refute_by x es reason) w = (refute uuid x es reason w).0
  perform (defer_for x reason rs) w = (defer uuid x reason rs w).0
  perform (escalate_to x reason o) w = (escalate uuid x reason o w).0
  perform (transfer_to x t r reason) w = (transfer uuid x t r reason w).0
  perform (mark operation) w = (checkpoint uuid operation w).0

  unfoldable pub perform_all : List Command → World → World
  unfolding perform
  perform_all [] w = w
  perform_all (c ∷ cs) w = perform_all cs (perform c w)
