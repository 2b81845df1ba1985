-- ===== src/Pipeline/Wired.antt =====
-- The graph of a run, at every end of it.
use nexus_u.Obligations.Operations.Started.{Steps-from_task}
use nexus_u.Obligations.Operations.Steps.{steps_of}
use nexus_u.Obligations.Operations.Wired.{Wired, KeepsWired, wiring, empty_graph-Wired}
use nexus_u.Task.{TaskSpec}
use nexus_u.Pipeline.Exec.{Setting}
use nexus_u.Pipeline.Main.{before, run}
use nexus_u.Pipeline.Audited.{related-run}

module _ (s : Setting) where
  -- However a run ends, every edge of its graph joins two nodes of it, and no path of edges that are
  -- not contradictions is a circle.
  pub run-Wired : (task : TaskSpec) → Wired (run s task).0.world.graph
  unfolding KeepsWired
  run-Wired task =
      related-run s (wiring s.uuid) task
        (steps_of (Steps-from_task (wiring s.uuid) task) (before s) empty_graph-Wired)
