-- ===== src/Pipeline/Main.antt =====
-- `Pipeline.run`: the body, and what the handlers of its exceptions do.
use mathlib.Core.Bool.{decide}
use nexus_u.Prelude.{String, Bool, true, false, some, [], ◌∷◌, ok, err, any, if◌then◌else◌}
use nexus_u.Audit.{empty_chain}
use nexus_u.Obligations.Text.{join}
use nexus_u.Obligations.Graph.{resource, unknown, high, critical, empty_graph}
use nexus_u.Obligations.Exec.{World}
use nexus_u.Obligations.Operations.{defer, escalate}
use nexus_u.Obligations.Operations.FromTask.{from_task}
use nexus_u.Resources.{BudgetFault, budget_text}
use nexus_u.StateMachine.{
  RunStatus, RunStatus-discrete, allowed, released, rejected, partial, refuted,
}
use nexus_u.StateMachine
use nexus_u.Task.{TaskSpec}
use nexus_u.Record.{new_record}
use nexus_u.Pipeline.Exec.{
  Failure, finished, budget_exceeded, failed, Run, Outcome, Pipe, return, ◌>>=◌, on_graph, artifact,
  Setting,
}
use nexus_u.Pipeline.Parts.{enter, terminal, add_obligation, extend, persist}
use nexus_u.Pipeline.Body.{body}

-- RELEASED, REJECTED, PARTIAL, REFUTED or UNKNOWN.
unfoldable pub is_terminal : RunStatus → Bool
is_terminal released = true
is_terminal rejected = true
is_terminal partial = true
is_terminal refuted = true
is_terminal StateMachine.unknown = true
is_terminal _ = false

-- `RunStatus.PARTIAL in ALLOWED[status]`
unfoldable pub may_stop_partial : RunStatus → Bool
unfolding allowed RunStatus-discrete
may_stop_partial status = any (λ t. decide (RunStatus-discrete t partial)) (allowed status)

module _ (s : Setting) where
  unfoldable pub on_budget : BudgetFault → Pipe Unit
  unfolding may_stop_partial budget_text
  on_budget fault = do
    _ ← extend s (budget_text fault ∷ [])
    x ← add_obligation s (budget_text fault) resource high "resource.guard"
    _ ← on_graph (
        defer s.uuid x "Resource budget exceeded"
          ("Increase declared budget" ∷ "Lower artifact resource demands" ∷ []))
    a ← artifact
    if may_stop_partial a.status
        then terminal s partial "Resource budget exceeded"
        else enter s partial "terminal" "Resource budget exceeded"

  -- `failure_text` gives the class and the message of the exception.
  abbrev pub unhandled : Failure → String
  unhandled f = join "Unhandled error: " (s.failure_text f)

  unfoldable pub on_failure : Failure → Pipe Unit
  unfolding is_terminal
  on_failure f = do
    _ ← extend s (unhandled f ∷ [])
    x ← add_obligation s (unhandled f) unknown critical "pipeline.exception"
    _ ← on_graph (escalate s.uuid x "Unhandled pipeline exception" (some "operator"))
    a ← artifact
    if is_terminal a.status
        then return tt
        else enter s StateMachine.unknown "terminal" "Unhandled pipeline failure"

  -- What follows the body, by the way that it ends.
  abbrev pub settle : Run × Outcome Unit → Run × Outcome Unit
  settle (r, ok a) = persist s r
  settle (r, err finished) = (r, ok tt)
  settle (r, err (budget_exceeded fault)) = (do _ ← on_budget fault; persist s) r
  settle (r, err (failed f)) = (do _ ← on_failure f; persist s) r

  -- The record draws the first identifier.
  abbrev pub before : World
  before = record { graph = empty_graph; drawn = 1 }

  abbrev pub opening : World → Run
  opening w = record { world = w; artifact = new_record (s.uuid 0); chain = empty_chain s.hashing }

  -- The graph of the task is built before the body is tried: what that raises leaves `run`.
  abbrev pub started : TaskSpec → Run × Outcome Unit → Run × Outcome Unit
  started task (r, ok a) = settle (body s task r)
  started task (r, err e) = (r, err e)

  unfoldable pub run : TaskSpec → Run × Outcome Unit
  unfolding on_graph from_task body
  run task = started task (on_graph (from_task s.uuid task) (opening before))
