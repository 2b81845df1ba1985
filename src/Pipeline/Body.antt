-- ===== src/Pipeline/Body.antt =====
-- The promotion gate, the release and the body of `Pipeline.run`.
use nexus_u.Prelude.{String, true, List, [], ◌∷◌, map, if◌then◌else◌}
use nexus_u.Obligations.Graph.{ObligationNode}
use nexus_u.Obligations.Conservation.{verify_conservation}
use nexus_u.Obligations.Exec.{search_fault}
use nexus_u.Obligations.Promotion.{is_blocker, promotion_allowed}
use nexus_u.Obligations.Operations.{checkpoint}
use nexus_u.StateMachine.{certified, curated, released, partial}
use nexus_u.Task.{TaskSpec}
use nexus_u.Record.{at_gate}
use nexus_u.Pipeline.Exec.{in_graph, in_adapter, Pipe, ◌>>=◌, on_graph, graph, edit, Setting}
use nexus_u.Pipeline.Parts.{log, advance, extend_new, call, stop}
use nexus_u.Pipeline.Stages.{
  allow_or_deny, preflight_stage, plan_stage, construct_stage, execute_stage,
}
use nexus_u.Pipeline.Reviews.{
  verify_stage, release_stage, safety_stage, review_stage, provenance_stage,
}

module _ (s : Setting) (task : TaskSpec) where
  -- The statements of the blocking obligations of a decision that denies.
  unfoldable pub blocking_statements : List ObligationNode → List String
  blocking_statements [] = []
  blocking_statements (n ∷ ns) =
      let rest = blocking_statements ns in if is_blocker n then n.statement ∷ rest else rest

  abbrev pub curate : Pipe Unit
  curate = do
    _ ← edit (λ a. record a { reproducible = true })
    _ ← advance s curated "Artifact curated"
    _ ← edit (λ a. record a { released = true })
    _ ← advance s released "Artifact released"
    on_graph (checkpoint s.uuid "artifact_released")

  abbrev pub release : Pipe Unit
  release = do _ ← advance s certified "Artifact certified relative to declared evidence"; curate

  -- The promotion gate, and the release behind it.
  unfoldable pub promotion_stage : Pipe Unit
  unfolding promotion_allowed verify_conservation blocking_statements
  promotion_stage = do
    g ← graph
    passed ← call s (λ e. in_graph (search_fault e)) (promotion_allowed "RELEASED" g)
    errors ← call s (λ e. in_graph (search_fault e)) (verify_conservation g)
    _ ← log s (record {
      stage = at_gate "OBLIGATION_PROMOTION_GATE";
      status = allow_or_deny passed;
      message = "Obligation promotion gate evaluated";
    })
    if passed then release else (do
      _ ← extend_new s (blocking_statements g.nodes)
      _ ← extend_new s (map s.error_text errors)
      stop s partial "Obligation promotion gate blocked release")

  unfoldable pub body : Pipe Unit
  body = do
    _ ← preflight_stage s task
    (spec_id, contract_id) ← plan_stage s task
    adapter ← call s in_adapter (s.adapter_of task.adapter)
    constructed ← construct_stage s task adapter spec_id
    result ← execute_stage s task adapter constructed contract_id
    _ ← verify_stage s task adapter result
    _ ← release_stage s task
    _ ← safety_stage s task
    _ ← review_stage s task
    _ ← provenance_stage s task
    promotion_stage
