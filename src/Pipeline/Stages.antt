-- ===== src/Pipeline/Stages.antt =====
-- The body of `Pipeline.run`, cut where the stages of a run change. The metadata of the nodes that
-- the pipeline adds is left out, but for the steps of the workflow plan.
use nexus_u.Prelude.{
  ℕ, String, Bool, true, false, Option, none, some, List, [], ◌∷◌, ◌++◌, map, str_eq, if◌then◌else◌,
}
use nexus_u.Obligations.Text.{join}
use nexus_u.Obligations.Graph.{
  intent, specification, requirement, policy, ObligationStatus, opened, acknowledged, high, refines,
  depends_on, supports, texts, ObligationNode,
}
use nexus_u.Obligations.Promotion.{find_kind}
use nexus_u.Obligations.Operations.{add_node, add_edge, discharge, refute}
use nexus_u.Obligations.Operations.FromTask.{node}
use nexus_u.Planner.{build_workflow_plan}
use nexus_u.Policy.{evaluate_preflight}
use nexus_u.Policy.Decision.{PolicyDecision}
use nexus_u.Resources.{BudgetFault, snapshot, enforce}
use nexus_u.StateMachine.{
  intent_compiled, assumptions_exposed, target_formalized, candidates_generated, falsification,
  obstruction_classified, strategy_routed, artifact_constructed, executed, partial, rejected,
}
use nexus_u.Task.{TaskSpec, type_name, planned}
use nexus_u.Record.{AdapterResult}
use nexus_u.Pipeline.Exec.{
  in_adapter, budget_exceeded, Pipe, return, leave, ◌>>=◌, on_graph, artifact, graph, edit, Adapter,
  Setting,
}
use nexus_u.Pipeline.Parts.{
  advance, policy_event, described, add_item, add_evidence_all, add_obligation,
  apply_obligation_results, add_runtime_obligations, extend, call, stop,
}

-- `status == OPEN`
abbrev pub is_open : ObligationStatus → Bool
is_open opened = true
is_open _ = false

unfoldable pub open_ids : List ObligationNode → List String
open_ids [] = []
open_ids (n ∷ ns) = let rest = open_ids ns in if is_open n.status then n.node_id ∷ rest else rest

unfoldable pub ids_from : String → List ObligationNode → List String
ids_from source [] = []
ids_from source (n ∷ ns) =
    let rest = ids_from source ns in if str_eq n.source source then n.node_id ∷ rest else rest

abbrev pub allow_or_deny : Bool → String
allow_or_deny b = if b then "allow" else "deny"

module _ (s : Setting) (task : TaskSpec) where
  unfoldable pub discharge_all : List String → List String → String → Pipe Unit
  discharge_all [] evidence_ids reason = return tt
  discharge_all (x ∷ xs) evidence_ids reason = do
    _ ← on_graph (discharge s.uuid x evidence_ids reason)
    discharge_all xs evidence_ids reason

  abbrev pub enforced : Option BudgetFault → Pipe Unit
  enforced none = return tt
  enforced (some fault) = leave (budget_exceeded fault)

  -- `guard.enforce(len(str(record.output).encode()))`
  unfoldable pub enforce_budget : ℕ → Pipe Unit
  unfolding enforce
  enforce_budget n = do
    a ← artifact
    enforced (enforce task.budget (snapshot (s.reading n) a.output.shown_bytes))

  -- The statements that refuse a run: obligations that are deferred, and the end of the run.
  abbrev pub preflight_reasons : PolicyDecision → List String
  preflight_reasons d =
      map s.reason_text d.reasons ++ map (λ x. join "Required approval: " x) d.required_approvals

  unfoldable pub preflight_stage : Pipe Unit
  unfolding evaluate_preflight
  preflight_stage = do
    _ ← advance s intent_compiled "Intent compiled"
    _ ← advance s assumptions_exposed "Assumptions recorded"
    x ← add_obligation s "Task must satisfy preflight policy" policy high "policy.preflight"
    let d = evaluate_preflight s.lower s.policy task s.adapter_names
    _ ← policy_event s d
    e ←
        add_item s (described s "policy" (join "Preflight decision: " (allow_or_deny d.allowed)))
          "policy.preflight"
    if d.allowed
        then on_graph (discharge s.uuid x (e ∷ []) "Preflight policy allowed task")
        else (do
          _ ← on_graph (refute s.uuid x (e ∷ []) "Policy denied task")
          _ ← extend s (preflight_reasons d)
          _ ←
              add_runtime_obligations s (preflight_reasons d) "policy.preflight" high
                "Policy approval required"
          stop s rejected "Policy preflight rejected task")

  -- `if intent_nodes: graph.add_edge(spec_id, intent_nodes[0].node_id, ...)`
  abbrev pub refine_intent : String → List ObligationNode → Pipe Unit
  refine_intent spec_id [] = return tt
  refine_intent spec_id (n ∷ _) = do
    _ ← on_graph (add_edge s.uuid spec_id n.node_id refines [])
    return tt

  -- The identifiers of the specification and of the execution contract.
  unfoldable pub plan_stage : Pipe (String × String)
  unfolding build_workflow_plan find_kind
  plan_stage = do
    let plan = build_workflow_plan (planned task)
    spec_id ← on_graph (
        add_node s.uuid (
          node s.uuid
            (join "Formalized target for "
              (join (type_name task.artifact_type) (join ": " task.intent)))
            specification acknowledged high false "orchestration.plan"
            (("workflow_plan", texts plan.steps) ∷ [])))
    g ← graph
    _ ← refine_intent spec_id (find_kind intent g.nodes)
    contract_id ←
        add_obligation s "Constructed artifact must execute and satisfy declared success conditions"
          requirement high "pipeline.execution_contract"
    _ ← on_graph (add_edge s.uuid contract_id spec_id depends_on [])
    _ ← advance s target_formalized "Target normalized"
    _ ← advance s candidates_generated "Adapter selected"
    _ ← advance s falsification "Preflight falsification completed"
    _ ← advance s obstruction_classified "No blocking obstruction detected"
    _ ← advance s strategy_routed "Construction strategy routed"
    return (spec_id, contract_id)

  unfoldable pub construct_stage : Adapter → String → Pipe AdapterResult
  construct_stage adapter spec_id = do
    constructed ← call s in_adapter (adapter.construct task)
    if constructed.success
        then (do
          _ ← edit (λ a. record a { output = constructed.output })
          e ←
              add_item s
                (described s "construction"
                  (join "Adapter " (join task.adapter " constructed artifact")))
                "adapter.construct"
          _ ← on_graph (add_edge s.uuid e spec_id supports [])
          _ ← advance s artifact_constructed "Artifact constructed"
          _ ← enforce_budget 0
          return constructed)
        else (do
          _ ← extend s constructed.obligations
          _ ←
              add_runtime_obligations s constructed.obligations "adapter.construct" high
                "Construction failed"
          _ ← stop s rejected "Construction failed"
          return constructed)

  -- `if not execution_evidence_ids: ...`
  abbrev pub some_evidence : List String → Pipe (List String)
  some_evidence [] = do
    e ←
        add_item s (described s "execution" "Adapter reported successful execution")
          "adapter.execute"
    return (e ∷ [])
  some_evidence (x ∷ xs) = return (x ∷ xs)

  unfoldable pub accept_execution : AdapterResult → String → List String → Pipe AdapterResult
  unfolding find_kind ids_from
  accept_execution executed_ contract_id found = do
    ids ← some_evidence found
    _ ← on_graph (discharge s.uuid contract_id ids "Execution adapter completed successfully")
    g ← graph
    _ ←
        discharge_all (ids_from "task.success_conditions" (find_kind requirement g.nodes)) ids
          "Adapter confirmed success condition"
    _ ← advance s executed "Artifact executed"
    _ ← enforce_budget 1
    return executed_

  unfoldable pub execute_stage : Adapter → AdapterResult → String → Pipe AdapterResult
  execute_stage adapter constructed contract_id = do
    result ← call s in_adapter (adapter.execute task constructed)
    _ ← edit (λ a. record a { output = result.output })
    ids ← add_evidence_all s result.evidence "adapter.execute"
    _ ← apply_obligation_results s result.output.obligation_results "adapter.obligation_results"
    if result.success then accept_execution result contract_id ids else (do
      _ ← extend s result.obligations
      _ ← add_runtime_obligations s result.obligations "adapter.execute" high "Execution incomplete"
      _ ← stop s partial "Execution did not satisfy requirements"
      return result)
