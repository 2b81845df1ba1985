-- ===== src/Planner.antt =====
-- src/nexus_u/orchestration/planner.py: the steps that the modes of a task call for.
pub mod Steps
pub mod Tests
use nexus_u.Prelude.{String, List, [], ◌∷◌, ◌++◌, contains, if◌then◌else◌}

pub data TaskMode : Type 0 where
  formal_proof software_engineering scientific_modeling experimental_research : TaskMode
  control_synthesis system_architecture data_analysis creative_construction : TaskMode
  resource_constrained_deployment policy_and_compliance : TaskMode

unfoldable pub TaskMode-discrete : Discrete TaskMode
TaskMode-discrete = hlevel

-- `_MODE_STEPS`
unfoldable pub mode_steps : TaskMode → List String
mode_steps formal_proof =
    "formalize" ∷ "counterexample_search" ∷ "proof_search" ∷ "kernel_check" ∷ []
mode_steps software_engineering = "contract" ∷ "construct" ∷ "execute" ∷ "test" ∷ "provenance" ∷ []
mode_steps scientific_modeling = "model" ∷ "simulate" ∷ "sensitivity" ∷ "evidence_review" ∷ []
mode_steps experimental_research = "hypothesize" ∷ "evaluate" ∷ "falsify" ∷ "reproduce" ∷ []
mode_steps control_synthesis =
    "dynamics" ∷ "safety_constraint" ∷ "controller" ∷ "runtime_monitor" ∷ []
mode_steps system_architecture =
    "interfaces" ∷ "dependencies" ∷ "risk_composition" ∷ "deployment" ∷ []
mode_steps data_analysis = "schema" ∷ "quality" ∷ "analysis" ∷ "reproduction" ∷ []
mode_steps creative_construction = "generate" ∷ "fit_gate" ∷ "local_repair" ∷ "release" ∷ []
mode_steps resource_constrained_deployment =
    "resource_contract" ∷ "lower" ∷ "residual_cost" ∷ "deploy" ∷ []
mode_steps policy_and_compliance = "policy" ∷ "monitor" ∷ "evidence" ∷ "human_authority" ∷ []

-- What the planner reads of a task.
pub record TaskSpec : Type 0 where
  pub task_id : String
  pub adapter : String
  pub modes : List TaskMode

pub record WorkflowPlan : Type 0 where
  pub task_id : String
  pub adapter : String
  pub modes : List TaskMode
  pub steps : List String
  pub release_policy : String

unfoldable pub add_step : String → List String → List String
add_step step steps = if contains step steps then steps else steps ++ step ∷ []

unfoldable pub add_steps : List String → List String → List String
unfolding add_step
add_steps [] steps = steps
add_steps (step ∷ rest) steps = add_steps rest (add_step step steps)

unfoldable pub collect_steps : List TaskMode → List String → List String
unfolding add_steps mode_steps
collect_steps [] steps = steps
collect_steps (mode ∷ rest) steps = collect_steps rest (add_steps (mode_steps mode) steps)

unfoldable pub build_workflow_plan : TaskSpec → WorkflowPlan
unfolding collect_steps
build_workflow_plan task = record {
  task_id = task.task_id;
  adapter = task.adapter;
  modes = task.modes;
  steps = collect_steps task.modes [];
  release_policy = "evidence_capped";
}
