-- ===== src/Planner/Tests.antt =====
-- The plan of a task with two modes, one of them twice.
use nexus_u.Prelude.{[], ◌∷◌, ◌≡◌, refl}
use nexus_u.Planner.{TaskSpec, formal_proof, policy_and_compliance, mode_steps, build_workflow_plan}
use nexus_u.Planner.Steps.{first_occurrences, all_steps, build_workflow_plan_lem}

abbrev task : TaskSpec
task = record {
  task_id = "t";
  adapter = "lean";
  modes = formal_proof ∷ policy_and_compliance ∷ formal_proof ∷ [];
}

plan_steps :
    first_occurrences (all_steps task.modes)
    ≡ "formalize" ∷ "counterexample_search" ∷ "proof_search" ∷ "kernel_check" ∷ "policy" ∷ "monitor"
      ∷ "evidence" ∷ "human_authority" ∷ []
unfolding mode_steps
plan_steps = refl

build_workflow_plan_lem_example :
    (build_workflow_plan task).steps ≡ first_occurrences (all_steps task.modes)
build_workflow_plan_lem_example = build_workflow_plan_lem task
