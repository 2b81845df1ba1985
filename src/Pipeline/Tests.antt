-- ===== src/Pipeline/Tests.antt =====
-- Runs of a small task.
use nexus_u.Prelude.{ℕ, zero, suc, String, true, false, some, [], ◌∷◌, ok, ◌≡◌, refl, ap}
use nexus_u.Obligations.Text.{join}
use nexus_u.Obligations.Graph.{Meta, text, texts, nothing}
use nexus_u.Policy.{Policy, evaluate_release}
use nexus_u.Policy.Decision.{PolicyDecision, release, no_audit_root}
use nexus_u.Policy.Release.{Permitted, evaluate_release-Permitted}
use nexus_u.Planner.{software_engineering}
use nexus_u.StateMachine.{rejected, partial}
use nexus_u.Task.{TaskSpec, software}
use nexus_u.Record.{no_output, AdapterResult, ArtifactRecord, new_record}
use nexus_u.Pipeline.Exec.{Run, Outcome, Adapter, Setting}
use nexus_u.Pipeline.Main.{run}
use mathlib.Core.Bool.{decide}
use nexus_u.Pipeline.Exec
use nexus_u.Obligations.Exec.{◌>>=◌}
use nexus_u.Obligations.Text.{strip}
use nexus_u.Obligations.Graph.{update_node, put_edge, active_ids}
use nexus_u.Obligations.Operations.{
  node_at, record_event, insert_node, add_node, insert_edge, add_edge, close_node, all_evidence,
  link_all, link_counterevidence, discharge, defer, refute, checkpoint,
}
use nexus_u.Obligations.Operations.Evidence.{add_evidence}
use nexus_u.Pipeline.Parts.{
  log, enter, advance, terminal, policy_event, add_item, add_evidence_all, add_obligation,
  apply_obligation_results, add_runtime_obligations, extend, set_root, persist, stop,
}
use nexus_u.Pipeline.Stages.{
  discharge_all, enforce_budget, preflight_stage, plan_stage, construct_stage, accept_execution,
  execute_stage,
}
use nexus_u.Pipeline.Reviews.{
  accept_verification, verify_stage, apply_release, release_stage, safety_stage, review_stage,
  provenance_stage,
}
use nexus_u.Pipeline.Body.{promotion_stage}
use nexus_u.Pipeline.Main.{on_budget}
use nexus_u.Claims.{
  execution_verified, rank, EpistemicStatus-discrete, evidence_cap, highest, strongest, same_status,
  assign_with_cap, assign,
}
use nexus_u.Planner.{TaskMode-discrete}
use nexus_u.Task.{type_name}
use nexus_u.Obligations.Operations.Conserved.{Conserved}
use nexus_u.Obligations.Operations.FromTask.{from_task}
use nexus_u.Pipeline.Main.{is_terminal, before}
use nexus_u.Pipeline.Secured.{Gated}
use nexus_u.Pipeline.Released.{run-Gated}
use nexus_u.Obligations.Operations.Builds.{Buildable}
use nexus_u.Obligations.Operations.Wired.{Wired}
use nexus_u.Pipeline.Wired.{run-Wired}
use nexus_u.Pipeline.Audited.{Audited, run-Audited, run-Conserved}
use nexus_u.Pipeline.Ends.{Persists, run-IsFinal}

-- Identifiers in unary.
abbrev uuid : ℕ → String
uuid zero = "u"
uuid (suc n) = join "u" (uuid n)

abbrev text_of : Meta → String
text_of (text t) = t
text_of (texts ts) = "list"
text_of nothing = "None"

abbrev policy : Policy
policy = record {
  policy_id = "p";
  allowed_adapters = "python" ∷ [];
  deny_unknown_adapters = true;
  max_unresolved = 0;
  minimum_status_by_mode = λ m. some "EXECUTION_VERIFIED";
  require_approval = true;
  approval_roles = "owner" ∷ [];
  input_flag = "high_risk";
  deny_output_patterns = "sorry" ∷ [];
  require_audit_chain = true;
}

abbrev result : AdapterResult
result = record {
  success = true;
  output = no_output;
  evidence = record { kind = "execution"; summary = "it ran" } ∷ [];
  obligations = [];
}

abbrev adapter : Adapter
adapter = record {
  construct = λ t. ok result;
  execute = λ t r. ok result;
  verify = λ t r. ok result;
}

abbrev setting : Setting
setting = record {
  uuid = uuid;
  str_of = text_of;
  lower = λ t. t;
  reason_text = λ r. "reason";
  failure_text = λ f. "Unhandled error";
  error_text = λ e. "error";
  hashing = record { genesis = "0"; digest = λ h e. join "#" (join h e.message) };
  policy = policy;
  adapter_names = "python" ∷ [];
  adapter_of = λ n. ok adapter;
  reading = λ n. record { elapsed = 1; peak_memory = 1 };
  report = λ g. ok 0;
  write_graph = λ g. ok tt;
  save = λ r. ok tt;
}

abbrev task : TaskSpec
task = record {
  task_id = "t";
  intent = "build it";
  artifact_type = software;
  modes = software_engineering ∷ [];
  success_conditions = "it runs" ∷ [];
  prohibited_shortcuts = "cheat" ∷ [];
  assumptions = [];
  adapter = "python";
  budget = record { wall_clock = 30; memory = 512; output_bytes = 1000 };
  initial_obligations = [];
  flag = λ f. false;
  approved_roles = [];
}

abbrev outcome : Run × Outcome Unit
outcome = run setting task

-- The same task where the safety review is forced to fail, and where the budget of time is too small.
abbrev unsafe : TaskSpec
unsafe = record task { flag = λ f. true }

abbrev hurried : TaskSpec
hurried = record task { budget = record { wall_clock = 0; memory = 512; output_bytes = 1000 } }

is_released : outcome.0.artifact.released ≡ true
unfolding run decide strip update_node put_edge active_ids ◌>>=◌ Exec.◌>>=◌ node_at record_event
    insert_node add_node insert_edge add_edge close_node all_evidence link_all link_counterevidence
    discharge defer refute checkpoint add_evidence log enter advance terminal policy_event add_item
    add_evidence_all add_obligation apply_obligation_results add_runtime_obligations extend set_root
    persist stop discharge_all enforce_budget preflight_stage plan_stage construct_stage
    accept_execution execute_stage accept_verification verify_stage apply_release release_stage
    safety_stage review_stage provenance_stage promotion_stage on_budget rank
    EpistemicStatus-discrete evidence_cap highest strongest same_status assign_with_cap assign
    TaskMode-discrete type_name
is_released = refl

status_refused : (run setting unsafe).0.artifact.status ≡ rejected
unfolding run decide strip update_node put_edge active_ids ◌>>=◌ Exec.◌>>=◌ node_at record_event
    insert_node add_node insert_edge add_edge close_node all_evidence link_all link_counterevidence
    discharge defer refute checkpoint add_evidence log enter advance terminal policy_event add_item
    add_evidence_all add_obligation apply_obligation_results add_runtime_obligations extend set_root
    persist stop discharge_all enforce_budget preflight_stage plan_stage construct_stage
    accept_execution execute_stage accept_verification verify_stage apply_release release_stage
    safety_stage review_stage provenance_stage promotion_stage on_budget rank
    EpistemicStatus-discrete evidence_cap highest strongest same_status assign_with_cap assign
    TaskMode-discrete type_name
status_refused = refl

status_hurried : (run setting hurried).0.artifact.status ≡ partial
unfolding run decide strip update_node put_edge active_ids ◌>>=◌ Exec.◌>>=◌ node_at record_event
    insert_node add_node insert_edge add_edge close_node all_evidence link_all link_counterevidence
    discharge defer refute checkpoint add_evidence log enter advance terminal policy_event add_item
    add_evidence_all add_obligation apply_obligation_results add_runtime_obligations extend set_root
    persist stop discharge_all enforce_budget preflight_stage plan_stage construct_stage
    accept_execution execute_stage accept_verification verify_stage apply_release release_stage
    safety_stage review_stage provenance_stage promotion_stage on_budget rank
    EpistemicStatus-discrete evidence_cap highest strongest same_status assign_with_cap assign
    TaskMode-discrete type_name
status_hurried = refl

run-Gated_example : Gated (run setting task).0
run-Gated_example = run-Gated setting task is_released

run-Audited_example : Audited setting (run setting unsafe).0
run-Audited_example = run-Audited setting unsafe

run-Wired_example : Wired (run setting unsafe).0.world.graph
run-Wired_example = run-Wired setting unsafe

run-Conserved_example :
    Conserved (from_task uuid unsafe (before setting)).0 (run setting unsafe).0.world
run-Conserved_example = run-Conserved setting unsafe

uuid_injective : (j k : ℕ) → uuid j ≡ uuid k → j ≡ k
uuid_injective zero zero e = refl
uuid_injective zero (suc zero) e = cc
uuid_injective zero (suc (suc k)) e = cc
uuid_injective (suc zero) zero e = cc
uuid_injective (suc (suc j)) zero e = cc
uuid_injective (suc j) (suc k) e = ap suc (uuid_injective j k cc)

setting-Persists : Persists setting
setting-Persists = record { reports = λ g w. (0, refl); writes = λ g w. refl; saves = λ r. refl }

hurried-Buildable : Buildable hurried
unfolding strip
hurried-Buildable = record {
  intent = refl;
  assumptions = tt;
  conditions = (refl, tt);
  initial = tt;
}

run-IsFinal_example :
    ((run setting hurried).1 ≡ ok tt) × (is_terminal (run setting hurried).0.artifact.status ≡ true)
run-IsFinal_example = run-IsFinal setting uuid_injective setting-Persists hurried hurried-Buildable

-- A record with one claim that is fit for release.
abbrev ready : ArtifactRecord
ready = record (new_record "x") {
  claims =
      record {
        requested_status = execution_verified;
        assigned_status = execution_verified;
        evidence = record { kind = "execution"; summary = "it ran" } ∷ [];
        missing_obligations = [];
      }
      ∷ [];
}

abbrev permission : PolicyDecision
permission = record {
  allowed = true;
  phase = release;
  policy_id = "p";
  reasons = [];
  warnings = no_audit_root ∷ [];
  required_approvals = [];
}

is_permitted : evaluate_release (λ t. t) policy task ready ≡ ok permission
unfolding evaluate_release decide TaskMode-discrete strongest evidence_cap highest rank
is_permitted = refl

evaluate_release-Permitted_example : Permitted (λ t. t) policy task ready
evaluate_release-Permitted_example =
    evaluate_release-Permitted (λ t. t) policy task ready is_permitted refl
