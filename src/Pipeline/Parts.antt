-- ===== src/Pipeline/Parts.antt =====
-- The helper methods of `Pipeline` and `_persist`. Of the dictionaries that become evidence nodes
-- the texts are kept.
use nexus_u.Prelude.{
  ℕ, String, Bool, true, false, not, Option, none, some, List, [], ◌∷◌, ◌++◌, ok, err, contains,
  str_eq, ◌==◌, if◌then◌else◌,
}
use nexus_u.Prelude
use nexus_u.Audit.{append}
use nexus_u.Claims.{Evidence}
use nexus_u.Obligations.Text.{join}
use nexus_u.Obligations.Graph.{ObligationKind, requirement, opened, Severity, high, text, Metadata}
use nexus_u.Obligations.Operations.{given, add_node, defer, discharge, refute, checkpoint}
use nexus_u.Obligations.Operations.Evidence.{add_evidence}
use nexus_u.Obligations.Operations.FromTask.{node, kind_of, severity_of}
use nexus_u.Policy.Decision.{PolicyDecision, Phase, preflight, release}
use nexus_u.StateMachine.{RunStatus, transition}
use nexus_u.StateMachine
use nexus_u.Record.{at_status, at_gate, StageEvent, RawResult}
use nexus_u.Pipeline.Exec.{
  Failure, in_transition, in_persistence, finished, failed, Run, Pipe, return, leave, ◌>>=◌,
  on_graph, artifact, graph, edit, Setting,
}

module _ (s : Setting) where
  abbrev pub recorded : StageEvent → Run → Run
  recorded e r = record r {
    artifact = record r.artifact { events = r.artifact.events ++ e ∷ [] };
    chain = append s.hashing e r.chain;
  }

  -- `record.events.append(event)` and `chain.append(event)`
  unfoldable pub log : StageEvent → Pipe Unit
  log e r = (recorded e r, ok tt)

  -- `record.status = target`, and the event of it.
  unfoldable pub enter : RunStatus → String → String → Pipe Unit
  enter target tag message = do
    _ ← edit (λ a. record a { status = target })
    log (record { stage = at_status target; status = tag; message = message })

  abbrev pub entered : StateMachine.Outcome → RunStatus → RunStatus → String → String → Pipe Unit
  entered (err e) current target tag message = leave (failed (in_transition current target))
  entered (ok next) current target tag message = enter next tag message

  -- `_advance` and `_terminal`, which differ in the status of the event.
  unfoldable pub advance : RunStatus → String → Pipe Unit
  unfolding transition
  advance target message = do
    a ← artifact
    entered (transition a.status target) a.status target "ok" message

  unfoldable pub terminal : RunStatus → String → Pipe Unit
  unfolding transition
  terminal target message = do
    a ← artifact
    entered (transition a.status target) a.status target "terminal" message

  abbrev pub phase_gate : Phase → String
  phase_gate preflight = "POLICY_PREFLIGHT"
  phase_gate release = "POLICY_RELEASE"

  abbrev pub phase_name : Phase → String
  phase_name preflight = "preflight"
  phase_name release = "release"

  abbrev pub policy_message : PolicyDecision → String
  policy_message d =
      join "Policy " (
        join d.policy_id
          (join (if d.allowed then " allowed " else " denied ") (phase_name d.phase)))

  unfoldable pub policy_event : PolicyDecision → Pipe Unit
  policy_event d = do
    _ ← edit (λ a. record a { policy_decisions = a.policy_decisions ++ d ∷ [] })
    log (record {
      stage = at_gate (phase_gate d.phase);
      status = if d.allowed then "allow" else "deny";
      message = policy_message d;
    })

  abbrev pub described : String → String → Metadata
  described kind summary = ("kind", text kind) ∷ ("summary", text summary) ∷ []

  unfoldable pub add_item : Metadata → String → Pipe String
  add_item raw source = on_graph (add_evidence s.uuid s.str_of raw source)

  unfoldable pub add_evidence_all : List Evidence → String → Pipe (List String)
  add_evidence_all [] source = return []
  add_evidence_all (e ∷ es) source = do
    x ← add_item (described e.kind e.summary) source
    xs ← add_evidence_all es source
    return (x ∷ xs)

  -- `graph.add_node` with the defaults of its other parameters.
  unfoldable pub add_obligation : String → ObligationKind → Severity → String → Pipe String
  add_obligation statement kind severity source =
      on_graph (add_node s.uuid (node s.uuid statement kind opened severity true source []))

  -- An unknown text stands for the default.
  abbrev pub parsed : {A : Type 0} → (String → Option A) → A → Option String → A
  parsed parse default none = default
  parsed parse default (some t) = given (parse t) default

  unfoldable pub apply_failed : RawResult → ObligationKind → Severity → String → Pipe Unit
  apply_failed raw kind severity source = do
    remediation ←
        add_obligation (join "Remediate failed obligation: " raw.result_statement) kind severity
          source
    on_graph (
        defer s.uuid remediation "Delivery check failed"
          ("Correct the candidate" ∷ "Re-run the failed check" ∷ []))

  unfoldable pub apply_result : RawResult → String → Pipe Unit
  unfolding kind_of severity_of
  apply_result raw source = do
    let kind = parsed kind_of requirement raw.result_kind
    let severity = parsed severity_of high raw.result_severity
    x ← on_graph (
        add_node s.uuid (
          node s.uuid raw.result_statement kind opened severity (given raw.result_blocking true)
            source []))
    e ← add_item (described "delivery_check" (given raw.result_summary raw.result_statement)) source
    if raw.result_success
        then on_graph (discharge s.uuid x (e ∷ []) "External delivery check passed")
        else (do
          _ ← on_graph (refute s.uuid x (e ∷ []) "External delivery check failed")
          apply_failed raw kind severity source)

  unfoldable pub apply_obligation_results : List RawResult → String → Pipe Unit
  apply_obligation_results [] source = return tt
  apply_obligation_results (raw ∷ rest) source =
      let later = apply_obligation_results rest source in
      if str_eq raw.result_statement "" then later else (do _ ← apply_result raw source; later)

  -- The empty reason stands for none.
  unfoldable pub add_runtime_obligations :
      List String → String → Severity → String → Pipe (List String)
  add_runtime_obligations [] source severity reason = return []
  add_runtime_obligations (statement ∷ rest) source severity reason = do
    x ← add_obligation statement requirement severity source
    _ ← if str_eq reason "" then return tt else on_graph (defer s.uuid x reason [])
    xs ← add_runtime_obligations rest source severity reason
    return (x ∷ xs)

  -- `record.unresolved_obligations.extend(items)`
  unfoldable pub extend : List String → Pipe Unit
  extend items = edit (λ a. record a { unresolved_obligations = a.unresolved_obligations ++ items })

  abbrev pub add_new : List String → List String → List String
  add_new [] known = known
  add_new (item ∷ items) known =
      add_new items (if contains item known then known else known ++ item ∷ [])

  -- Only the items that are not yet there.
  unfoldable pub extend_new : List String → Pipe Unit
  extend_new items =
      edit (λ a. record a { unresolved_obligations = add_new items a.unresolved_obligations })

  abbrev pub call : {E A : Type 0} → (E → Failure) → Prelude.Result E A → Pipe A
  call raised (ok a) = return a
  call raised (err e) = leave (failed (raised e))

  unfoldable pub set_root : Pipe Unit
  set_root r = (record r { artifact = record r.artifact { audit_root = some r.chain.head } }, ok tt)

  unfoldable pub persist : Pipe Unit
  persist = do
    g ← graph
    recommended ← call in_persistence (s.report g)
    _ ←
        if recommended == 0
        then return tt
        else on_graph (checkpoint s.uuid "obligation_routes_recommended")
    g ← graph
    _ ← call in_persistence (s.write_graph g)
    _ ← set_root
    λ r. call in_persistence (s.save r) r

  -- `return record, self._persist(record, chain, graph)` after the terminal event.
  unfoldable pub stop : RunStatus → String → Pipe Unit
  stop target message = do _ ← terminal target message; _ ← persist; leave finished
