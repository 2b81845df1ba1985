-- ===== src/Pipeline/Walk/Parts.antt =====
-- The helper methods of the pipeline, walked through.
use nexus_u.Prelude.{String, refl, List, [], ◌∷◌, ok, err, str_eq}
use nexus_u.Obligations.Exec.{World}
use nexus_u.Obligations.Graph.{ObligationKind, Severity, Metadata}
use nexus_u.Obligations.Operations.Evidence.{add_evidence}
use nexus_u.Obligations.Operations.Steps.{
  Stepwise, Steps-add_node, Steps-discharge, Steps-refute, Steps-defer,
}
use nexus_u.Claims.{Evidence}
use nexus_u.Policy.Decision.{PolicyDecision}
use nexus_u.StateMachine.{RunStatus, transition}
use nexus_u.StateMachine
use nexus_u.Record.{StageEvent, RawResult}
use nexus_u.Pipeline.Exec.{Run, Pipe, ◌>>=◌, Setting}
use nexus_u.Pipeline.Parts.{
  log, enter, entered, advance, terminal, policy_event, add_item, add_evidence_all, add_obligation,
  apply_failed, apply_result, apply_obligation_results, add_runtime_obligations,
}
use nexus_u.Pipeline.Walk.{
  Walk, Walks, walks, Walks-if, Walks-bind, Walks-return, Walks-artifact, Walks-failed,
  Walks-on_graph,
}

module _ {s : Setting} {R : Run → Run → Type 0} {G : World → World → Type 0} (walk : Walk s R G)
    (stepwise : Stepwise s.uuid G) where
  pub Walks-then :
      {A B : Type 0} {m : Pipe A} {f : A → Pipe B}
      → Walks R m
      → ((a : A) → Walks R (f a))
      → Walks R (m >>= f)
  Walks-then h k = Walks-bind walk.quiet h k

  pub Walks-log : (e : StageEvent) → Walks R (log s e)
  unfolding log
  Walks-log e = walks (λ r. walk.logged r e) (λ r. tt)

  pub Walks-enter : (t : RunStatus) (tag message : String) → Walks R (enter s t tag message)
  unfolding enter
  Walks-enter t tag message = Walks-then (walks (λ r. walk.moved r t) (λ r. tt)) (λ _. Walks-log _)

  Walks-entered :
      (o : StateMachine.Outcome) (current t : RunStatus) (tag message : String)
      → Walks R (entered s o current t tag message)
  Walks-entered (err e) current t tag message = Walks-failed walk.quiet _
  Walks-entered (ok next) current t tag message = Walks-enter next tag message

  pub Walks-advance : (t : RunStatus) (message : String) → Walks R (advance s t message)
  unfolding advance
  Walks-advance t message =
      Walks-then (Walks-artifact walk.quiet) (λ a. Walks-entered _ a.status t "ok" message)

  pub Walks-terminal : (t : RunStatus) (message : String) → Walks R (terminal s t message)
  unfolding terminal
  Walks-terminal t message =
      Walks-then (Walks-artifact walk.quiet) (λ a. Walks-entered _ a.status t "terminal" message)

  pub Walks-policy_event : (d : PolicyDecision) → Walks R (policy_event s d)
  unfolding policy_event
  Walks-policy_event d = Walks-then (walks (λ r. walk.decided r d) (λ r. tt)) (λ _. Walks-log _)

  pub Walks-add_item : (raw : Metadata) (source : String) → Walks R (add_item s raw source)
  unfolding add_item add_evidence
  Walks-add_item raw source = Walks-on_graph walk.quiet (Steps-add_node stepwise _ refl)

  pub Walks-add_evidence_all :
      (es : List Evidence) (source : String) → Walks R (add_evidence_all s es source)
  unfolding add_evidence_all
  Walks-add_evidence_all [] source = Walks-return walk.quiet []
  Walks-add_evidence_all (e ∷ es) source =
      Walks-then (Walks-add_item _ source) (λ x.
        Walks-then (Walks-add_evidence_all es source) (λ xs. Walks-return walk.quiet (x ∷ xs)))

  pub Walks-add_obligation :
      (statement : String) (kind : ObligationKind) (severity : Severity) (source : String)
      → Walks R (add_obligation s statement kind severity source)
  unfolding add_obligation
  Walks-add_obligation statement kind severity source =
      Walks-on_graph walk.quiet (Steps-add_node stepwise _ refl)

  Walks-apply_failed :
      (raw : RawResult) (kind : ObligationKind) (severity : Severity) (source : String)
      → Walks R (apply_failed s raw kind severity source)
  unfolding apply_failed
  Walks-apply_failed raw kind severity source =
      Walks-then (Walks-add_obligation _ _ _ _)
        (λ x. Walks-on_graph walk.quiet (Steps-defer stepwise x _ _))

  Walks-apply_result : (raw : RawResult) (source : String) → Walks R (apply_result s raw source)
  unfolding apply_result
  Walks-apply_result raw source =
      Walks-then (Walks-on_graph walk.quiet (Steps-add_node stepwise _ refl)) (λ x.
        Walks-then (Walks-add_item _ source) (λ e.
          Walks-if raw.result_success (Walks-on_graph walk.quiet (Steps-discharge stepwise x _ _)) (
            Walks-then (Walks-on_graph walk.quiet (Steps-refute stepwise x _ _))
              (λ _. Walks-apply_failed raw _ _ source))))

  pub Walks-apply_obligation_results :
      (raws : List RawResult) (source : String) → Walks R (apply_obligation_results s raws source)
  unfolding apply_obligation_results
  Walks-apply_obligation_results [] source = Walks-return walk.quiet tt
  Walks-apply_obligation_results (raw ∷ rest) source =
      Walks-if (str_eq raw.result_statement "") (Walks-apply_obligation_results rest source) (
        Walks-then (Walks-apply_result raw source)
          (λ _. Walks-apply_obligation_results rest source))

  pub Walks-add_runtime_obligations :
      (statements : List String) (source : String) (severity : Severity) (reason : String)
      → Walks R (add_runtime_obligations s statements source severity reason)
  unfolding add_runtime_obligations
  Walks-add_runtime_obligations [] source severity reason = Walks-return walk.quiet []
  Walks-add_runtime_obligations (statement ∷ rest) source severity reason =
      Walks-then (Walks-add_obligation _ _ _ _) (λ x.
        Walks-then
          (Walks-if (str_eq reason "") (Walks-return walk.quiet tt)
            (Walks-on_graph walk.quiet (Steps-defer stepwise x reason [])))
          (λ _.
            Walks-then (Walks-add_runtime_obligations rest source severity reason)
              (λ xs. Walks-return walk.quiet (x ∷ xs))))
