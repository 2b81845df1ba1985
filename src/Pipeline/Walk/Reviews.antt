-- ===== src/Pipeline/Walk/Reviews.antt =====
-- The stages from the verification up to the promotion gate, walked through.
use nexus_u.Prelude.{String, not, ◌&&◌, refl, List, [], ◌∷◌, ◌++◌}
use nexus_u.Claims.{Claim, same_status, kernel_verified}
use nexus_u.Obligations.Exec.{World}
use nexus_u.Obligations.Operations.Steps.{Stepwise, Steps-discharge, Steps-refute}
use nexus_u.Policy.{is_empty}
use nexus_u.Policy.Decision.{PolicyDecision}
use nexus_u.StateMachine.{rejected, partial}
use nexus_u.Task.{TaskSpec}
use nexus_u.Record.{AdapterResult}
use nexus_u.Pipeline.Exec.{in_adapter, in_policy, Run, Pipe, ◌>>=◌, edit, Adapter, Setting}
use nexus_u.Pipeline.Reviews.{
  accept_verification, verify_stage, apply_release, release_stage, safety_stage, shortcut_taken,
  review_stage, provenance_stage,
}
use nexus_u.Pipeline.Main.{is_terminal}
use nexus_u.Pipeline.Walk.{
  Walk, Walks, Walks-if, Walks-return, Walks-artifact, Walks-graph, Walks-edit, Walks-call,
  Walks-on_graph, Walks-extend, Walks-extend_new,
}
use nexus_u.Pipeline.Walk.Parts.{
  Walks-then, Walks-advance, Walks-policy_event, Walks-add_item, Walks-add_evidence_all,
  Walks-add_obligation,
}
use nexus_u.Pipeline.Walk.Stages.{Walks-refuse, Walks-discharge_all, Walks-output}

module _ {s : Setting} (task : TaskSpec) {R : Run → Run → Type 0} {G : World → World → Type 0}
    (walk : Walk s R G) (stepwise : Stepwise s.uuid G) where
  step :
      {A B : Type 0} {m : Pipe A} {f : A → Pipe B}
      → Walks R m
      → ((a : A) → Walks R (f a))
      → Walks R (m >>= f)
  step h k = Walks-then walk stepwise h k

  Walks-claims : (c : Claim) → Walks R (edit (λ a. record a { claims = a.claims ++ c ∷ [] }))
  Walks-claims c = Walks-edit walk.quiet _ (record {
    status_kept = λ a. refl;
    events_kept = λ a. refl;
    decisions_kept = λ a. refl;
    released_kept = λ a. refl;
  })

  Walks-accept_verification :
      (c : Claim) (x : String) (ids : List String) → Walks R (accept_verification s task c x ids)
  unfolding accept_verification
  Walks-accept_verification c x ids =
      step (Walks-on_graph walk.quiet (Steps-discharge stepwise x ids _)) (λ _.
        step (Walks-graph walk.quiet) (λ g.
          step
            (Walks-if (same_status c.assigned_status kernel_verified)
              (Walks-discharge_all task walk stepwise _ ids _) (Walks-return walk.quiet tt))
            (λ _. Walks-advance walk stepwise _ _)))

  pub Walks-verify_stage :
      (adapter : Adapter) (c : AdapterResult) → Walks R (verify_stage s task adapter c)
  unfolding verify_stage is_terminal
  Walks-verify_stage adapter c =
      step (Walks-call s walk.quiet in_adapter (adapter.verify task c)) (λ d.
        step (Walks-output task walk stepwise d.output) (λ _.
          step (Walks-extend s walk.quiet d.obligations) (λ _. step (Walks-claims _) (λ _.
            step (Walks-artifact walk.quiet) (λ a.
              step (Walks-add_obligation walk stepwise _ _ _ _) (λ x.
                step (Walks-add_evidence_all walk stepwise d.evidence _) (λ ids.
                  Walks-if (d.success && not (is_empty ids)) (Walks-accept_verification _ x ids) (
                    step (Walks-extend_new s walk.quiet _)
                      (λ _. Walks-refuse task walk stepwise _ _ _ _ partial _ refl)))))))))

  Walks-apply_release : (d : PolicyDecision) (x e : String) → Walks R (apply_release s task d x e)
  unfolding apply_release is_terminal
  Walks-apply_release d x e =
      Walks-if d.allowed
        (step (Walks-on_graph walk.quiet (Steps-discharge stepwise x _ _))
          (λ _. Walks-advance walk stepwise _ _))
        (step (Walks-on_graph walk.quiet (Steps-refute stepwise x _ _)) (λ _.
          step (Walks-extend s walk.quiet _)
            (λ _. Walks-refuse task walk stepwise _ _ _ _ rejected _ refl)))

  pub Walks-release_stage : Walks R (release_stage s task)
  unfolding release_stage
  Walks-release_stage = step (Walks-add_obligation walk stepwise _ _ _ _) (λ x.
      step (Walks-artifact walk.quiet) (λ a. step (Walks-call s walk.quiet in_policy _) (λ d.
        step (Walks-policy_event walk stepwise d)
          (λ _. step (Walks-add_item walk stepwise _ _) (λ e. Walks-apply_release d x e)))))

  pub Walks-safety_stage : Walks R (safety_stage s task)
  unfolding safety_stage is_terminal
  Walks-safety_stage = step (Walks-add_obligation walk stepwise _ _ _ _) (λ x.
      step (Walks-add_item walk stepwise _ _) (λ e.
        Walks-if (task.flag "force_safety_failure")
          (step (Walks-on_graph walk.quiet (Steps-refute stepwise x _ _)) (λ _.
            step (Walks-extend s walk.quiet _)
              (λ _. Walks-refuse task walk stepwise _ _ _ _ rejected _ refl)))
          (step (Walks-on_graph walk.quiet (Steps-discharge stepwise x _ _))
            (λ _. Walks-advance walk stepwise _ _))))

  pub Walks-review_stage : Walks R (review_stage s task)
  unfolding review_stage is_terminal
  Walks-review_stage = step (Walks-artifact walk.quiet) (λ a.
      Walks-if (shortcut_taken s task a)
        (step (Walks-extend s walk.quiet _)
          (λ _. Walks-refuse task walk stepwise _ _ _ _ rejected _ refl))
        (step (Walks-add_item walk stepwise _ _) (λ e. step (Walks-graph walk.quiet) (λ g.
          step (Walks-discharge_all task walk stepwise _ _ _)
            (λ _. Walks-advance walk stepwise _ _)))))

  pub Walks-provenance_stage : Walks R (provenance_stage s task)
  unfolding provenance_stage
  Walks-provenance_stage = step (Walks-add_obligation walk stepwise _ _ _ _) (λ x.
      step (Walks-add_item walk stepwise _ _)
        (λ e. Walks-on_graph walk.quiet (Steps-discharge stepwise x _ _)))
