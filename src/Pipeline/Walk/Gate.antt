-- ===== src/Pipeline/Walk/Gate.antt =====
-- The promotion gate, the body and the handlers of its exceptions, walked through.
use nexus_u.Prelude.{true, refl}
use nexus_u.Obligations.Exec.{World}
use nexus_u.Obligations.Operations.Steps.{Stepwise, Steps-checkpoint, Steps-defer, Steps-escalate}
use nexus_u.Resources.{BudgetFault}
use nexus_u.StateMachine.{partial}
use nexus_u.Task.{TaskSpec}
use nexus_u.Pipeline.Exec.{in_adapter, Failure, Run, Pipe, ◌>>=◌, Setting}
use nexus_u.Pipeline.Body.{release, promotion_stage, body}
use nexus_u.Pipeline.Main.{is_terminal, may_stop_partial, on_budget, on_failure}
use nexus_u.Pipeline.Walk.{
  Walk, Walks, walks, Walks-if, Walks-return, Walks-artifact, Walks-graph, Walks-edit, Walks-call,
  Walks-on_graph, Walks-extend, Walks-extend_new,
}
use nexus_u.Pipeline.Walk.Parts.{
  Walks-then, Walks-log, Walks-enter, Walks-advance, Walks-terminal, Walks-add_obligation,
}
use nexus_u.Pipeline.Walk.Stages.{
  Walks-stop, Walks-preflight_stage, Walks-plan_stage, Walks-construct_stage, Walks-execute_stage,
}
use nexus_u.Pipeline.Walk.Reviews.{
  Walks-verify_stage, Walks-release_stage, Walks-safety_stage, Walks-review_stage,
  Walks-provenance_stage,
}

module _ {s : Setting} {R : Run → Run → Type 0} {G : World → World → Type 0} (walk : Walk s R G)
    (stepwise : Stepwise s.uuid G) where
  step :
      {A B : Type 0} {m : Pipe A} {f : A → Pipe B}
      → Walks R m
      → ((a : A) → Walks R (f a))
      → Walks R (m >>= f)
  step h k = Walks-then walk stepwise h k

  pub Walks-on_budget : (fault : BudgetFault) → Walks R (on_budget s fault)
  unfolding on_budget
  Walks-on_budget fault = step (Walks-extend s walk.quiet _) (λ _.
      step (Walks-add_obligation walk stepwise _ _ _ _) (λ x.
        step (Walks-on_graph walk.quiet (Steps-defer stepwise x _ _)) (λ _.
          step (Walks-artifact walk.quiet) (λ a.
            Walks-if (may_stop_partial a.status) (Walks-terminal walk stepwise _ _)
              (Walks-enter walk stepwise _ _ _)))))

  pub Walks-on_failure : (f : Failure) → Walks R (on_failure s f)
  unfolding on_failure
  Walks-on_failure f = step (Walks-extend s walk.quiet _) (λ _.
      step (Walks-add_obligation walk stepwise _ _ _ _) (λ x.
        step (Walks-on_graph walk.quiet (Steps-escalate stepwise x _ _)) (λ _.
          step (Walks-artifact walk.quiet) (λ a.
            Walks-if (is_terminal a.status) (Walks-return walk.quiet tt)
              (Walks-enter walk stepwise _ _ _)))))

  -- Where the relation holds across the release too.
  module _ (task : TaskSpec)
      (releasing : (r : Run)
        → R r (record r { artifact = record r.artifact { released = true } })) where
    Walks-release : Walks R (release s task)
    Walks-release = step (Walks-advance walk stepwise _ _) (λ _.
        step
          (Walks-edit walk.quiet _ (record {
            status_kept = λ a. refl;
            events_kept = λ a. refl;
            decisions_kept = λ a. refl;
            released_kept = λ a. refl;
          }))
          (λ _. step (Walks-advance walk stepwise _ _) (λ _. step (walks releasing (λ r. tt)) (λ _.
            step (Walks-advance walk stepwise _ _)
              (λ _. Walks-on_graph walk.quiet (Steps-checkpoint stepwise _))))))

    Walks-promotion_stage : Walks R (promotion_stage s task)
    unfolding promotion_stage is_terminal
    Walks-promotion_stage = step (Walks-graph walk.quiet) (λ g.
        step (Walks-call s walk.quiet _ _) (λ passed. step (Walks-call s walk.quiet _ _) (λ errors.
          step (Walks-log walk stepwise _) (λ _. Walks-if passed Walks-release (
            step (Walks-extend_new s walk.quiet _) (λ _.
              step (Walks-extend_new s walk.quiet _)
                (λ _. Walks-stop task walk stepwise partial _ refl)))))))

    pub Walks-body : Walks R (body s task)
    unfolding body
    Walks-body = step (Walks-preflight_stage task walk stepwise) (λ _.
        step (Walks-plan_stage task walk stepwise) (λ ids.
          step (Walks-call s walk.quiet in_adapter _) (λ adapter.
            step (Walks-construct_stage task walk stepwise adapter ids.0) (λ c.
              step (Walks-execute_stage task walk stepwise adapter c ids.1) (λ d.
                step (Walks-verify_stage task walk stepwise adapter d) (λ _.
                  step (Walks-release_stage task walk stepwise) (λ _.
                    step (Walks-safety_stage task walk stepwise) (λ _.
                      step (Walks-review_stage task walk stepwise) (λ _.
                        step (Walks-provenance_stage task walk stepwise)
                          (λ _. Walks-promotion_stage))))))))))
