-- ===== src/Pipeline/Walk/Stages.antt =====
-- The stages of a run up to the execution of the artifact, walked through.
use nexus_u.Prelude.{ℕ, String, true, ◌≡◌, refl, Option, none, some, List, [], ◌∷◌}
use nexus_u.Obligations.Exec.{World}
use nexus_u.Obligations.Graph.{ObligationNode, Severity, Relation, refines, depends_on, supports}
use nexus_u.Obligations.Operations.{add_edge}
use nexus_u.Obligations.Operations.Steps.{
  Stepwise, Steps-add_edge, Steps-checkpoint, Steps-add_node, Steps-discharge, Steps-refute,
}
use nexus_u.Resources.{BudgetFault}
use nexus_u.StateMachine.{RunStatus, rejected, partial}
use nexus_u.Task.{TaskSpec}
use nexus_u.Record.{Output, AdapterResult}
use nexus_u.Pipeline.Exec.{in_adapter, Run, Pipe, ◌>>=◌, on_graph, edit, Adapter, Setting}
use nexus_u.Pipeline.Parts.{add_runtime_obligations, stop}
use nexus_u.Pipeline.Stages.{
  discharge_all, enforced, enforce_budget, preflight_stage, refine_intent, plan_stage,
  construct_stage, some_evidence, accept_execution, execute_stage,
}
use nexus_u.Pipeline.Main.{is_terminal}
use nexus_u.Pipeline.Stop.{Stopped-stop}
use nexus_u.Pipeline.Walk.{
  Walk, Walks, walks, walk_of, moves, move_of, Moves-bind, Walks-if, Walks-return, Walks-artifact,
  Walks-graph, Walks-edit, Walks-call, Walks-on_graph, Walks-persist, Walks-extend,
}
use nexus_u.Pipeline.Walk.Parts.{
  Walks-then, Walks-advance, Walks-terminal, Walks-policy_event, Walks-add_item,
  Walks-add_evidence_all, Walks-add_obligation, Walks-apply_obligation_results,
  Walks-add_runtime_obligations,
}

module _ {s : Setting} (task : TaskSpec) {R : Run → Run → Type 0} {G : World → World → Type 0}
    (walk : Walk s R G) (stepwise : Stepwise s.uuid G) where
  abbrev pub next :
      {A B : Type 0} {m : Pipe A} {f : A → Pipe B}
      → Walks R m
      → ((a : A) → Walks R (f a))
      → Walks R (m >>= f)
  next h k = Walks-then walk stepwise h k

  pub Walks-edge : (x y : String) (r : Relation) → Walks R (on_graph (add_edge s.uuid x y r []))
  Walks-edge x y r = Walks-on_graph walk.quiet (Steps-add_edge stepwise x y r [])

  pub Walks-stop :
      (t : RunStatus) (message : String) → is_terminal t ≡ true → Walks R (stop s t message)
  unfolding stop
  Walks-stop t message h =
      walks
        (move_of (
          Moves-bind walk.quiet (moves (walk_of (Walks-terminal walk stepwise t message))) (λ _.
            Moves-bind walk.quiet
              (moves (walk_of (Walks-persist s walk.quiet (Steps-checkpoint stepwise))))
              (λ _. moves walk.quiet.same))))
        (Stopped-stop s t message h)

  -- The statements that refuse a run and end it.
  pub Walks-refuse :
      (items : List String) (source : String) (severity : Severity) (reason : String)
      (t : RunStatus) (message : String)
      → is_terminal t ≡ true
      → Walks R (do _ ← add_runtime_obligations s items source severity reason; stop s t message)
  Walks-refuse items source severity reason t message h =
      next (Walks-add_runtime_obligations walk stepwise items source severity reason)
        (λ _. Walks-stop t message h)

  pub Walks-discharge_all :
      (xs es : List String) (reason : String) → Walks R (discharge_all s task xs es reason)
  unfolding discharge_all
  Walks-discharge_all [] es reason = Walks-return walk.quiet tt
  Walks-discharge_all (x ∷ xs) es reason =
      next (Walks-on_graph walk.quiet (Steps-discharge stepwise x es reason))
        (λ _. Walks-discharge_all xs es reason)

  Walks-enforced : (o : Option BudgetFault) → Walks R (enforced s task o)
  Walks-enforced none = Walks-return walk.quiet tt
  Walks-enforced (some m) = walks walk.quiet.same (λ r. tt)

  Walks-enforce_budget : (n : ℕ) → Walks R (enforce_budget s task n)
  unfolding enforce_budget
  Walks-enforce_budget n = next (Walks-artifact walk.quiet) (λ a. Walks-enforced _)

  pub Walks-preflight_stage : Walks R (preflight_stage s task)
  unfolding preflight_stage is_terminal
  Walks-preflight_stage = next (Walks-advance walk stepwise _ _) (λ _.
      next (Walks-advance walk stepwise _ _) (λ _.
        next (Walks-add_obligation walk stepwise _ _ _ _) (λ x.
          next (Walks-policy_event walk stepwise _) (λ _.
            next (Walks-add_item walk stepwise _ _) (λ e.
              Walks-if _ (Walks-on_graph walk.quiet (Steps-discharge stepwise x _ _)) (
                next (Walks-on_graph walk.quiet (Steps-refute stepwise x _ _)) (λ _.
                  next (Walks-extend s walk.quiet _)
                    (λ _. Walks-refuse _ _ _ _ rejected _ refl))))))))

  Walks-refine_intent :
      (x : String) (ns : List ObligationNode) → Walks R (refine_intent s task x ns)
  Walks-refine_intent x [] = Walks-return walk.quiet tt
  Walks-refine_intent x (n ∷ ns) =
      next (Walks-edge x n.node_id refines) (λ _. Walks-return walk.quiet tt)

  pub Walks-plan_stage : Walks R (plan_stage s task)
  unfolding plan_stage
  Walks-plan_stage = next (Walks-on_graph walk.quiet (Steps-add_node stepwise _ refl)) (λ x.
      next (Walks-graph walk.quiet) (λ g. next (Walks-refine_intent x _) (λ _.
        next (Walks-add_obligation walk stepwise _ _ _ _) (λ y.
          next (Walks-edge y x depends_on) (λ _. next (Walks-advance walk stepwise _ _) (λ _.
            next (Walks-advance walk stepwise _ _) (λ _.
              next (Walks-advance walk stepwise _ _) (λ _.
                next (Walks-advance walk stepwise _ _) (λ _.
                  next (Walks-advance walk stepwise _ _)
                    (λ _. Walks-return walk.quiet (x, y)))))))))))

  pub Walks-output : (o : Output) → Walks R (edit (λ a. record a { output = o }))
  Walks-output o = Walks-edit walk.quiet _ (record {
    status_kept = λ a. refl;
    events_kept = λ a. refl;
    decisions_kept = λ a. refl;
    released_kept = λ a. refl;
  })

  pub Walks-construct_stage :
      (adapter : Adapter) (spec_id : String) → Walks R (construct_stage s task adapter spec_id)
  unfolding construct_stage is_terminal
  Walks-construct_stage adapter spec_id =
      next (Walks-call s walk.quiet in_adapter (adapter.construct task)) (λ c.
        Walks-if c.success
          (next (Walks-output c.output) (λ _. next (Walks-add_item walk stepwise _ _) (λ e.
            next (Walks-edge e spec_id supports) (λ _.
              next (Walks-advance walk stepwise _ _)
                (λ _. next (Walks-enforce_budget 0) (λ _. Walks-return walk.quiet c))))))
          (next (Walks-extend s walk.quiet c.obligations) (λ _.
            next (Walks-add_runtime_obligations walk stepwise _ _ _ _)
              (λ _. next (Walks-stop rejected _ refl) (λ _. Walks-return walk.quiet c)))))

  Walks-some_evidence : (ids : List String) → Walks R (some_evidence s task ids)
  Walks-some_evidence [] =
      next (Walks-add_item walk stepwise _ _) (λ e. Walks-return walk.quiet (e ∷ []))
  Walks-some_evidence (x ∷ xs) = Walks-return walk.quiet (x ∷ xs)

  Walks-accept_execution :
      (c : AdapterResult) (x : String) (ids : List String)
      → Walks R (accept_execution s task c x ids)
  unfolding accept_execution
  Walks-accept_execution c x ids = next (Walks-some_evidence ids) (λ es.
      next (Walks-on_graph walk.quiet (Steps-discharge stepwise x es _)) (λ _.
        next (Walks-graph walk.quiet) (λ g. next (Walks-discharge_all _ es _) (λ _.
          next (Walks-advance walk stepwise _ _)
            (λ _. next (Walks-enforce_budget 1) (λ _. Walks-return walk.quiet c))))))

  pub Walks-execute_stage :
      (adapter : Adapter) (c : AdapterResult) (x : String)
      → Walks R (execute_stage s task adapter c x)
  unfolding execute_stage is_terminal
  Walks-execute_stage adapter c x =
      next (Walks-call s walk.quiet in_adapter (adapter.execute task c)) (λ d.
        next (Walks-output d.output) (λ _.
          next (Walks-add_evidence_all walk stepwise d.evidence _) (λ ids.
            next (Walks-apply_obligation_results walk stepwise _ _) (λ _.
              Walks-if d.success (Walks-accept_execution d x ids) (
                next (Walks-extend s walk.quiet d.obligations) (λ _.
                  next (Walks-add_runtime_obligations walk stepwise _ _ _ _)
                    (λ _. next (Walks-stop partial _ refl) (λ _. Walks-return walk.quiet d))))))))
