-- ===== src/Pipeline/Released.antt =====
-- What a released run has behind it.
use nexus_u.Prelude.{
  ℕ, String, Bool, true, false, ◌≡◌, refl, sym, ap, ◌∙◌, List, [], ◌∷◌, map, ok, err, if◌then◌else◌,
  Bool-cases, inl, inr,
}
use nexus_u.Prelude
use nexus_u.Obligations.Graph.{ObligationGraph}
use nexus_u.Obligations.Conservation.{ConservationError}
use nexus_u.Obligations.Exec.{World}
use nexus_u.Obligations.Exec
use nexus_u.Obligations.Operations.{checkpoint, record_event}
use nexus_u.Obligations.Operations.Steps.{steps}
use nexus_u.Obligations.Operations.FromTask.{from_task}
use nexus_u.Obligations.Promotion.Allowed.{Promotable, promotion_allowed-Promotable}
use nexus_u.StateMachine.{partial}
use nexus_u.Task.{TaskSpec}
use nexus_u.Record.{StageEvent, AdapterResult}
use nexus_u.Pipeline.Exec.{
  Failure, finished, budget_exceeded, failed, Run, Outcome, Pipe, ◌>>=◌, graph_outcome, on_graph,
  graph, Adapter, Setting,
}
use nexus_u.Pipeline.Parts.{log, persist, stop, call, extend_new}
use nexus_u.Pipeline.Body.{release, blocking_statements, promotion_stage, body}
use nexus_u.Pipeline.Reviews.{
  verify_stage, release_stage, safety_stage, review_stage, provenance_stage,
}
use nexus_u.Pipeline.Main.{before, opening, settle, started, run}
use nexus_u.Pipeline.Stop.{anything}
use nexus_u.Pipeline.Walk.{
  Walk, Walks, walk_of, Walks-bind, Walks-call, Walks-graph, Walks-persist, Walks-extend_new,
}
use nexus_u.Pipeline.Walk.Parts.{Walks-log}
use nexus_u.Pipeline.Walk.Stages.{
  Walks-preflight_stage, Walks-plan_stage, Walks-construct_stage, Walks-execute_stage,
}
use nexus_u.Pipeline.Walk.Reviews.{
  Walks-verify_stage, Walks-release_stage, Walks-safety_stage, Walks-review_stage,
  Walks-provenance_stage,
}
use nexus_u.Pipeline.Walk.Gate.{Walks-on_budget, Walks-on_failure}
use nexus_u.Pipeline.Secured.{
  Gated, Secured, SameRelease, unreleasing, same_place, Gated-later, Secures, Secured-of,
  Secures-bind, Secures-stop, Secures-release,
}

module _ (s : Setting) (task : TaskSpec) where
  walk : Walk s SameRelease (λ w w'. Unit)
  walk = unreleasing s

  -- What a call returned, and that the run is as it was.
  called :
      {E A : Type 0} (raised : E → Failure) (p : Prelude.Result E A) (a : A) (r r' : Run)
      → call s raised p r ≡ (r', ok a)
      → (p ≡ ok a) × (r' ≡ r)
  called raised (ok b) a r r' e = (cc, cc)
  called raised (err b) a r r' e = absurd cc

  -- What follows the gate's event.
  Secures-gate :
      (passed : Bool) (g : ObligationGraph) (errors : List ConservationError)
      → (passed ≡ true → Promotable "RELEASED" g)
      → (r : Run) → r.artifact.released ≡ false
      → r.world.graph ≡ g
      → Secures Gated
          (if passed then release s task else (do
            _ ← extend_new s (blocking_statements s task g.nodes)
            _ ← extend_new s (map s.error_text errors)
            stop s partial "Obligation promotion gate blocked release"))
          r
  Secures-gate true g errors h r f e =
      Secures-release s task g (h refl) r f (ap (λ g. g.nodes) e) (ap (λ g. g.edges) e)
  Secures-gate false g errors h r f e =
      Secures-bind s (Walks-extend_new s walk.quiet _) r f (λ _ r₁ _ f₁.
        Secures-bind s (Walks-extend_new s walk.quiet _) r₁ f₁
          (λ _ r₂ _ f₂. Secures-stop s partial _ r₂ f₂))

  graph_read :
      (g : ObligationGraph) (r r' : Run) → graph r ≡ (r', ok g) → (r' ≡ r) × (r.world.graph ≡ g)
  graph_read g r r' e = (cc, cc)

  logged : (event : StageEvent) (r r' : Run) → log s event r ≡ (r', ok tt) → r'.world ≡ r.world
  unfolding log
  logged event r r' e = ap (λ p. p.0.world) (sym e)

  Secures-promotion_stage :
      (r : Run) → r.artifact.released ≡ false → Secures Gated (promotion_stage s task) r
  unfolding promotion_stage
  Secures-promotion_stage r f = Secures-bind s (Walks-graph walk.quiet) r f (λ g r₁ e₁ f₁.
      Secures-bind s (Walks-call s walk.quiet _ _) r₁ f₁ (λ passed r₂ e₂ f₂.
        Secures-bind s (Walks-call s walk.quiet _ _) r₂ f₂ (λ errors r₃ e₃ f₃.
          Secures-bind s (Walks-log walk (anything s.uuid) _) r₃ f₃ (λ _ r₄ e₄ f₄.
            let (same₁, read) = graph_read g r r₁ e₁ in
            let (allowed_, same₂) = called _ _ passed r₁ r₂ e₂ in
            let (_, same₃) = called _ _ errors r₂ r₃ e₃ in
            Secures-gate passed g errors
              (λ t. promotion_allowed-Promotable "RELEASED" g (allowed_ ∙ ap ok t)) r₄ f₄
              (ap (λ w. w.graph) (logged _ r₃ r₄ e₄)
                ∙ ap (λ r. r.world.graph) (same₃ ∙ same₂ ∙ same₁)
                ∙ read)))))

  Secures-reviews :
      (adapter : Adapter) (d : AdapterResult) (r : Run)
      → r.artifact.released ≡ false
      → Secures Gated
          (do
            _ ← verify_stage s task adapter d
            _ ← release_stage s task
            _ ← safety_stage s task
            _ ← review_stage s task
            _ ← provenance_stage s task
            promotion_stage s task)
          r
  Secures-reviews adapter d r f =
      let free = anything s.uuid in
      Secures-bind s (Walks-verify_stage task walk free adapter d) r f (λ _ r₁ _ f₁.
        Secures-bind s (Walks-release_stage task walk free) r₁ f₁ (λ _ r₂ _ f₂.
          Secures-bind s (Walks-safety_stage task walk free) r₂ f₂ (λ _ r₃ _ f₃.
            Secures-bind s (Walks-review_stage task walk free) r₃ f₃ (λ _ r₄ _ f₄.
              Secures-bind s (Walks-provenance_stage task walk free) r₄ f₄
                (λ _ r₅ _ f₅. Secures-promotion_stage r₅ f₅)))))

  pub Secures-body : (r : Run) → r.artifact.released ≡ false → Secures Gated (body s task) r
  unfolding body
  Secures-body r₀ f₀ =
      let free = anything s.uuid in
      Secures-bind s (Walks-preflight_stage task walk free) r₀ f₀ (λ _ r₁ _ f₁.
        Secures-bind s (Walks-plan_stage task walk free) r₁ f₁ (λ ids r₂ _ f₂.
          Secures-bind s (Walks-call s walk.quiet _ _) r₂ f₂ (λ adapter r₃ _ f₃.
            Secures-bind s (Walks-construct_stage task walk free adapter ids.0) r₃ f₃ (λ c r₄ _ f₄.
              Secures-bind s (Walks-execute_stage task walk free adapter c ids.1) r₄ f₄
                (λ d r₅ _ f₅. Secures-reviews adapter d r₅ f₅)))))

  Gated-persist : (r : Run) → Gated r → Gated (persist s r).0
  unfolding checkpoint record_event
  Gated-persist r h =
      Gated-later r _ (walk_of (Walks-persist s same_place (λ op. steps (λ w. (refl, refl)))) r) h

  unreleased :
      (m : Pipe Unit) (r : Run)
      → Walks SameRelease m
      → r.artifact.released ≡ false
      → ((do _ ← m; persist s) r).0.artifact.released ≡ false
  unreleased m r w h =
      let last = Walks-persist s walk.quiet (λ op. steps (λ w. tt)) in
      walk_of (Walks-bind walk.quiet w (λ _. last)) r ∙ h

  Gated-settle :
      (p : Run × Outcome Unit)
      → Secured Gated p
      → (settle s p).0.artifact.released ≡ true
      → Gated (settle s p).0
  Gated-settle (r, ok a) g t = Gated-persist r g
  Gated-settle (r, err finished) f t = absurd cc
  Gated-settle (r, err (budget_exceeded m)) f t =
      let h = unreleased _ r (Walks-on_budget walk (anything s.uuid) m) f in absurd cc
  Gated-settle (r, err (failed e)) f t =
      let h = unreleased _ r (Walks-on_failure walk (anything s.uuid) e) f in absurd cc

  Gated-started :
      (p : World × Exec.Outcome Unit)
      → (started s task (graph_outcome (opening s (before s)) p)).0.artifact.released ≡ true
      → Gated (started s task (graph_outcome (opening s (before s)) p)).0
  Gated-started (w, ok a) t =
      Gated-settle (body s task (opening s w)) (Secured-of (Secures-body (opening s w) refl)) t
  Gated-started (w, err e) t = absurd cc

  -- A run whose record says that it is released ends in the status of a release, and the graph at
  -- its promotion gate, whose nodes and edges are those of the final graph, was promotable: it
  -- passes the audit and has evidence, no unresolved blocking obligation of high or critical
  -- severity, and settled nodes of every kind that a release requires.
  pub run-Gated : (run s task).0.artifact.released ≡ true → Gated (run s task).0
  unfolding run on_graph
  run-Gated t = Gated-started (from_task s.uuid task (before s)) t
