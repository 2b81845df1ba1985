-- ===== src/Pipeline/Ends.antt =====
-- Every run whose record can be written ends, and in a final status.
use nexus_u.Prelude.{
  ℕ, String, Bool, true, false, ◌≡◌, refl, sym, ap, ◌∙◌, none, some, List, [], ◌∷◌, ok, err, any,
  str_eq, ◌==◌, if◌then◌else◌, Bool-cases, inl, inr,
}
use nexus_u.Prelude
use nexus_u.Obligations.Text.{strip-nonempty, strip, strip_left, strip_right, is_space}
use nexus_u.Obligations.Graph.{ObligationGraph, ObligationKind, Severity, node_ids}
use nexus_u.Obligations.Exec.{World}
use nexus_u.Obligations.Exec
use nexus_u.Obligations.Operations.{checkpoint, record_event}
use nexus_u.Obligations.Operations.Fresh.{
  Fresh, KeepsFresh, freshening, HasNode, add_node-Returns, defer-Returns, escalate-Returns,
}
use nexus_u.Obligations.Operations.Steps.{Stepwise, steps_of}
use nexus_u.Obligations.Operations.Wired.{Wired, KeepsWired, wiring, empty_graph-Wired}
use nexus_u.Pipeline.Audited.{worlds}
use nexus_u.Obligations.Operations.Started.{Steps-from_task}
use nexus_u.Obligations.Operations.Builds.{Buildable, from_task-returns}
use nexus_u.Obligations.Operations.FromTask.{from_task}
use nexus_u.Resources.{
  BudgetFault, budget_text, wall_clock_exceeded, memory_exceeded, output_exceeded,
}
use nexus_u.StateMachine.{RunStatus, RunStatus-discrete, transition, allowed, partial}
use nexus_u.StateMachine
use nexus_u.Task.{TaskSpec}
use nexus_u.Pipeline.Exec.{
  Failure, in_persistence, finished, budget_exceeded, failed, Run, Outcome, Pipe, continue, return,
  ◌>>=◌, graph_outcome, on_graph, Setting,
}
use nexus_u.Pipeline.Parts.{log, enter, terminal, add_obligation, extend, call, set_root, persist}
use nexus_u.Pipeline.Body.{body}
use nexus_u.Pipeline.Main.{
  is_terminal, may_stop_partial, before, opening, on_budget, on_failure, unhandled, settle, started,
  run,
}
use nexus_u.Pipeline.Walk.{Walk, Walks, Stopped, walk_of, stops_of}
use nexus_u.Pipeline.Walk.Gate.{Walks-body, Walks-on_budget, Walks-on_failure}
use nexus_u.Pipeline.Secured.{Gated, Secured, Secured-of}
use nexus_u.Pipeline.Released.{Secures-body}

-- The result is a return with the property.
abbrev Good : {A : Type 0} → (A → Run → Type 0) → Run × Outcome A → Type 0
Good P (r, ok a) = P a r
Good P (r, err e) = ⊥

data Gets {A : Type 0} (P : A → Run → Type 0) (m : Pipe A) (r : Run) : Type 0 where
  gets : Good P (m r) → Gets P m r

Good-of : {A : Type 0} {P : A → Run → Type 0} {m : Pipe A} {r : Run} → Gets P m r → Good P (m r)
Good-of (gets h) = h

Gets-bind :
    {A B : Type 0} {P : A → Run → Type 0} {Q : B → Run → Type 0} {m : Pipe A} {f : A → Pipe B}
    {r : Run}
    → Gets P m r
    → ((a : A) (r' : Run) → P a r' → Gets Q (f a) r')
    → Gets Q (m >>= f) r
unfolding ◌>>=◌
Gets-bind {A} {B} {P} {Q} {m} {f} {r} (gets h) next = gets (after (m r) h)
  where
    after : (p : Run × Outcome A) → Good P p → Good Q (continue f p)
    after (r', ok a) i = Good-of (next a r' i)
    after (r', err e) i = absurd i

Gets-on_graph :
    {A : Type 0} {P : A → Run → Type 0} (m : Exec.Exec A) {r : Run} (w : World) (a : A)
    → m r.world ≡ (w, ok a)
    → P a (record r { world = w })
    → Gets P (on_graph m) r
unfolding on_graph
Gets-on_graph m w a e h = gets (rw e h)

-- A result that also keeps what the computation keeps.
Gets-also :
    {A : Type 0} {P : A → Run → Type 0} {R : Run → Run → Type 0} {m : Pipe A} {r : Run}
    → Gets P m r
    → Walks R m
    → Gets (λ a r'. P a r' × R r r') m r
Gets-also {A} {P} {R} {m} {r} (gets h) w = gets (both (m r) h (walk_of w r))
  where
    both : (p : Run × Outcome A) → Good P p → R r p.0 → Good (λ a r'. P a r' × R r r') p
    both (r', ok a) g k = (g, k)
    both (r', err e) g k = g

-- Summing up, routing and writing a graph whose edges join its nodes without a circle, and writing
-- the other files, do not fail.
pub record Persists (s : Setting) : Type 0 where
  pub reports : (g : ObligationGraph) → Wired g → (n : ℕ) × (s.report g ≡ ok n)
  pub writes : (g : ObligationGraph) → Wired g → s.write_graph g ≡ ok tt
  pub saves : (r : Run) → s.save r ≡ ok tt

abbrev IsFinal : {A : Type 0} → A → Run → Type 0
IsFinal a r = is_terminal r.artifact.status ≡ true

abbrev IsReady : {A : Type 0} → A → Run → Type 0
IsReady a r = (is_terminal r.artifact.status ≡ true) × Wired r.world.graph

module _ (s : Setting) (injective : (j k : ℕ) → s.uuid j ≡ s.uuid k → j ≡ k)
    (persists : Persists s) where
  Gets-call :
      {E A : Type 0} {P : A → Run → Type 0} (raised : E → Failure) {p : Prelude.Result E A}
      {r : Run} (a : A)
      → p ≡ ok a
      → P a r
      → Gets P (call s raised p) r
  Gets-call raised a e h = gets (rw e h)

  Gets-marked :
      (b : Bool) (r : Run)
      → IsReady tt r
      → Gets IsReady
          (if b then return tt else on_graph (checkpoint s.uuid "obligation_routes_recommended"))
          r
  unfolding on_graph checkpoint record_event
  Gets-marked true r h = gets h
  Gets-marked false r (h, w) = gets (h, record { ends = w.ends; acyclic = w.acyclic })

  -- The graph that is read is the run's own.
  Gets-persist : (r : Run) → IsReady tt r → Gets IsFinal (persist s) r
  unfolding persist set_root
  Gets-persist r (h, w) =
      Gets-bind {P = λ g r'. Wired g × IsReady g r'} (gets (w, (h, w))) (λ g r₁ (v, h₁).
        let (n, reported) = persists.reports g v in
        Gets-bind {P = λ n r'. IsReady n r'} (Gets-call in_persistence n reported h₁) (λ n r₂ h₂.
          Gets-bind {P = IsReady} (Gets-marked (n == 0) r₂ h₂) (λ _ r₃ h₃.
            Gets-bind {P = λ g r'. Wired g × IsFinal g r'} (gets (h₃.1, h₃.0)) (λ g r₄ (v₄, h₄).
              Gets-bind {P = IsFinal} (Gets-call in_persistence tt (persists.writes g v₄) h₄)
                (λ _ r₅ h₅.
                  Gets-bind {P = IsFinal} (gets h₅)
                    (λ _ r₆ h₆. gets (rw (persists.saves r₆) h₆)))))))

  -- A node for a text, and what follows it.
  Gets-add_obligation :
      (statement : String) (kind : ObligationKind) (severity : Severity) (source : String) (r : Run)
      → str_eq (strip statement) "" ≡ false
      → Fresh s.uuid r.world
      → Gets (λ x r'. HasNode s.uuid x r'.world) (add_obligation s statement kind severity source) r
  unfolding add_obligation
  Gets-add_obligation statement kind severity source r h f =
      let (w, x, e, found) = add_node-Returns s.uuid _ r.world refl h f in
      Gets-on_graph _ w x e found

  budget_text_stripped : (b : BudgetFault) → str_eq (strip (budget_text b)) "" ≡ false
  unfolding budget_text strip strip_left strip_right is_space
  budget_text_stripped wall_clock_exceeded = refl
  budget_text_stripped memory_exceeded = refl
  budget_text_stripped output_exceeded = refl

  unhandled_stripped : (f : Failure) → str_eq (strip (unhandled s f)) "" ≡ false
  unfolding is_space
  unhandled_stripped f = strip-nonempty _ _ refl

  Gets-on_failure_end :
      (b : Bool) (r : Run)
      → is_terminal r.artifact.status ≡ b
      → Gets IsFinal
          (if b
            then return tt
            else enter s StateMachine.unknown "terminal" "Unhandled pipeline failure")
          r
  unfolding enter log ◌>>=◌ is_terminal
  Gets-on_failure_end true r h = gets h
  Gets-on_failure_end false r h = gets refl

  Gets-on_failure : (f : Failure) (r : Run) → Fresh s.uuid r.world → Gets IsFinal (on_failure s f) r
  unfolding on_failure extend
  Gets-on_failure f r h = Gets-bind {P = λ _ r'. Fresh s.uuid r'.world} (gets h) (λ _ r₁ h₁.
      Gets-bind (Gets-add_obligation _ _ _ _ r₁ (unhandled_stripped f) h₁) (λ x r₂ found.
        let (w, _, e, _) = escalate-Returns s.uuid x _ _ r₂.world found in
        Gets-bind {P = λ _ r'. Unit} (Gets-on_graph _ w tt e tt) (λ _ r₃ _.
          Gets-bind {P = λ a r'. a ≡ r'.artifact} (gets refl)
            (λ a r₄ same. Gets-on_failure_end _ r₄ (ap (λ a. is_terminal a.status) (sym same))))))

  Gets-on_budget_end :
      (b : Bool) (r : Run)
      → may_stop_partial r.artifact.status ≡ b
      → Gets IsFinal
          (if b
            then terminal s partial "Resource budget exceeded"
            else enter s partial "terminal" "Resource budget exceeded")
          r
  unfolding enter terminal log ◌>>=◌ is_terminal transition may_stop_partial
  Gets-on_budget_end true r h = gets (rw h refl)
  Gets-on_budget_end false r h = gets refl

  Gets-on_budget :
      (b : BudgetFault) (r : Run) → Fresh s.uuid r.world → Gets IsFinal (on_budget s b) r
  unfolding on_budget extend
  Gets-on_budget b r h = Gets-bind {P = λ _ r'. Fresh s.uuid r'.world} (gets h) (λ _ r₁ h₁.
      Gets-bind (Gets-add_obligation _ _ _ _ r₁ (budget_text_stripped b) h₁) (λ x r₂ found.
        let (w, _, e, _) = defer-Returns s.uuid x _ _ r₂.world found in
        Gets-bind {P = λ _ r'. Unit} (Gets-on_graph _ w tt e tt) (λ _ r₃ _.
          Gets-bind {P = λ a r'. a ≡ r'.artifact} (gets refl) (λ a r₄ same.
            Gets-on_budget_end _ r₄ (ap (λ a. may_stop_partial a.status) (sym same))))))

  freshens : Walk s (λ r r'. KeepsFresh s.uuid r.world r'.world) (KeepsFresh s.uuid)
  freshens = record {
    quiet = record {
      same = λ r h. h;
      both = λ r r' r'' h k f. k (h f);
      worked = λ r w g. g;
      edited = λ r f minor h. h;
    };
    moved = λ r t h. h;
    logged = λ r e h. h;
    decided = λ r d h. h;
  }

  wires : Stepwise s.uuid KeepsWired
  wires = wiring s.uuid

  settle-Good :
      (p : Run × Outcome Unit)
      → Stopped p
      → Secured Gated p
      → Fresh s.uuid p.0.world
      → Wired p.0.world.graph
      → Good IsFinal (settle s p)
  unfolding is_terminal KeepsWired
  settle-Good (r, ok a) st g f w = Good-of (Gets-persist r (ap is_terminal g.at_release, w))
  settle-Good (r, err finished) st g f w = st
  settle-Good (r, err (budget_exceeded b)) st g f w = Good-of (
      Gets-bind (Gets-also (Gets-on_budget b r f) (Walks-on_budget (worlds s wires) wires b))
        (λ _ r' (h, k). Gets-persist r' (h, k w)))
  settle-Good (r, err (failed e)) st g f w = Good-of (
      Gets-bind (Gets-also (Gets-on_failure e r f) (Walks-on_failure (worlds s wires) wires e))
        (λ _ r' (h, k). Gets-persist r' (h, k w)))

  Good-final :
      (p : Run × Outcome Unit)
      → Good IsFinal p
      → (p.1 ≡ ok tt) × (is_terminal p.0.artifact.status ≡ true)
  Good-final (r, ok a) h = (refl, h)
  Good-final (r, err e) h = absurd h

  Fresh-start : Fresh s.uuid (before s)
  unfolding Fresh node_ids
  Fresh-start k le = refl

  module _ (task : TaskSpec) where
    Good-run :
        (p : World × Exec.Outcome Unit)
        → p.1 ≡ ok tt
        → Fresh s.uuid p.0
        → Wired p.0.graph
        → Good IsFinal (started s task (graph_outcome (opening s (before s)) p))
    unfolding KeepsWired
    Good-run (w, ok a) e f v =
        let all = Walks-body freshens (freshening s.uuid injective) task (λ r h. h) in
        settle-Good (body s task (opening s w)) (stops_of all (opening s w))
          (Secured-of (Secures-body s task (opening s w) refl)) (walk_of all (opening s w) f)
          (walk_of (Walks-body (worlds s wires) wires task (λ r h. h)) (opening s w) v)
    Good-run (w, err e') e f v = absurd cc

    -- If identifiers do not repeat, no intent, assumption, success condition or initial obligation of
    -- the task is blank (an initial obligation may be empty, and is then left out), the initial
    -- obligations name known kinds, statuses and severities, and graphs whose edges join their nodes
    -- and, contradictions aside, form no circle are summed up, routed and written without an
    -- exception, and so is the record, then a run ends without an exception, and its record has a
    -- final status: released, rejected, partial, refuted or unknown.
    pub run-IsFinal :
        Buildable task
        → ((run s task).1 ≡ ok tt) × (is_terminal (run s task).0.artifact.status ≡ true)
    unfolding run on_graph KeepsWired
    run-IsFinal b = Good-final (run s task) (
        Good-run (from_task s.uuid task (before s))
          (from_task-returns s.uuid injective task (before s) b Fresh-start empty_graph-Wired)
          (steps_of (Steps-from_task (freshening s.uuid injective) task) (before s) Fresh-start)
          (steps_of (Steps-from_task wires task) (before s) empty_graph-Wired))
