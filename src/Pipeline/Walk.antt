-- ===== src/Pipeline/Walk.antt =====
-- What holds from before to after every part of a run, if it holds of the changes it is made of, and
-- where a run leaves early.
pub mod Parts
pub mod Stages
pub mod Reviews
pub mod Gate
use nexus_u.Prelude.{
  ℕ, String, Bool, true, false, ◌&&◌, not, ◌≡◌, refl, Option, none, some, List, [], ◌∷◌, ◌++◌, ok,
  err, map, contains, str_eq, ◌==◌, if◌then◌else◌,
}
use nexus_u.Prelude
use nexus_u.Obligations.Exec.{World}
use nexus_u.Obligations.Exec
use nexus_u.Obligations.Operations.{checkpoint}
use nexus_u.Obligations.Operations.Evidence.{add_evidence}
use nexus_u.Obligations.Operations.Steps.{
  Stepwise, Steps, steps_of, Steps-record_event, Steps-add_node, Steps-discharge, Steps-refute,
  Steps-defer,
}
use nexus_u.Obligations.Graph.{ObligationKind, Severity, Metadata}
use nexus_u.Claims.{Evidence}
use nexus_u.Policy.Decision.{PolicyDecision}
use nexus_u.StateMachine.{RunStatus, transition}
use nexus_u.Record.{StageEvent, RawResult, ArtifactRecord}
use nexus_u.Pipeline.Exec.{
  Failure, in_persistence, Exit, finished, budget_exceeded, failed, Run, Outcome, Pipe, continue,
  return, leave, ◌>>=◌, graph_outcome, on_graph, artifact, graph, edit, Setting,
}
use nexus_u.Pipeline.Parts.{
  recorded, log, enter, entered, advance, terminal, policy_event, add_item, add_evidence_all,
  add_obligation, apply_failed, apply_result, apply_obligation_results, add_runtime_obligations,
  extend, extend_new, call, set_root, persist, stop,
}
use nexus_u.Pipeline.Main.{is_terminal}

-- An edit that keeps the status, the events, the decisions and the release flag.
pub record Minor (f : ArtifactRecord → ArtifactRecord) : Type 0 where
  pub status_kept : (a : ArtifactRecord) → (f a).status ≡ a.status
  pub events_kept : (a : ArtifactRecord) → (f a).events ≡ a.events
  pub decisions_kept : (a : ArtifactRecord) → (f a).policy_decisions ≡ a.policy_decisions
  pub released_kept : (a : ArtifactRecord) → (f a).released ≡ a.released

-- A relation that holds across the changes of the graph and the minor edits.
pub record Quiet (R : Run → Run → Type 0) (G : World → World → Type 0) : Type 0 where
  pub same : (r : Run) → R r r
  pub both : (r r' r'' : Run) → R r r' → R r' r'' → R r r''
  pub worked : (r : Run) (w : World) → G r.world w → R r (record r { world = w })
  pub edited :
      (r : Run) (f : ArtifactRecord → ArtifactRecord)
      → Minor f
      → R r (record r { artifact = f r.artifact })

-- Across a new status, a new event and a policy decision too.
pub record Walk (s : Setting) (R : Run → Run → Type 0) (G : World → World → Type 0) : Type 0 where
  pub quiet : Quiet R G
  pub moved :
      (r : Run) (t : RunStatus) → R r (record r { artifact = record r.artifact { status = t } })
  pub logged : (r : Run) (e : StageEvent) → R r (recorded s e r)
  pub decided :
      (r : Run) (d : PolicyDecision)
      → R r (record r {
        artifact = record r.artifact { policy_decisions = r.artifact.policy_decisions ++ d ∷ [] };
      })

-- An early return leaves the run in a final status.
abbrev pub Stopped : {A : Type 0} → Run × Outcome A → Type 0
Stopped (r, ok a) = Unit
Stopped (r, err finished) = is_terminal r.artifact.status ≡ true
Stopped (r, err (budget_exceeded m)) = Unit
Stopped (r, err (failed f)) = Unit

pub data Moves (R : Run → Run → Type 0) {A : Type 0} (m : Pipe A) : Type 0 where
  moves : ((r : Run) → R r (m r).0) → Moves R m

pub move_of :
    {R : Run → Run → Type 0} {A : Type 0} {m : Pipe A} → Moves R m → (r : Run) → R r (m r).0
move_of (moves h) = h

pub data Walks (R : Run → Run → Type 0) {A : Type 0} (m : Pipe A) : Type 0 where
  walks : ((r : Run) → R r (m r).0) → ((r : Run) → Stopped (m r)) → Walks R m

pub walk_of :
    {R : Run → Run → Type 0} {A : Type 0} {m : Pipe A} → Walks R m → (r : Run) → R r (m r).0
walk_of (walks h k) = h

pub stops_of :
    {R : Run → Run → Type 0} {A : Type 0} {m : Pipe A} → Walks R m → (r : Run) → Stopped (m r)
stops_of (walks h k) = k

pub Walks-if :
    {R : Run → Run → Type 0} {A : Type 0} (b : Bool) {m n : Pipe A}
    → Walks R m
    → Walks R n
    → Walks R (if b then m else n)
Walks-if true h k = h
Walks-if false h k = k

Stopped-later :
    (A B : Type 0) (r : Run) (e : Exit) → Stopped {A = A} (r, err e) → Stopped {A = B} (r, err e)
Stopped-later A B r finished h = h
Stopped-later A B r (budget_exceeded m) h = tt
Stopped-later A B r (failed f) h = tt

module _ {R : Run → Run → Type 0} {G : World → World → Type 0} (quiet : Quiet R G) where
  pub Moves-bind :
      {A B : Type 0} {m : Pipe A} {f : A → Pipe B}
      → Moves R m
      → ((a : A) → Moves R (f a))
      → Moves R (m >>= f)
  unfolding ◌>>=◌
  Moves-bind {A} {B} {m} {f} (moves h) next = moves λ r. after r (m r) (h r)
    where
      after : (r : Run) (p : Run × Outcome A) → R r p.0 → R r (continue f p).0
      after r (r', ok a) i = quiet.both r r' _ i (move_of (next a) r')
      after r (r', err e) i = i

  pub Walks-bind :
      {A B : Type 0} {m : Pipe A} {f : A → Pipe B}
      → Walks R m
      → ((a : A) → Walks R (f a))
      → Walks R (m >>= f)
  unfolding ◌>>=◌
  Walks-bind {A} {B} {m} {f} (walks h k) next =
      walks (move_of (Moves-bind {m = m} {f = f} (moves h) (λ a. moves (walk_of (next a)))))
        (λ r. ends (m r) (k r))
    where
      ends : (p : Run × Outcome A) → Stopped p → Stopped (continue f p)
      ends (r', ok a) i = stops_of (next a) r'
      ends (r', err e) i = Stopped-later A B r' e i

  pub Walks-return : {A : Type 0} (a : A) → Walks R (return a)
  Walks-return a = walks quiet.same (λ r. tt)

  pub Walks-artifact : Walks R artifact
  Walks-artifact = walks quiet.same (λ r. tt)

  pub Walks-graph : Walks R graph
  Walks-graph = walks quiet.same (λ r. tt)

  pub Walks-failed : {A : Type 0} (f : Failure) → Walks R {A = A} (leave (failed f))
  Walks-failed f = walks quiet.same (λ r. tt)

  pub Walks-edit : (f : ArtifactRecord → ArtifactRecord) → Minor f → Walks R (edit f)
  Walks-edit f minor = walks (λ r. quiet.edited r f minor) (λ r. tt)

  pub Walks-on_graph : {A : Type 0} {m : Exec.Exec A} → Steps G m → Walks R (on_graph m)
  unfolding on_graph
  Walks-on_graph {A} {m} h =
      walks (λ r. worked r (m r.world) (steps_of h r.world)) (λ r. ends r (m r.world))
    where
      worked : (r : Run) (p : World × Exec.Outcome A) → G r.world p.0 → R r (graph_outcome r p).0
      worked r (w, ok a) g = quiet.worked r w g
      worked r (w, err e) g = quiet.worked r w g

      ends : (r : Run) (p : World × Exec.Outcome A) → Stopped (graph_outcome r p)
      ends r (w, ok a) = tt
      ends r (w, err e) = tt

module _ (s : Setting) {R : Run → Run → Type 0} {G : World → World → Type 0}
    (quiet : Quiet R G) where
  pub Walks-call :
      {E A : Type 0} (raised : E → Failure) (p : Prelude.Result E A) → Walks R (call s raised p)
  Walks-call raised (ok a) = Walks-return quiet a
  Walks-call raised (err e) = Walks-failed quiet (raised e)

  pub Walks-extend : (items : List String) → Walks R (extend s items)
  unfolding extend
  Walks-extend items = Walks-edit quiet _ (record {
    status_kept = λ a. refl;
    events_kept = λ a. refl;
    decisions_kept = λ a. refl;
    released_kept = λ a. refl;
  })

  pub Walks-extend_new : (items : List String) → Walks R (extend_new s items)
  unfolding extend_new
  Walks-extend_new items = Walks-edit quiet _ (record {
    status_kept = λ a. refl;
    events_kept = λ a. refl;
    decisions_kept = λ a. refl;
    released_kept = λ a. refl;
  })

  Walks-set_root : Walks R (set_root s)
  unfolding set_root
  Walks-set_root =
      walks
        (λ r.
          quiet.edited r (λ a. record a { audit_root = some r.chain.head })
            (record {
              status_kept = λ a. refl;
              events_kept = λ a. refl;
              decisions_kept = λ a. refl;
              released_kept = λ a. refl;
            }))
        (λ r. tt)

  pub Walks-persist :
      ((operation : String) → Steps G (checkpoint s.uuid operation)) → Walks R (persist s)
  unfolding persist
  Walks-persist noted = Walks-bind quiet (Walks-graph quiet) (λ g.
      Walks-bind quiet (Walks-call in_persistence (s.report g)) (λ n.
        Walks-bind quiet
          (Walks-if (n == 0) (Walks-return quiet tt) (Walks-on_graph quiet (noted _)))
          (λ _. Walks-bind quiet (Walks-graph quiet) (λ h.
            Walks-bind quiet (Walks-call in_persistence (s.write_graph h)) (λ _.
              Walks-bind quiet Walks-set_root (λ _.
                walks (λ r. walk_of (Walks-call in_persistence (s.save r)) r)
                  (λ r. stops_of (Walks-call in_persistence (s.save r)) r)))))))
