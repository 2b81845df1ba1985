-- ===== src/Pipeline/Audited.antt =====
-- The audit chain of a run, and the obligations of its task, from the start to every end.
use mathlib.Core.List.{map-append}
use nexus_u.Prelude.{true, ◌≡◌, refl, sym, ap, ◌∙◌, [], ◌∷◌, ◌++◌, map, ok, err, str_eq_refl}
use nexus_u.Audit.{append, verify, verify_from}
use nexus_u.Audit.Chain.{verify-append}
use nexus_u.Obligations.Exec.{World}
use nexus_u.Obligations.Exec
use nexus_u.Obligations.Operations.Steps.{Stepwise, Steps-checkpoint}
use nexus_u.Obligations.Operations.Conserved.{Conserved, conserving}
use nexus_u.Obligations.Operations.FromTask.{from_task}
use nexus_u.Task.{TaskSpec}
use nexus_u.Record.{StageEvent}
use nexus_u.Pipeline.Exec.{
  finished, budget_exceeded, failed, Run, Outcome, graph_outcome, on_graph, Setting,
}
use nexus_u.Pipeline.Parts.{recorded, persist}
use nexus_u.Pipeline.Body.{body}
use nexus_u.Pipeline.Main.{before, opening, settle, started, run}
use nexus_u.Pipeline.Stop.{anything}
use nexus_u.Pipeline.Walk.{Walk, Walks, walk_of, Walks-bind, Walks-persist}
use nexus_u.Pipeline.Walk.Gate.{Walks-body, Walks-on_budget, Walks-on_failure}

-- A relation across every change of a run holds across all that follows the graph of the task.
module _ {s : Setting} {R : Run → Run → Type 0} {G : World → World → Type 0} (walk : Walk s R G)
    (stepwise : Stepwise s.uuid G) (task : TaskSpec)
    (releasing : (r : Run)
      → R r (record r { artifact = record r.artifact { released = true } })) where
  Walks-last : Walks R (persist s)
  Walks-last = Walks-persist s walk.quiet (Steps-checkpoint stepwise)

  pub related-settle : (r : Run) (p : Run × Outcome Unit) → R r p.0 → R r (settle s p).0
  related-settle r (r', ok a) h = walk.quiet.both r r' _ h (walk_of Walks-last r')
  related-settle r (r', err finished) h = h
  related-settle r (r', err (budget_exceeded m)) h =
      walk.quiet.both r r' _ h
        (walk_of (Walks-bind walk.quiet (Walks-on_budget walk stepwise m) (λ _. Walks-last)) r')
  related-settle r (r', err (failed f)) h =
      walk.quiet.both r r' _ h
        (walk_of (Walks-bind walk.quiet (Walks-on_failure walk stepwise f) (λ _. Walks-last)) r')

  pub related-started : (p : Run × Outcome Unit) → R p.0 (started s task p).0
  related-started (r, ok a) =
      related-settle r (body s task r) (walk_of (Walks-body walk stepwise task releasing) r)
  related-started (r, err e) = walk.quiet.same r

-- The chain verifies, and its entries are the events of the record.
pub record Audited (s : Setting) (r : Run) : Type 0 where
  pub verified : verify s.hashing r.chain ≡ true
  pub complete : map (λ entry. entry.event) r.chain.entries ≡ r.artifact.events

module _ (s : Setting) where
  abbrev KeepsAudit : Run → Run → Type 0
  KeepsAudit r r' = Audited s r → Audited s r'

  Audited-recorded : (r : Run) (e : StageEvent) → KeepsAudit r (recorded s e r)
  unfolding append
  Audited-recorded r e h = record {
    verified = verify-append s.hashing e r.chain h.verified;
    complete = map-append _ r.chain.entries _ ∙ ap (λ l. l ++ e ∷ []) h.complete;
  }

  auditing : Walk s KeepsAudit (λ w w'. Unit)
  auditing = record {
    quiet = record {
      same = λ r h. h;
      both = λ r r' r'' h k a. k (h a);
      worked = λ r w g h. record { verified = h.verified; complete = h.complete };
      edited = λ r f minor h. record {
        verified = h.verified;
        complete = h.complete ∙ sym (minor.events_kept r.artifact);
      };
    };
    moved = λ r t h. record { verified = h.verified; complete = h.complete };
    logged = Audited-recorded;
    decided = λ r d h. record { verified = h.verified; complete = h.complete };
  }

  Audited-graph :
      {A : Type 0} (w : World) (p : World × Exec.Outcome A)
      → Audited s (graph_outcome (opening s w) p).0
  unfolding verify verify_from
  Audited-graph w (w', ok a) = record { verified = str_eq_refl s.hashing.genesis; complete = refl }
  Audited-graph w (w', err e) = record { verified = str_eq_refl s.hashing.genesis; complete = refl }

  -- However a run ends, its audit chain verifies, and the chain's entries are exactly the events of
  -- its record, in order.
  pub run-Audited : (task : TaskSpec) → Audited s (run s task).0
  unfolding run on_graph
  run-Audited task =
      related-started auditing (anything s.uuid) task
        (λ r h. record { verified = h.verified; complete = h.complete })
        (graph_outcome (opening s (before s)) (from_task s.uuid task (before s)))
        (Audited-graph (before s) (from_task s.uuid task (before s)))

  -- What holds across every change of the graph holds from the graph of the task to the end.
  module _ {G : World → World → Type 0} (stepwise : Stepwise s.uuid G) where
    pub worlds : Walk s (λ r r'. G r.world r'.world) G
    worlds = record {
      quiet = record {
        same = λ r. stepwise.same r.world;
        both = λ r r' r''. stepwise.both r.world r'.world r''.world;
        worked = λ r w g. g;
        edited = λ r f minor. stepwise.same r.world;
      };
      moved = λ r t. stepwise.same r.world;
      logged = λ r e. stepwise.same r.world;
      decided = λ r d. stepwise.same r.world;
    }

    world_started :
        (task : TaskSpec) (p : World × Exec.Outcome Unit)
        → G p.0 (started s task (graph_outcome (opening s (before s)) p)).0.world
    world_started task (w, ok a) =
        related-started worlds stepwise task (λ r. stepwise.same r.world)
          (graph_outcome (opening s (before s)) (w, ok a))
    world_started task (w, err e) = stepwise.same w

    pub related-run :
        (task : TaskSpec) → G (from_task s.uuid task (before s)).0 (run s task).0.world
    unfolding run on_graph
    related-run task = world_started task (from_task s.uuid task (before s))

  -- However a run ends, every obligation that its task brings in is still in its graph, with its
  -- content and its place, and so is every event of the graph.
  pub run-Conserved :
      (task : TaskSpec) → Conserved (from_task s.uuid task (before s)).0 (run s task).0.world
  run-Conserved task = related-run (conserving s.uuid) task
