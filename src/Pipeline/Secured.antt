-- ===== src/Pipeline/Secured.antt =====
-- What a return of a part of a run has behind it, where the release flag is not set before.
use mathlib.Core.Bool.{decide}
use nexus_u.Prelude.{String, false, ◌≡◌, refl, ◌∙◌, ok, err}
use nexus_u.Obligations.Graph.{ObligationGraph}
use nexus_u.Obligations.Exec.{World}
use nexus_u.Obligations.Operations.{checkpoint, record_event}
use nexus_u.Obligations.Operations.Steps.{steps}
use nexus_u.Obligations.Promotion.Allowed.{Promotable}
use nexus_u.StateMachine.{
  RunStatus, RunStatus-discrete, transition, allowed, certified, curated, released, partial,
}
use nexus_u.StateMachine
use nexus_u.StateMachine.Paths.{stage-transition}
use nexus_u.Task.{TaskSpec}
use nexus_u.Record.{at_status}
use nexus_u.Pipeline.Exec.{Run, Outcome, Pipe, continue, ◌>>=◌, on_graph, Setting}
use nexus_u.Pipeline.Parts.{recorded, log, enter, entered, advance, stop}
use nexus_u.Pipeline.Body.{release, curate}
use nexus_u.Pipeline.Stop.{anything}
use nexus_u.Pipeline.Walk.{Quiet, Walk, Walks, walk_of, Walks-persist}
use nexus_u.Pipeline.Walk.Parts.{Walks-terminal}

-- The graph passed the promotion gate, and its nodes and edges are as they were there.
pub record Gated (r : Run) : Type 0 where
  pub at_release : r.artifact.status ≡ released
  pub gate : ObligationGraph
  pub promoted : Promotable "RELEASED" gate
  pub nodes_same : r.world.graph.nodes ≡ gate.nodes
  pub edges_same : r.world.graph.edges ≡ gate.edges

-- A return has the property, and where the run leaves the flag is not set.
abbrev pub Secured : {A : Type 0} → (Run → Type 0) → Run × Outcome A → Type 0
Secured P (r, ok a) = P r
Secured P (r, err e) = r.artifact.released ≡ false

pub data Secures {A : Type 0} (P : Run → Type 0) (m : Pipe A) (r : Run) : Type 0 where
  secures : Secured P (m r) → Secures P m r

pub Secured-of :
    {A : Type 0} {P : Run → Type 0} {m : Pipe A} {r : Run} → Secures P m r → Secured P (m r)
Secured-of (secures h) = h

abbrev pub SameRelease : Run → Run → Type 0
SameRelease r r' = r'.artifact.released ≡ r.artifact.released

-- Wherever the parts of a run do not set the flag, it stays as it is.
pub unreleasing : (s : Setting) → Walk s SameRelease (λ w w'. Unit)
unreleasing s = record {
  quiet = record {
    same = λ r. refl;
    both = λ r r' r'' h k. k ∙ h;
    worked = λ r w g. refl;
    edited = λ r f minor. minor.released_kept r.artifact;
  };
  moved = λ r t. refl;
  logged = λ r e. refl;
  decided = λ r d. refl;
}

-- What the gate's graph and a later world share.
abbrev pub SameGraph : World → World → Type 0
SameGraph w w' = (w'.graph.nodes ≡ w.graph.nodes) × (w'.graph.edges ≡ w.graph.edges)

abbrev pub SamePlace : Run → Run → Type 0
SamePlace r r' = (r'.artifact.status ≡ r.artifact.status) × SameGraph r.world r'.world

pub same_place : Quiet SamePlace SameGraph
same_place = record {
  same = λ r. (refl, (refl, refl));
  both = λ r r' r'' h k. (k.0 ∙ h.0, (k.1.0 ∙ h.1.0, k.1.1 ∙ h.1.1));
  worked = λ r w g. (refl, g);
  edited = λ r f minor. (minor.status_kept r.artifact, (refl, refl));
}

pub Gated-later : (r r' : Run) → SamePlace r r' → Gated r → Gated r'
Gated-later r r' h g = record {
  at_release = h.0 ∙ g.at_release;
  gate = g.gate;
  promoted = g.promoted;
  nodes_same = h.1.0 ∙ g.nodes_same;
  edges_same = h.1.1 ∙ g.edges_same;
}

module _ (s : Setting) {P : Run → Type 0} where
  -- After a part that leaves the flag alone.
  pub Secures-bind :
      {A B : Type 0} {m : Pipe A} {f : A → Pipe B}
      → Walks SameRelease m
      → (r : Run) → r.artifact.released ≡ false
      → ((a : A) (r' : Run) → m r ≡ (r', ok a) → r'.artifact.released ≡ false → Secures P (f a) r')
      → Secures P (m >>= f) r
  unfolding ◌>>=◌
  Secures-bind {A} {B} {m} {f} w r h k = secures (after (m r) (walk_of w r ∙ h) k)
    where
      after :
          (p : Run × Outcome A)
          → p.0.artifact.released ≡ false
          → ((a : A) (r : Run) → p ≡ (r, ok a) → r.artifact.released ≡ false → Secures P (f a) r)
          → Secured P (continue f p)
      after (r, ok a) h k = Secured-of (k a r refl h)
      after (r, err e) h k = h

  pub Secures-stop :
      (t : RunStatus) (message : String) (r : Run)
      → r.artifact.released ≡ false
      → Secures P (stop s t message) r
  unfolding stop
  Secures-stop t message r h =
      let walk = unreleasing s in
      Secures-bind (Walks-terminal walk (anything s.uuid) t message) r h (λ _ r' _ h'.
        Secures-bind (Walks-persist s walk.quiet (λ op. steps (λ w. tt))) r' h'
          (λ _ r'' _ h''. secures h''))

-- The release itself, from the graph that passed the gate.
module _ (s : Setting) (task : TaskSpec) (g : ObligationGraph)
    (passed : Promotable "RELEASED" g) where
  Secured-curate :
      (r : Run)
      → r.world.graph.nodes ≡ g.nodes
      → r.world.graph.edges ≡ g.edges
      → Secured Gated
          (curate s task (record r { artifact = record r.artifact { status = certified } }))
  unfolding ◌>>=◌ on_graph advance transition enter log checkpoint record_event allowed decide
      RunStatus-discrete
  Secured-curate r p q = record {
    at_release = refl;
    gate = g;
    promoted = passed;
    nodes_same = p;
    edges_same = q;
  }

  Secured-certified :
      (o : StateMachine.Outcome) (current : RunStatus) (message : String)
      → ((n : RunStatus) → o ≡ ok n → n ≡ certified)
      → (r : Run) → r.artifact.released ≡ false
      → r.world.graph.nodes ≡ g.nodes
      → r.world.graph.edges ≡ g.edges
      → Secured Gated (continue (λ _. curate s task) (entered s o current certified "ok" message r))
  unfolding enter ◌>>=◌ log
  Secured-certified (err e) current message h r f p q = f
  Secured-certified (ok n) current message h r f p q = rw (h n refl) (
      Secured-curate
        (recorded s (record { stage = at_status certified; status = "ok"; message = message }) r) p
        q)

  pub Secures-release :
      (r : Run)
      → r.artifact.released ≡ false
      → r.world.graph.nodes ≡ g.nodes
      → r.world.graph.edges ≡ g.edges
      → Secures Gated (release s task) r
  unfolding ◌>>=◌ advance
  Secures-release r f p q =
      secures (
        Secured-certified _ r.artifact.status _ (λ n e. (stage-transition _ certified e).0) r f p q)
