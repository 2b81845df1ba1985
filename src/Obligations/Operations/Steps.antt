-- ===== src/Obligations/Operations/Steps.antt =====
-- What holds from before to after every operation, if it holds of the changes they are made of.
use nexus_u.Prelude.{
  ℕ, suc, String, Bool, true, false, ◌≡◌, refl, Option, none, List, [], ◌∷◌, ◌++◌, ok, err,
  contains, str_eq, if◌then◌else◌, Bool-cases, inl, inr,
}
use nexus_u.Obligations.Graph.{
  ObligationStatus, Relation, discharges, contradicts, Metadata, GraphEvent, is_evidence, node_ids,
  update_node, active_ids,
}
use nexus_u.Obligations.Text.{strip}
use nexus_u.Obligations.Exec.{World, Outcome, Exec, continue, ◌>>=◌}
use nexus_u.Obligations.Operations.{
  closed, draw, NewNode, created, node_at, record_event, insert_node, add_node, add_edge,
  close_node, all_evidence, link_all, link_counterevidence, discharge, defer, escalate, refute,
  transfer, checkpoint,
}

-- A relation between the worlds before and after that the changes to a graph are in, those that
-- give a node an identifier of the caller's aside.
pub record Stepwise (uuid : ℕ → String) (R : World → World → Type 0) : Type 0 where
  pub same : (w : World) → R w w
  pub both : (u v w : World) → R u v → R v w → R u w
  pub drew : (w : World) → R w (record w { drawn = suc w.drawn })
  pub noted :
      (w : World) (e : GraphEvent)
      → R w (record w { graph = record w.graph { events = w.graph.events ++ e ∷ [] } })
  pub linked :
      (x y : String) (r : Relation) (m : Metadata) (w : World) → R w (add_edge uuid x y r m w).0
  pub added :
      (w : World) (new : NewNode)
      → contains (uuid w.drawn) (node_ids w.graph.nodes) ≡ false
      → R w (record {
        graph = record w.graph { nodes = w.graph.nodes ++ created uuid new (uuid w.drawn) ∷ [] };
        drawn = suc w.drawn;
      })
  pub changed :
      (w : World) (x : String) (status : ObligationStatus) (entries : Metadata)
      → R w (record w {
        graph = record w.graph { nodes = update_node x (closed status entries) w.graph.nodes };
      })

pub data Steps (R : World → World → Type 0) {A : Type 0} (m : Exec A) : Type 0 where
  steps : ((w : World) → R w (m w).0) → Steps R m

pub steps_of :
    {R : World → World → Type 0} {A : Type 0} {m : Exec A} → Steps R m → (w : World) → R w (m w).0
steps_of (steps h) = h

pub Steps-bind :
    {R : World → World → Type 0}
    → ((u v w : World) → R u v → R v w → R u w)
    → {A B : Type 0} {m : Exec A} {f : A → Exec B} → Steps R m
    → ((a : A) → Steps R (f a))
    → Steps R (m >>= f)
unfolding ◌>>=◌
Steps-bind {R} both {A} {B} {m} {f} (steps h) next = steps λ w. after w (m w) (h w)
  where
    after : (w : World) (p : World × Outcome A) → R w p.0 → R w (continue f p).0
    after w (v, ok a) r = both w v _ r (steps_of (next a) v)
    after w (v, err e) r = r

pub Steps-if :
    {R : World → World → Type 0} {A : Type 0} (b : Bool) {m n : Exec A}
    → Steps R m
    → Steps R n
    → Steps R (if b then m else n)
Steps-if true h k = h
Steps-if false h k = k

module _ {uuid : ℕ → String} {R : World → World → Type 0} (stepwise : Stepwise uuid R) where
  Steps-node_at : (x : String) → Steps R (node_at x)
  unfolding node_at
  Steps-node_at x = steps stepwise.same

  pub Steps-record_event :
      (operation : String) (affected : List String) (before : Option (List String))
      → Steps R (record_event operation affected before)
  unfolding record_event
  Steps-record_event operation affected before = steps λ w. stepwise.noted w _

  pub Steps-checkpoint : (operation : String) → Steps R (checkpoint uuid operation)
  unfolding checkpoint
  Steps-checkpoint operation = Steps-record_event operation [] none

  Steps-close_node :
      (x : String) (status : ObligationStatus) (entries : Metadata)
      → Steps R (close_node uuid x status entries)
  unfolding close_node ◌>>=◌
  Steps-close_node x status entries = steps λ w. stepwise.changed w x status entries

  pub Steps-add_edge :
      (x y : String) (r : Relation) (m : Metadata) → Steps R (add_edge uuid x y r m)
  Steps-add_edge x y r m = steps (stepwise.linked x y r m)

  Steps-all_evidence : (xs : List String) → Steps R (all_evidence uuid xs)
  unfolding all_evidence
  Steps-all_evidence [] = steps stepwise.same
  Steps-all_evidence (x ∷ xs) =
      Steps-bind stepwise.both (Steps-node_at x)
        (λ n. Steps-if (is_evidence n.kind) (Steps-all_evidence xs) (steps stepwise.same))

  Steps-link_all :
      (xs : List String) (x : String) (r : Relation) (m : Metadata)
      → Steps R (link_all uuid xs x r m)
  unfolding link_all
  Steps-link_all [] x r m = steps stepwise.same
  Steps-link_all (y ∷ ys) x r m =
      Steps-bind stepwise.both (Steps-add_edge y x r m) (λ _. Steps-link_all ys x r m)

  Steps-link_counterevidence :
      (xs : List String) (x : String) (m : Metadata) → Steps R (link_counterevidence uuid xs x m)
  unfolding link_counterevidence
  Steps-link_counterevidence [] x m = steps stepwise.same
  Steps-link_counterevidence (y ∷ ys) x m = Steps-bind stepwise.both (Steps-node_at y) (λ n.
      Steps-if (is_evidence n.kind)
        (Steps-bind stepwise.both (Steps-add_edge y x contradicts m)
          (λ _. Steps-link_counterevidence ys x m))
        (steps stepwise.same))

  -- What an operation does last: `node.status = ...` and `_record`.
  Steps-close :
      (x : String) (status : ObligationStatus) (entries : Metadata) (operation : String)
      (affected : List String) (before : Option (List String))
      → Steps R (do _ ← close_node uuid x status entries; record_event operation affected before)
  Steps-close x status entries operation affected before =
      Steps-bind stepwise.both (Steps-close_node x status entries)
        (λ _. Steps-record_event operation affected before)

  -- A node whose identifier is drawn.
  Steps-drawn_node :
      (new : NewNode) (before : List String)
      → Steps R (do x ← draw uuid; insert_node uuid new x before)
  unfolding insert_node ◌>>=◌ record_event
  Steps-drawn_node new before = steps λ w.
      elim (Bool-cases (contains (uuid w.drawn) (node_ids w.graph.nodes))) [
        | inl h ↦ rw h (stepwise.drew w)
        | inr h ↦ rw h (stepwise.both w _ _ (stepwise.added w new h) (stepwise.noted _ _))
      ]

  pub Steps-add_node : (new : NewNode) → new.given_id ≡ none → Steps R (add_node uuid new)
  unfolding add_node insert_node
  Steps-add_node new h = Steps-if (str_eq (strip new.new_statement) "") (steps stepwise.same) (
      Steps-bind stepwise.both (steps stepwise.same)
        (λ g. rw h (Steps-drawn_node new (active_ids g))))

  pub Steps-discharge :
      (x : String) (es : List String) (reason : String) → Steps R (discharge uuid x es reason)
  unfolding discharge
  Steps-discharge x [] reason =
      Steps-bind stepwise.both (Steps-node_at x)
        (λ n. Steps-if (is_evidence n.kind) (steps stepwise.same) (steps stepwise.same))
  Steps-discharge x (e ∷ es) reason = Steps-bind stepwise.both (Steps-node_at x) (λ n.
      Steps-if (is_evidence n.kind) (steps stepwise.same) (
        Steps-bind stepwise.both (Steps-all_evidence (e ∷ es)) (λ _.
          Steps-bind stepwise.both (steps stepwise.same) (λ g.
            Steps-bind stepwise.both (Steps-link_all (e ∷ es) x discharges _)
              (λ _. Steps-close x _ _ _ _ _)))))

  pub Steps-refute :
      (x : String) (es : List String) (reason : String) → Steps R (refute uuid x es reason)
  unfolding refute
  Steps-refute x [] reason = Steps-bind stepwise.both (Steps-node_at x) (λ n. steps stepwise.same)
  Steps-refute x (e ∷ es) reason = Steps-bind stepwise.both (Steps-node_at x) (λ n.
      Steps-bind stepwise.both (steps stepwise.same) (λ g.
        Steps-bind stepwise.both (Steps-link_counterevidence (e ∷ es) x _)
          (λ _. Steps-close x _ _ _ _ _)))

  pub Steps-defer : (x reason : String) (rs : List String) → Steps R (defer uuid x reason rs)
  unfolding defer
  Steps-defer x reason rs =
      Steps-bind stepwise.both (Steps-node_at x)
        (λ _. Steps-bind stepwise.both (steps stepwise.same) (λ g. Steps-close x _ _ _ _ _))

  pub Steps-escalate : (x reason : String) (o : Option String) → Steps R (escalate uuid x reason o)
  unfolding escalate
  Steps-escalate x reason o =
      Steps-bind stepwise.both (Steps-node_at x)
        (λ _. Steps-bind stepwise.both (steps stepwise.same) (λ g. Steps-close x _ _ _ _ _))

  pub Steps-transfer :
      (x t : String) (r : Relation) (reason : String) → Steps R (transfer uuid x t r reason)
  unfolding transfer
  Steps-transfer x t r reason = Steps-bind stepwise.both (Steps-node_at x) (λ old.
      Steps-bind stepwise.both (steps stepwise.same) (λ g.
        Steps-bind stepwise.both (Steps-add_node _ refl) (λ y.
          Steps-bind stepwise.both (Steps-add_edge y x r _) (λ _.
            Steps-bind stepwise.both (Steps-close_node x _ _) (λ _.
              Steps-bind stepwise.both (Steps-record_event _ _ _) (λ _. steps stepwise.same))))))
