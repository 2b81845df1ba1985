-- ===== src/Obligations/Operations/Gives.antt =====
-- Calls that return, between which the intent of a task is a node.
use nexus_u.Prelude.{
  ℕ, suc, String, Bool, true, false, ◌||◌, ◌≡◌, refl, ap, ◌∙◌, none, List, [], ◌∷◌, ◌++◌, ok,
  contains, str_eq, str_eq_refl, str_eq→eq, Bool-cases, inl, inr, arith,
}
use nexus_u.Obligations.Text.{strip}
use nexus_u.Obligations.Graph.{Relation, ObligationEdge, GraphEvent, node_ids, put_edge}
use nexus_u.Obligations.Cycles.{successors, cycles}
use nexus_u.Obligations.Cycles.Known.{successor_known}
use nexus_u.Obligations.Cycles.Within.{put_edge-AllEnds}
use nexus_u.Obligations.Cycles.Absent.{Unentered, put_edge-acyclic, cycles_none}
use nexus_u.Obligations.Exec.{World, Exec, ◌>>=◌}
use nexus_u.Obligations.Operations.{
  NewNode, created, add_node, insert_node, record_event, add_edge, insert_edge, drawn_edge,
}
use nexus_u.Obligations.Operations.Fresh.{
  Fresh, freshening, contains-node_ids-append, node_ids-update_node,
}
use nexus_u.Obligations.Operations.Linked.{linked_by}
use nexus_u.Obligations.Operations.Steps.{Stepwise, Steps, steps_of, Steps-add_node, Steps-add_edge}
use nexus_u.Obligations.Operations.Wired.{Wired, KeepsWired, wiring}

or_true : (b : Bool) → (b || true) ≡ true
or_true b = ground arith

unfoldable KeepsName : String → World → World → Type 0
KeepsName x w w' =
    contains x (node_ids w.graph.nodes) ≡ true → contains x (node_ids w'.graph.nodes) ≡ true

naming : (uuid : ℕ → String) (x : String) → Stepwise uuid (KeepsName x)
unfolding KeepsName
naming uuid x = record {
  same = λ w h. h;
  both = λ u v w h k f. k (h f);
  drew = λ w h. h;
  noted = λ w e h. h;
  linked =
      linked_by uuid {R = KeepsName x} (λ w h. h) (λ u v w h k f. k (h f)) (λ w h. h) (λ w e h. h)
        (λ w es h. h);
  added = λ w new f h. contains-node_ids-append x w.graph.nodes _ ∙ rw h refl;
  changed = λ w y status entries h.
      ap (contains x) (node_ids-update_node y status entries w.graph.nodes) ∙ h;
}

-- A text that `add_node` accepts.
abbrev pub IsWritten : String → Type 0
IsWritten s = str_eq (strip s) "" ≡ false

-- The computation returns, and the value has the property.
pub data Gives {A : Type 0} (m : Exec A) (w : World) (P : A → World → Type 0) : Type 0 where
  gives : (w' : World) (a : A) → m w ≡ (w', ok a) → P a w' → Gives m w P

pub Gives-bind :
    {A B : Type 0} {P : A → World → Type 0} {Q : B → World → Type 0} {m : Exec A} {f : A → Exec B}
    {w : World}
    → Gives m w P
    → ((a : A) (w' : World) → P a w' → Gives (f a) w' Q)
    → Gives (m >>= f) w Q
unfolding ◌>>=◌
Gives-bind {A} {B} {P} {Q} {m} {f} {w} (gives w' a e p) next = after (next a w' p)
  where
    after : Gives (f a) w' Q → Gives (m >>= f) w Q
    after (gives w'' b e' q) = gives w'' b (rw (e, e') refl) q

module _ (uuid : ℕ → String) (injective : (j k : ℕ) → uuid j ≡ uuid k → j ≡ k) where
  -- Between the changes: the intent is a node.
  pub record Ready (root : String) (w : World) : Type 0 where
    fresh : Fresh uuid w
    wired : Wired w.graph
    rooted : contains root (node_ids w.graph.nodes) ≡ true

  Ready-step :
      {root : String} {A : Type 0} {m : Exec A} {w w' : World} {a : A}
      → ((R : World → World → Type 0) → Stepwise uuid R → Steps R m)
      → m w ≡ (w', ok a)
      → Ready root w
      → Ready root w'
  unfolding KeepsName KeepsWired
  Ready-step {root} {A} {m} {w} {w'} {a} h e r = record {
    fresh = rw (ap (λ p. p.0) e) at (steps_of (h _ (freshening uuid injective)) w r.fresh);
    wired = rw (ap (λ p. p.0) e) at (steps_of (h _ (wiring uuid)) w r.wired);
    rooted = rw (ap (λ p. p.0) e) at (steps_of (h _ (naming uuid root)) w r.rooted);
  }

  -- What `add_node` leaves, up to the events.
  added_world : NewNode → World → List GraphEvent → World
  added_world new w es = record {
    graph = record w.graph {
      nodes = w.graph.nodes ++ created uuid new (uuid w.drawn) ∷ [];
      events = es;
    };
    drawn = suc w.drawn;
  }

  add_node-added_world :
      (new : NewNode) (w : World)
      → new.given_id ≡ none
      → IsWritten new.new_statement
      → Fresh uuid w
      → (es : List GraphEvent) × (add_node uuid new w ≡ (added_world new w es, ok (uuid w.drawn)))
  unfolding add_node insert_node ◌>>=◌ record_event Fresh added_world
  add_node-added_world new w h s f = rw (s, h, f w.drawn (omega arith)) (_, refl)

  pub Ready-add_node :
      (root : String) (new : NewNode) (w : World)
      → new.given_id ≡ none
      → IsWritten new.new_statement
      → Ready root w
      → Gives (add_node uuid new) w (λ x w'. Ready root w')
  Ready-add_node root new w h s r =
      let (es, e) = add_node-added_world new w h s r.fresh in
      gives _ _ e (Ready-step (λ R stepwise. Steps-add_node stepwise new h) e r)

  -- A node that was just drawn, and its edge to the intent.
  add_edge-returns :
      (x root : String) (relation : Relation) (w : World)
      → contains x (node_ids w.graph.nodes) ≡ true
      → contains root (node_ids w.graph.nodes) ≡ true
      → Unentered x w.graph.edges
      → str_eq root x ≡ false
      → Wired w.graph
      → (w' : World) × (y : String) × (add_edge uuid x root relation [] w ≡ (w', ok y))
  unfolding add_edge insert_edge ◌>>=◌ record_event
  add_edge-returns x root relation w s t u apart h =
      let e : ObligationEdge = drawn_edge uuid x root relation [] (uuid w.drawn) in
      let found : cycles (record w.graph { edges = put_edge e w.graph.edges }) ≡ ok [] =
        cycles_none _ (put_edge-AllEnds _ e w.graph.edges s t h.ends)
          (put_edge-acyclic _ e w.graph.edges u apart h.acyclic) in
      rw (s, t, found) (_, _, refl)

  Unentered-new :
      (x : String) (w : World)
      → Wired w.graph
      → contains x (node_ids w.graph.nodes) ≡ false
      → Unentered x w.graph.edges
  Unentered-new x w h new z = elim (Bool-cases (contains x (successors z w.graph.edges))) [
    | inl p ↦ absurd (let q = (successor_known _ z x w.graph.edges h.ends p).1 in cc)
    | inr p ↦ p
  ]

  apart_from :
      (root x : String) (ids : List String)
      → contains root ids ≡ true
      → contains x ids ≡ false
      → str_eq root x ≡ false
  apart_from root x ids h new = elim (Bool-cases (str_eq root x)) [
    | inl same ↦ absurd (let p = ap (λ y. contains y ids) (str_eq→eq root x same) in cc)
    | inr differ ↦ differ
  ]

  pub Gives-add_linked :
      {A : Type 0} {Q : A → World → Type 0} (root : String) (new : NewNode) (relation : Relation)
      (rest : Exec A) (w : World)
      → new.given_id ≡ none
      → IsWritten new.new_statement
      → Ready root w
      → ((w' : World) → Ready root w' → Gives rest w' Q)
      → Gives (do x ← add_node uuid new; _ ← add_edge uuid x root relation []; rest) w Q
  unfolding ◌>>=◌ Fresh added_world
  Gives-add_linked {A} {Q} root new relation rest w h s r next =
      let (es, e) = add_node-added_world new w h s r.fresh in
      let x = uuid w.drawn in
      let r' = Ready-step {root = root} (λ R stepwise. Steps-add_node stepwise new h) e r in
      let fresh = r.fresh w.drawn (omega arith) in
      let (w'', y, e') =
        add_edge-returns x root relation (added_world new w es)
          (contains-node_ids-append x w.graph.nodes _ ∙ rw (str_eq_refl x) (or_true _)) r'.rooted
          (Unentered-new x w r.wired fresh)
          (apart_from root x (node_ids w.graph.nodes) r.rooted fresh) r'.wired in
      after w'' es y e e'
        (next w'' (Ready-step (λ R stepwise. Steps-add_edge stepwise x root relation []) e' r'))
    where
      after :
          (w'' : World) (es : List GraphEvent) (y : String)
          → add_node uuid new w ≡ (added_world new w es, ok (uuid w.drawn))
          → add_edge uuid (uuid w.drawn) root relation [] (added_world new w es) ≡ (w'', ok y)
          → Gives rest w'' Q
          → Gives (do x ← add_node uuid new; _ ← add_edge uuid x root relation []; rest) w Q
      after w'' es y e e' (gives w₃ a e'' q) = gives w₃ a (rw (e, e', e'') refl) q

  pub Gives-intent :
      (new : NewNode) (w : World)
      → new.given_id ≡ none
      → IsWritten new.new_statement
      → Fresh uuid w
      → Wired w.graph
      → Gives (add_node uuid new) w (λ x w'. Ready x w')
  unfolding added_world KeepsWired
  Gives-intent new w h s f v =
      let (es, e) = add_node-added_world new w h s f in
      gives _ _ e (record {
        fresh =
            rw (ap (λ p. p.0) e) at
              (steps_of (Steps-add_node (freshening uuid injective) new h) w f);
        wired = rw (ap (λ p. p.0) e) at (steps_of (Steps-add_node (wiring uuid) new h) w v);
        rooted =
            contains-node_ids-append (uuid w.drawn) w.graph.nodes _
            ∙ rw (str_eq_refl (uuid w.drawn)) (or_true _);
      })
