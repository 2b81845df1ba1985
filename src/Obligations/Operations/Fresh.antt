-- ===== src/Obligations/Operations/Fresh.antt =====
-- Identifiers still to be drawn name no node, so a node with a statement can always be added.
use nexus_u.Prelude.{
  ℕ, suc, ◌≤◌, String, false, ◌||◌, ◌≡◌, refl, ap, ◌∙◌, Option, none, some, List, [], ◌∷◌, ◌++◌, ok,
  contains, str_eq, str_eq_refl, str_eq→eq, Bool-cases, inl, inr, arith,
}
use nexus_u.Obligations.Text.{strip}
use nexus_u.Obligations.Graph.{
  ObligationStatus, Metadata, ObligationNode, node_ids, find_node, update_node,
}
use nexus_u.Obligations.Exec.{World, Exec, ◌>>=◌}
use nexus_u.Obligations.Operations.{
  NewNode, created, closed, node_at, add_node, insert_node, record_event, close_node, defer,
  escalate,
}
use nexus_u.Obligations.Operations.Linked.{linked_by}
use nexus_u.Obligations.Operations.Steps.{Stepwise}

pub contains-node_ids-append :
    (x : String) (ns : List ObligationNode) (n : ObligationNode)
    → contains x (node_ids (ns ++ n ∷ [])) ≡ (contains x (node_ids ns) || str_eq n.node_id x)
unfolding node_ids
contains-node_ids-append x [] n = ground arith
contains-node_ids-append x (m ∷ ns) n = rw (contains-node_ids-append x ns n) (ground arith)

pub node_ids-update_node :
    (x : String) (status : ObligationStatus) (entries : Metadata) (ns : List ObligationNode)
    → node_ids (update_node x (closed status entries) ns) ≡ node_ids ns
unfolding node_ids update_node
node_ids-update_node x status entries [] = refl
node_ids-update_node x status entries (n ∷ ns) = elim (Bool-cases (str_eq n.node_id x)) [
  | inl h ↦ rw h (ap (λ ids. n.node_id ∷ ids) (node_ids-update_node x status entries ns))
  | inr h ↦ rw h (ap (λ ids. n.node_id ∷ ids) (node_ids-update_node x status entries ns))
]

unfoldable pub Fresh : (ℕ → String) → World → Type 0
Fresh uuid w = (k : ℕ) → w.drawn ≤ k → contains (uuid k) (node_ids w.graph.nodes) ≡ false

abbrev pub KeepsFresh : (ℕ → String) → World → World → Type 0
KeepsFresh uuid w w' = Fresh uuid w → Fresh uuid w'

module _ (uuid : ℕ → String) (injective : (j k : ℕ) → uuid j ≡ uuid k → j ≡ k) where
  differ : (j k : ℕ) → suc j ≤ k → str_eq (uuid j) (uuid k) ≡ false
  differ j k lt = elim (Bool-cases (str_eq (uuid j) (uuid k))) [
    | inl h ↦ absurd (omega (arith, injective j k (str_eq→eq _ _ h)))
    | inr h ↦ h
  ]

  pub freshening : Stepwise uuid (KeepsFresh uuid)
  unfolding Fresh
  freshening = record {
    same = λ w h. h;
    both = λ u v w h k f. k (h f);
    drew = λ w h k le. h k (omega arith);
    noted = λ w e h. h;
    linked =
        linked_by uuid {R = KeepsFresh uuid} (λ w h. h) (λ u v w h k f. k (h f))
          (λ w h k le. h k (omega arith)) (λ w e h. h) (λ w es h. h);
    added = λ w new c h k le.
        contains-node_ids-append (uuid k) w.graph.nodes (created uuid new (uuid w.drawn))
        ∙ rw (h k (omega arith), differ w.drawn k le) refl;
    changed = λ w x status entries h k le.
        ap (contains (uuid k)) (node_ids-update_node x status entries w.graph.nodes) ∙ h k le;
  }

-- The first node of a list that ends in a node with the identifier.
found_last :
    (x : String) (ns : List ObligationNode) (n : ObligationNode)
    → n.node_id ≡ x
    → (m : ObligationNode) × (find_node x (ns ++ n ∷ []) ≡ some m)
unfolding find_node
found_last x [] n h = (n, rw (h, str_eq_refl x))
found_last x (m ∷ ns) n h = elim (Bool-cases (str_eq m.node_id x)) [
  | inl e ↦ (m, rw e)
  | inr e ↦ let (k, found) = found_last x ns n h in (k, rw e found)
]

module _ (uuid : ℕ → String) where
  -- A call that returns a value, and what is true then.
  abbrev pub Returns : {A : Type 0} → Exec A → World → (A → World → Type 0) → Type 0
  Returns {A} m w P = (w' : World) × (a : A) × (m w ≡ (w', ok a)) × P a w'

  abbrev pub HasNode : String → World → Type 0
  HasNode x w = (n : ObligationNode) × (find_node x w.graph.nodes ≡ some n)

  pub add_node-Returns :
      (new : NewNode) (w : World)
      → new.given_id ≡ none
      → str_eq (strip new.new_statement) "" ≡ false
      → Fresh uuid w
      → Returns (add_node uuid new) w HasNode
  unfolding add_node insert_node ◌>>=◌ record_event Fresh
  add_node-Returns new w h s f =
      rw (s, h, f w.drawn (omega arith))
        (_, _, refl, found_last (uuid w.drawn) w.graph.nodes (created uuid new (uuid w.drawn)) refl)

  pub defer-Returns :
      (x reason : String) (rs : List String) (w : World)
      → HasNode x w
      → Returns (defer uuid x reason rs) w (λ a w'. Unit)
  unfolding defer node_at ◌>>=◌ close_node record_event
  defer-Returns x reason rs w (n, e) = rw e (_, _, refl, tt)

  pub escalate-Returns :
      (x reason : String) (o : Option String) (w : World)
      → HasNode x w
      → Returns (escalate uuid x reason o) w (λ a w'. Unit)
  unfolding escalate node_at ◌>>=◌ close_node record_event
  escalate-Returns x reason o w (n, e) = rw e (_, _, refl, tt)
