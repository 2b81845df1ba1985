-- ===== src/Obligations/Operations/Wired.antt =====
-- Every operation leaves a graph whose edges join nodes of it and lead nowhere in a circle.
use nexus_u.Prelude.{
  ℕ, suc, String, true, ◌≡◌, refl, ap, ◌∙◌, inl, inr, List, [], ◌∷◌, ok, contains, Bool-cases,
}
use nexus_u.Obligations.Graph.{
  ObligationEdge, ObligationGraph, empty_graph, put_edge, is_contradicts, node_ids, Relation,
  Metadata,
}
use nexus_u.Obligations.Cycles.{successors, cycles}
use nexus_u.Obligations.Cycles.Acyclic.{Leads, edge, further, cycles_complete}
use nexus_u.Obligations.Cycles.Known.{AllEnds, cycles_total}
use nexus_u.Obligations.Exec.{World, ◌>>=◌}
use nexus_u.Obligations.Operations.{settle_edge, insert_edge, record_event, add_edge}
use nexus_u.Obligations.Cycles.Within.{
  Within, Leads-Within, put_edge-Within, remove_edge-put_edge-Within, put_edge-AllEnds,
  remove_edge-AllEnds, AllEnds-grow,
}
use nexus_u.Obligations.Operations.Every.{StepwiseGiven, Steps-perform_all}
use nexus_u.Obligations.Operations.Steps.{Stepwise}
use nexus_u.Obligations.Operations.Commands.{Command, perform_all}
use nexus_u.Obligations.Operations.Fresh.{contains-node_ids-append, node_ids-update_node}

-- Every edge joins two nodes, and no path of edges that are not contradictions is a circle.
pub record Wired (g : ObligationGraph) : Type 0 where
  pub ends : AllEnds (node_ids g.nodes) g.edges
  pub acyclic : (x : String) → ¬ Leads (node_ids g.nodes) g.edges x x

nowhere : {x y : String} → ¬ Leads [] [] x y
unfolding successors
nowhere (edge e) = cc
nowhere (further p e) = nowhere p

pub empty_graph-Wired : Wired empty_graph
unfolding node_ids
empty_graph-Wired = record { ends = tt; acyclic = λ x p. nowhere p }

unfoldable pub KeepsWired : World → World → Type 0
KeepsWired w w' = Wired w.graph → Wired w'.graph

-- With more nodes, and steps that were there.
Wired-Within :
    (g g' : ObligationGraph)
    → Within g'.edges g.edges
    → AllEnds (node_ids g'.nodes) g'.edges
    → Wired g
    → Wired g'
Wired-Within g g' within ends h = record {
  ends = ends;
  acyclic = λ x p. h.acyclic x (Leads-Within _ _ _ _ within p);
}

-- With the same edges and more nodes.
Wired-more :
    (g g' : ObligationGraph)
    → g'.edges ≡ g.edges
    → ((x : String) → contains x (node_ids g.nodes) ≡ true → contains x (node_ids g'.nodes) ≡ true)
    → Wired g
    → Wired g'
Wired-more g g' e grow h =
    Wired-Within g g' (rw e (λ x y p. p)) (rw e (AllEnds-grow _ _ g.edges grow h.ends)) h

module _ (uuid : ℕ → String) where
  settle_edge-Wired :
      (e : ObligationEdge) (g : ObligationGraph) (w : World)
      → Wired g
      → w.graph.nodes ≡ g.nodes
      → w.graph.edges ≡ put_edge e g.edges
      → AllEnds (node_ids w.graph.nodes) w.graph.edges
      → (found : List (List String)) → cycles w.graph ≡ ok found
      → Wired (settle_edge uuid e found w).0.graph
  unfolding ◌>>=◌ record_event
  settle_edge-Wired e g w h same put ends [] c = record {
    ends = ends;
    acyclic = cycles_complete w.graph c;
  }
  settle_edge-Wired e g w h same put ends (found ∷ more) c =
      elim (Bool-cases (is_contradicts e.relation)) [
        | inl r ↦ rw r (Wired-Within g _ (rw put (put_edge-Within e g.edges r)) ends h)
        | inr r ↦ rw r (
            Wired-Within g _ (rw put (remove_edge-put_edge-Within e g.edges))
              (remove_edge-AllEnds _ e.edge_id _ ends) h)
      ]

  insert_edge-Wired :
      (e : ObligationEdge) (w : World)
      → contains e.source (node_ids w.graph.nodes) ≡ true
      → contains e.target (node_ids w.graph.nodes) ≡ true
      → Wired w.graph
      → Wired (insert_edge uuid e w).0.graph
  unfolding insert_edge ◌>>=◌
  insert_edge-Wired e w s t h =
      let w' : World = record w { graph = record w.graph { edges = put_edge e w.graph.edges } } in
      let ends = put_edge-AllEnds _ e w.graph.edges s t h.ends in
      let (found, c) = cycles_total w'.graph ends in
      rw c (settle_edge-Wired e w.graph w' h refl refl ends found c)

  add_edge-Wired :
      (x y : String) (r : Relation) (m : Metadata) (w : World)
      → Wired w.graph
      → Wired (add_edge uuid x y r m w).0.graph
  unfolding add_edge ◌>>=◌
  add_edge-Wired x y r m w h = elim (Bool-cases (contains x (node_ids w.graph.nodes))) [
    | inl s ↦ elim (Bool-cases (contains y (node_ids w.graph.nodes))) [
      | inl t ↦ rw (s, t) (insert_edge-Wired _ (record w { drawn = suc w.drawn }) s t h)
      | inr t ↦ rw (s, t) h
    ]
    | inr s ↦ rw s h
  ]

  pub wiring : Stepwise uuid KeepsWired
  unfolding KeepsWired
  wiring = record {
    same = λ w h. h;
    both = λ u v w h k g. k (h g);
    drew = λ w h. h;
    noted = λ w e h. record { ends = h.ends; acyclic = h.acyclic };
    linked = add_edge-Wired;
    added = λ w new f h.
        Wired-more w.graph _ refl (λ x p. contains-node_ids-append x w.graph.nodes _ ∙ rw p refl) h;
    changed = λ w x status entries h.
        Wired-more w.graph _ refl
          (λ y p. ap (contains y) (node_ids-update_node x status entries w.graph.nodes) ∙ p) h;
  }

  wiring_given : StepwiseGiven uuid KeepsWired
  unfolding KeepsWired
  wiring_given = record {
    stepwise = wiring;
    given = λ w new x f h.
        Wired-more w.graph _ refl (λ y p. contains-node_ids-append y w.graph.nodes _ ∙ rw p refl) h;
  }

  -- If every edge of a graph joins two nodes of it and no path of edges that are not contradictions
  -- is a circle, then so it is after any sequence of operations, those that raise included.
  pub perform_all-Wired :
      (cs : List Command) (w : World) → Wired w.graph → Wired (perform_all uuid cs w).graph
  unfolding KeepsWired
  perform_all-Wired cs w h = Steps-perform_all wiring_given cs w h
