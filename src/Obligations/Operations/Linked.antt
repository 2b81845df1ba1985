-- ===== src/Obligations/Operations/Linked.antt =====
-- What holds from before to after `add_edge`, if it holds of the changes it is made of.
use nexus_u.Prelude.{
  ℕ, suc, String, ◌&&◌, List, [], ◌∷◌, ◌++◌, ok, err, contains, Bool-cases, inl, inr,
}
use nexus_u.Obligations.Graph.{
  ObligationEdge, put_edge, is_contradicts, Relation, Metadata, GraphEvent, node_ids,
}
use nexus_u.Obligations.Cycles.{SearchResult, cycles}
use nexus_u.Obligations.Exec.{World, search_fault, continue, ◌>>=◌}
use nexus_u.Obligations.Operations.{settle_edge, insert_edge, record_event, add_edge}

module _ (uuid : ℕ → String) {R : World → World → Type 0} (same : (w : World) → R w w)
    (both : (u v w : World) → R u v → R v w → R u w)
    (drew : (w : World) → R w (record w { drawn = suc w.drawn }))
    (noted : (w : World) (e : GraphEvent)
      → R w (record w { graph = record w.graph { events = w.graph.events ++ e ∷ [] } }))
    (edged : (w : World) (es : List ObligationEdge)
      → R w (record w { graph = record w.graph { edges = es } })) where
  related-settle_edge :
      (e : ObligationEdge) (found : List (List String)) (w : World)
      → R w (settle_edge uuid e found w).0
  unfolding ◌>>=◌ record_event
  related-settle_edge e [] w = noted w _
  related-settle_edge e (c ∷ cs) w = elim (Bool-cases (is_contradicts e.relation)) [
    | inl h ↦ rw h (noted w _)
    | inr h ↦ rw h (edged w _)
  ]

  related-insert_edge : (e : ObligationEdge) (w : World) → R w (insert_edge uuid e w).0
  unfolding insert_edge ◌>>=◌
  related-insert_edge e w = after (cycles w'.graph)
    where
      w' : World
      w' = record w { graph = record w.graph { edges = put_edge e w.graph.edges } }

      after :
          (r : SearchResult (List (List String)))
          → R w
              (continue
                (settle_edge uuid e)
                (w', elim r [ ok found ↦ ok found | err f ↦ err (search_fault f) ])).0
      after (ok found) = both w w' _ (edged w _) (related-settle_edge e found w')
      after (err f) = edged w _

  pub linked_by :
      (x y : String) (r : Relation) (m : Metadata) (w : World) → R w (add_edge uuid x y r m w).0
  unfolding add_edge ◌>>=◌
  linked_by x y r m w =
      elim (Bool-cases
        (contains x (node_ids w.graph.nodes) && contains y (node_ids w.graph.nodes))) [
          | inl h ↦
              rw h (both w _ _ (drew w) (related-insert_edge _ (record w { drawn = suc w.drawn })))
          | inr h ↦ rw h (same w)
        ]
