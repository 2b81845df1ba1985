-- ===== src/Federation/Merge/Joined.antt =====
-- A merged graph joins only its own nodes.
use nexus_u.Prelude.{
  ℕ, suc, String, Bool, true, false, not, ◌&&◌, ◌||◌, ◌≡◌, refl, ◌∙◌, List, [], ◌∷◌, ◌++◌, ok, err,
  >>=-eq-ok, contains, str_eq, str_eq→eq, str_eq_refl, Bool-cases, inl, inr, arith,
}
use nexus_u.Federation.Merge.{
  CrossRepositoryObligation, MergedEdge, MergedNode, GraphOf, MergeResult, Namespaced, Collected,
  Merged, Outside, scoped, ids_of, sorted_graphs, left_graph, scoped_nodes, mapped, scoped_edges,
  namespace_graph, gather, collect, is_unresolved, link_all, merged_with, merge_graphs,
}

-- Both ends of every edge are among the identifiers.
module _ {Value : Type 0} where
  abbrev pub Joined : List String → List (MergedEdge Value) → Type 0
  Joined ids [] = Unit
  Joined ids (e ∷ es) =
      ((contains e.source ids ≡ true) × (contains e.target ids ≡ true)) × Joined ids es

  Joined-append :
      (ids : List String) (es ds : List (MergedEdge Value))
      → Joined ids es
      → Joined ids ds
      → Joined ids (es ++ ds)
  Joined-append ids [] ds h k = k
  Joined-append ids (e ∷ es) ds (p, h) k = (p, Joined-append ids es ds h k)

  Joined-weaken :
      (ids ids' : List String) (es : List (MergedEdge Value))
      → ((x : String) → contains x ids ≡ true → contains x ids' ≡ true)
      → Joined ids es
      → Joined ids' es
  Joined-weaken ids ids' [] k h = tt
  Joined-weaken ids ids' (e ∷ es) k ((s, t), h) =
      ((k e.source s, k e.target t), Joined-weaken ids ids' es k h)

or_left : (a b : Bool) → a ≡ true → (a || b) ≡ true
or_left a b h = ground arith

or_right : (a b : Bool) → b ≡ true → (a || b) ≡ true
or_right a b h = ground arith

module _ {Value : Type 0} where
  contains-ids_of-append :
      (x : String) (ns ms : List (MergedNode Value))
      → contains x (ids_of (ns ++ ms)) ≡ (contains x (ids_of ns) || contains x (ids_of ms))
  unfolding ids_of
  contains-ids_of-append x [] ms = refl
  contains-ids_of-append x (n ∷ ns) ms = rw (contains-ids_of-append x ns ms) (ground arith)

module _ {Value : Type 0} (o : Outside Value) where
  contains-scoped :
      (r x : String) (ns : List (MergedNode Value))
      → contains x (ids_of ns) ≡ true
      → contains (scoped r x) (ids_of (scoped_nodes o r ns)) ≡ true
  unfolding ids_of scoped_nodes
  contains-scoped r x [] h = cc
  contains-scoped r x (n ∷ ns) h = elim (Bool-cases (str_eq n.node_id x)) [
    | inl p ↦ rw (str_eq→eq n.node_id x p) (or_left _ _ (str_eq_refl (scoped r x)))
    | inr p ↦ or_right _ _ (contains-scoped r x ns (rw p at h))
  ]

  mapped-contains :
      (r x : String) (ns : List (MergedNode Value)) {y : String}
      → mapped o r (ids_of ns) x ≡ ok y
      → contains y (ids_of (scoped_nodes o r ns)) ≡ true
  unfolding mapped
  mapped-contains r x ns {y} h = elim (Bool-cases (contains x (ids_of ns))) [
    | inl p ↦
        let q = rw p at h in let same : scoped r x ≡ y = cc in rw⁻¹ same (contains-scoped r x ns p)
    | inr p ↦ absurd (let q = rw p at h in cc)
  ]

  scoped_edges-Joined :
      (r : String) (ns : List (MergedNode Value)) (es : List (MergedEdge Value))
      {ds : List (MergedEdge Value)}
      → scoped_edges o r (ids_of ns) es ≡ ok ds
      → Joined (ids_of (scoped_nodes o r ns)) ds
  unfolding scoped_edges
  scoped_edges-Joined r ns [] {ds} h = let p : [] ≡ ds = cc in rw⁻¹ p tt
  scoped_edges-Joined r ns (e ∷ es) {ds} h =
      let (source, s, h₁) = >>=-eq-ok (mapped o r (ids_of ns) e.source) _ h in
      let (target, t, h₂) = >>=-eq-ok (mapped o r (ids_of ns) e.target) _ h₁ in
      let (rest, q, h₃) = >>=-eq-ok (scoped_edges o r (ids_of ns) es) _ h₂ in
      let p : record e { edge_id = scoped r e.edge_id; source = source; target = target } ∷ rest
          ≡ ds =
        cc in
      rw⁻¹ p (
        (mapped-contains r e.source ns s, mapped-contains r e.target ns t),
        scoped_edges-Joined r ns es q,
      )

  abbrev OwnEdges : List (MergedNode Value) → List (MergedEdge Value) → Type 0
  OwnEdges ns es = Joined (ids_of ns) es

  namespace_graph-OwnEdges :
      (r : String) (g : GraphOf Value) {h : Namespaced Value}
      → (namespace_graph o r g).1 ≡ ok h
      → OwnEdges h.nodes h.edges × (h.digest ≡ o.graph_digest (namespace_graph o r g).0)
  unfolding namespace_graph
  namespace_graph-OwnEdges r g {h} e =
      let (edges, p, q) = >>=-eq-ok (scoped_edges o r (ids_of g.nodes) g.edges) _ e in
      let same : record {
        digest = o.graph_digest (left_graph o r g);
        nodes = scoped_nodes o r g.nodes;
        edges = edges;
      }
          ≡ h =
        cc in
      rw⁻¹ same (scoped_edges-Joined r g.nodes g.edges p, refl)

  -- The digest of each graph.
  abbrev pub digests : List (String × GraphOf Value) → List (String × String)
  digests [] = []
  digests ((r, g) ∷ rest) = (r, o.graph_digest g) ∷ digests rest

  abbrev Faithful : List (String × GraphOf Value) → Collected Value → Type 0
  Faithful left c = OwnEdges c.nodes c.edges × (c.repositories ≡ digests left)

  gather-Faithful :
      (r : String) (p : GraphOf Value × MergeResult (Namespaced Value))
      (rest : List (String × GraphOf Value))
      (later : List (String × GraphOf Value) × MergeResult (Collected Value)) {c : Collected Value}
      → ((h : Namespaced Value)
          → p.1 ≡ ok h
          → OwnEdges h.nodes h.edges × (h.digest ≡ o.graph_digest p.0))
      → ((l : Collected Value) → later.1 ≡ ok l → Faithful later.0 l)
      → (gather o r p rest later).1 ≡ ok c
      → Faithful (gather o r p rest later).0 c
  unfolding ids_of
  gather-Faithful r (g, err f) rest later {c} first others e = absurd cc
  gather-Faithful r (g, ok h) rest (left, later) {c} first others e =
      let (own, digest) = first h refl in
      let (l, p, q) = >>=-eq-ok later _ e in
      let (owned, recorded) = others l p in
      let same : record {
        repositories = (r, h.digest) ∷ l.repositories;
        nodes = h.nodes ++ l.nodes;
        edges = h.edges ++ l.edges;
      }
          ≡ c =
        cc in
      rw⁻¹ same (
        Joined-append _ h.edges l.edges
            (Joined-weaken _ _ h.edges
              (λ x k. contains-ids_of-append x h.nodes l.nodes ∙ or_left _ _ k) own)
            (Joined-weaken _ _ l.edges
              (λ x k. contains-ids_of-append x h.nodes l.nodes ∙ or_right _ _ k) owned),
        rw (digest, recorded) refl,
      )

  collect-Faithful :
      (items : List (String × GraphOf Value)) {c : Collected Value}
      → (collect o items).1 ≡ ok c
      → Faithful (collect o items).0 c
  unfolding collect ids_of
  collect-Faithful [] {c} e =
      let same : record { repositories = []; nodes = []; edges = [] } ≡ c = cc in
      rw⁻¹ same (tt, refl)
  collect-Faithful ((r, g) ∷ rest) e =
      gather-Faithful r (namespace_graph o r g) rest (collect o rest)
        (λ h q. namespace_graph-OwnEdges r g q) (λ l q. collect-Faithful rest q) e

  resolved : (a b c : Bool) → (not (a && b) || c) ≡ false → (a ≡ true) × (b ≡ true)
  resolved a b c h = ground arith

  link_all-Joined :
      (ids : List String) (repositories : List (String × String)) (index : ℕ)
      (links : List CrossRepositoryObligation)
      → Joined ids (link_all o ids repositories index links).0
  unfolding link_all is_unresolved
  link_all-Joined ids repositories index [] = tt
  link_all-Joined ids repositories index (link ∷ links) =
      elim (Bool-cases (is_unresolved o ids repositories link)) [
        | inl p ↦ rw p (link_all-Joined ids repositories (suc index) links)
        | inr p ↦ rw p (resolved _ _ _ p, link_all-Joined ids repositories (suc index) links)
      ]

  -- Where merging returns, both ends of every edge of the merged graph are nodes of it, the edges
  -- between repositories among them, and the digest recorded for each repository is that of its
  -- graph as merging leaves it.
  pub merge_graphs-Joined :
      (graphs : List (String × GraphOf Value)) (links : List CrossRepositoryObligation)
      {merged : Merged Value}
      → (merge_graphs o graphs links).1 ≡ ok merged
      → Joined (ids_of merged.nodes) merged.edges
        × (merged.repositories ≡ digests (merge_graphs o graphs links).0)
  unfolding merge_graphs
  merge_graphs-Joined graphs links {merged} e =
      let (c, p, q) = >>=-eq-ok (collect o (sorted_graphs graphs)).1 _ e in
      let (own, recorded) = collect-Faithful (sorted_graphs graphs) p in
      let same : merged_with o links c ≡ merged = cc in
      rw⁻¹ same (
        Joined-append _ c.edges _ own (link_all-Joined (ids_of c.nodes) c.repositories 0 links),
        recorded,
      )
