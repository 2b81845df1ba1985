-- ===== src/Obligations/Cycles/Acyclic.antt =====
-- A search that finds nothing proves the graph acyclic: the nodes are finished in an order in which
-- every edge points backwards.
use nexus_u.Prelude.{
  ℕ, zero, suc, ◌<◌, ◌≤◌, String, true, ◌≡◌, refl, inl, inr, List, [], ◌∷◌, ◌++◌, ok, contains,
  str_eq, str_eq→eq, str_eq_refl, length, if◌then◌else◌, Bool-cases, arith,
}
use nexus_u.Prelude.Ensures.{Ensures, Ensures-if, returns, raises, ◌⊳◌, value_ensured}
use nexus_u.Obligations.Graph.{ObligationEdge, ObligationGraph, node_ids}
use nexus_u.Obligations.Cycles.{
  SearchResult, successors, Search, visit_all, visit, start, sources_known, cycles,
}

-- Every name of the first list is in the second.
abbrev AllIn : List String → List String → Type 0
AllIn [] ys = Unit
AllIn (x ∷ xs) ys = (contains x ys ≡ true) × AllIn xs ys

AllIn-contains :
    (x : String) (xs ys : List String) → AllIn xs ys → contains x xs ≡ true → contains x ys ≡ true
AllIn-contains x [] ys h e = cc
AllIn-contains x (z ∷ xs) ys (p, h) e = elim (Bool-cases (str_eq z x)) [
  | inl same ↦ rw (str_eq→eq z x same) at p
  | inr differ ↦ AllIn-contains x xs ys h (ground arith)
]

abbrev Grows : List String → List String → Type 0
Grows xs ys = (x : String) → contains x xs ≡ true → contains x ys ≡ true

AllIn-Grows : (xs ys zs : List String) → AllIn xs ys → Grows ys zs → AllIn xs zs
AllIn-Grows [] ys zs h g = tt
AllIn-Grows (x ∷ xs) ys zs (p, h) g = (g x p, AllIn-Grows xs ys zs h g)

append_one-ne-nil {ℓ} : {A : Type ℓ} (xs : List A) (x : A) → ¬ ((xs ++ x ∷ []) ≡ [])
append_one-ne-nil [] x e = cc
append_one-ne-nil (y ∷ xs) x e = cc

module _ (known : List String) (edges : List ObligationEdge) where
  -- The successors of each finished node were finished before it.
  abbrev Ordered : List String → Type 0
  Ordered [] = Unit
  Ordered (x ∷ xs) = AllIn (successors x edges) xs × Ordered xs

  -- What a search that found no cycle has done.
  record Clean (s s' : Search) : Type 0 where
    none_before : s.found ≡ []
    ordered : Ordered s.visited → Ordered s'.visited
    grows : Grows s.visited s'.visited

  abbrev Visits : String → Search → Search → Type 0
  Visits x s s' = s'.found ≡ [] → Clean s s' × (contains x s'.visited ≡ true)

  abbrev VisitsAll : List String → Search → Search → Type 0
  VisitsAll xs s s' = s'.found ≡ [] → Clean s s' × AllIn xs s'.visited

  visit_all-clean :
      (go : String → Search → SearchResult Search)
      → ((x : String) (s : Search) → Ensures (Visits x s) (go x s))
      → (xs : List String) (s : Search) → Ensures (VisitsAll xs s) (visit_all go xs s)
  visit_all-clean go h [] s =
      returns λ e. (record { none_before = e; ordered = λ o. o; grows = λ x p. p }, tt)
  visit_all-clean go h (x ∷ xs) s = h x s ⊳ λ s' first. joined s' first (visit_all-clean go h xs s')
    where
      joined :
          (s' : Search)
          → Visits x s s'
          → {r : SearchResult Search} → Ensures (VisitsAll xs s') r
          → Ensures (VisitsAll (x ∷ xs) s) r
      joined s' first (returns {a = s''} rest) = returns λ e.
          let (later, others) = rest e in
          let (now, here) = first later.none_before in
          (
            record {
              none_before = now.none_before;
              ordered = λ o. later.ordered (now.ordered o);
              grows = λ y p. later.grows y (now.grows y p);
            },
            (later.grows x here, others),
          )
      joined s' first raises = raises

  visit-clean : (f : ℕ) (x : String) (s : Search) → Ensures (Visits x s) (visit known edges f x s)
  unfolding visit
  visit-clean zero x s = raises
  visit-clean (suc f) x s = elim (Bool-cases (contains x s.stack)) [
    | inl again ↦ rw again (returns λ e. absurd (append_one-ne-nil _ _ e))
    | inr new ↦ rw new (elim (Bool-cases (contains x s.visited)) [
      | inl done ↦
          rw done
            (returns λ e. (record { none_before = e; ordered = λ o. o; grows = λ y p. p }, done))
      | inr fresh ↦ rw fresh (elim (Bool-cases (contains x known)) [
        | inl node ↦ rw node (
            visit_all-clean (visit known edges f) (visit-clean f) (successors x edges)
              (record s { stack = x ∷ s.stack })
            ⊳ λ s' h. returns λ e.
              let (c, below) = h e in
              (
                record {
                  none_before = c.none_before;
                  ordered = λ o. (below, c.ordered o);
                  grows = λ y p. ground (arith, c.grows y p);
                },
                ground (arith, str_eq_refl x),
              ))
        | inr missing ↦ rw missing raises
      ])
    ])
  ]

  -- Paths of one edge or more that are no contradictions.
  pub data Leads (x : String) : String → Type 0 where
    edge : {y : String} → contains y (successors x edges) ≡ true → Leads x y
    further : {y z : String} → Leads x y → contains z (successors y edges) ≡ true → Leads x z

  -- The place of a finished node, counted from the first one finished.
  place : String → List String → ℕ
  place x [] = 0
  place x (y ∷ ys) = if contains x ys then place x ys else suc (length ys)

  place-le : (x : String) (ys : List String) → place x ys ≤ length ys
  unfolding place
  place-le x [] = omega arith
  place-le x (y ∷ ys) = ground (arith, place-le x ys)

  place-successor :
      (x y : String) (zs : List String)
      → Ordered zs
      → contains x zs ≡ true
      → contains y (successors x edges) ≡ true
      → (contains y zs ≡ true) × (place y zs < place x zs)
  unfolding place
  place-successor x y [] o h e = cc
  place-successor x y (z ∷ zs) (below, o) h e = elim (Bool-cases (contains x zs)) [
    | inl later ↦
        let (p, lt) = place-successor x y zs o later e in (ground (arith, p), ground (arith, p, lt))
    | inr first ↦
        let same : z ≡ x = str_eq→eq z x (ground arith) in
        let p : contains y zs ≡ true = AllIn-contains y _ zs (rw same at below) e in
        (ground (arith, p), ground (arith, p, place-le y zs))
  ]

  place-Leads :
      {x y : String} (zs : List String)
      → Ordered zs
      → contains x zs ≡ true
      → Leads x y
      → (contains y zs ≡ true) × (place y zs < place x zs)
  place-Leads zs o h (edge e) = place-successor _ _ zs o h e
  place-Leads zs o h (further p e) =
      let (q, lt) = place-Leads zs o h p in
      let (r, lt') = place-successor _ _ zs o q e in (r, omega arith)

  source_known :
      (x y : String) (es : List ObligationEdge)
      → sources_known known es ≡ true
      → contains y (successors x es) ≡ true
      → contains x known ≡ true
  unfolding successors
  source_known x y [] h e = cc
  source_known x y (d ∷ es) h e = ground (arith, source_known x y es, str_eq→eq d.source x)

  first_edge : {x y : String} → Leads x y → (z : String) × (contains z (successors x edges) ≡ true)
  first_edge (edge {y = z} e) = (z, e)
  first_edge (further p e) = first_edge p

  no_return :
      (s : Search)
      → sources_known known edges ≡ true
      → AllIn known s.visited
      → Ordered s.visited
      → (x : String) → ¬ Leads x x
  no_return s h all o x p =
      let (z, e) = first_edge p in
      let here = AllIn-contains x known s.visited all (source_known x z edges h e) in
      let (_, lt) = place-Leads s.visited o here p in omega arith

-- What a list of cycles says of the graph if it is empty.
abbrev Exhaustive : ObligationGraph → List (List String) → Type 0
Exhaustive g found = found ≡ [] → (x : String) → ¬ Leads (node_ids g.nodes) g.edges x x

cycles-Exhaustive : (g : ObligationGraph) → Ensures (Exhaustive g) (cycles g)
unfolding cycles
cycles-Exhaustive g =
    let known = node_ids g.nodes in
    Ensures-if (sources_known known g.edges)
      (λ h.
        visit_all-clean known g.edges (visit known g.edges (suc (length known)))
          (visit-clean known g.edges (suc (length known))) known start
        ⊳ λ s clean.
            returns λ e. let (c, all) = clean e in no_return known g.edges s h all (c.ordered tt))
      (λ h. raises)

-- If `cycles` returns no cycle, then no path of edges that are not contradictions leads from a node
-- back to itself.
pub cycles_complete :
    (g : ObligationGraph) → cycles g ≡ ok [] → (x : String) → ¬ Leads (node_ids g.nodes) g.edges x x
cycles_complete g e = value_ensured (rw e at (cycles-Exhaustive g)) refl
