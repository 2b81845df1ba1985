-- ===== src/Obligations/Cycles/Real.antt =====
-- What the search finds is there: a node that a path of edges leads back to.
use nexus_u.Prelude.{
  ℕ, zero, suc, String, true, ◌≡◌, refl, sym, ◌∙◌, inl, inr, List, [], ◌∷◌, ok, contains, str_eq,
  str_eq→eq, str_eq_refl, length, Bool-cases, arith,
}
use nexus_u.Prelude.Ensures.{Ensures, Ensures-if, returns, raises, ◌⊳◌, value_ensured}
use nexus_u.Obligations.Graph.{ObligationEdge, ObligationGraph, node_ids}
use nexus_u.Obligations.Cycles.{
  SearchResult, successors, Search, visit_all, visit, start, sources_known, cycles,
}
use nexus_u.Obligations.Cycles.Acyclic.{Leads, edge, further}

-- Nothing is found, or there is a circle.
data Real (known : List String) (edges : List ObligationEdge) (s s' : Search) : Type 0 where
  nothing : s'.stack ≡ s.stack → s'.found ≡ s.found → Real known edges s s'
  circle : s'.stack ≡ s.stack → (z : String) → Leads known edges z z → Real known edges s s'

module _ (known : List String) (edges : List ObligationEdge) where
  -- Every node on the way down leads to each of the names.
  LeadTo : List String → List String → Type 0
  LeadTo st xs =
      (z y : String) → contains z st ≡ true → contains y xs ≡ true → Leads known edges z y

  Real-both :
      (s s' s'' : Search) → Real known edges s s' → Real known edges s' s'' → Real known edges s s''
  Real-both s s' s'' (nothing p q) (nothing p' q') = nothing (p' ∙ p) (q' ∙ q)
  Real-both s s' s'' (nothing p q) (circle p' z c) = circle (p' ∙ p) z c
  Real-both s s' s'' (circle p z c) (nothing p' q') = circle (p' ∙ p) z c
  Real-both s s' s'' (circle p z c) (circle p' z' c') = circle (p' ∙ p) z c

  stack_kept : (s s' : Search) → Real known edges s s' → s'.stack ≡ s.stack
  stack_kept s s' (nothing p q) = p
  stack_kept s s' (circle p z c) = p

  Ensures-after :
      (s s' : Search) {r : SearchResult Search}
      → Real known edges s s'
      → Ensures (Real known edges s') r
      → Ensures (Real known edges s) r
  Ensures-after s s' h (returns k) = returns (Real-both s s' _ h k)
  Ensures-after s s' h raises = raises

  visit_all-Real :
      (go : String → Search → SearchResult Search) (st : List String)
      → ((x : String) (s : Search)
          → s.stack ≡ st
          → LeadTo st (x ∷ [])
          → Ensures (Real known edges s) (go x s))
      → (xs : List String) (s : Search) → s.stack ≡ st
      → LeadTo st xs
      → Ensures (Real known edges s) (visit_all go xs s)
  unfolding LeadTo
  visit_all-Real go st h [] s e l = returns (nothing refl refl)
  visit_all-Real go st h (x ∷ xs) s e l =
      h x s e (λ z y p q. l z y p (ground (arith, q))) ⊳ λ s' first. Ensures-after s s' first (
        visit_all-Real go st h xs s' (stack_kept s s' first ∙ e)
          (λ z y p q. l z y p (ground (arith, q))))

  -- One node further down.
  LeadTo-successors :
      (x : String) (st : List String) → LeadTo st (x ∷ []) → LeadTo (x ∷ st) (successors x edges)
  unfolding LeadTo
  LeadTo-successors x st l z y p q = elim (Bool-cases (str_eq x z)) [
    | inl same ↦ rw (sym (str_eq→eq x z same)) (edge q)
    | inr differ ↦ further (l z x (rw differ at p) (ground (arith, str_eq_refl x))) q
  ]

  Real-restored :
      (s s' : Search) (x : String) (done : List String)
      → Real known edges (record s { stack = x ∷ s.stack }) s'
      → Real known edges s (record s' { stack = s.stack; visited = done })
  Real-restored s s' x done (nothing p q) = nothing refl q
  Real-restored s s' x done (circle p z c) = circle refl z c

  visit-Real :
      (f : ℕ) (x : String) (s : Search)
      → LeadTo s.stack (x ∷ [])
      → Ensures (Real known edges s) (visit known edges f x s)
  unfolding visit LeadTo
  visit-Real zero x s l = raises
  visit-Real (suc f) x s l = elim (Bool-cases (contains x s.stack)) [
    | inl again ↦ rw again (returns (circle refl x (l x x again (ground (arith, str_eq_refl x)))))
    | inr new ↦ rw new (elim (Bool-cases (contains x s.visited)) [
      | inl done ↦ rw done (returns (nothing refl refl))
      | inr fresh ↦ rw fresh (elim (Bool-cases (contains x known)) [
        | inl node ↦ rw node (
            visit_all-Real (visit known edges f) (x ∷ s.stack)
              (λ y s' e l'. visit-Real f y s' (rw e l')) (successors x edges)
              (record s { stack = x ∷ s.stack }) refl (LeadTo-successors x s.stack l)
            ⊳ λ s' h. returns (Real-restored s s' x (x ∷ s'.visited) h))
        | inr missing ↦ rw missing raises
      ])
    ])
  ]

-- A list of cycles that is not empty has a circle behind it.
abbrev Backed : ObligationGraph → List (List String) → Type 0
Backed g found = ¬ (found ≡ []) → (z : String) × Leads (node_ids g.nodes) g.edges z z

backed :
    (g : ObligationGraph) (s : Search) → Real (node_ids g.nodes) g.edges start s → Backed g s.found
backed g s (nothing p q) h = absurd (h q)
backed g s (circle p z c) h = (z, c)

cycles-Backed : (g : ObligationGraph) → Ensures (Backed g) (cycles g)
unfolding cycles LeadTo
cycles-Backed g =
    let known = node_ids g.nodes in
    Ensures-if (sources_known known g.edges)
      (λ h.
        visit_all-Real known g.edges (visit known g.edges (suc (length known))) []
          (λ x s e l. visit-Real known g.edges (suc (length known)) x s (rw e l)) known start refl
          (λ z y p q. absurd cc)
        ⊳ λ s r. returns (backed g s r))
      (λ h. raises)

-- If `cycles` returns a cycle, then a path of edges that are not contradictions leads from some node
-- back to itself.
pub cycles_sound :
    (g : ObligationGraph) (found : List (List String))
    → cycles g ≡ ok found
    → ¬ (found ≡ [])
    → (z : String) × Leads (node_ids g.nodes) g.edges z z
cycles_sound g found e = value_ensured (rw e at (cycles-Backed g))
