-- ===== src/Obligations/Cycles/Known.antt =====
-- A graph whose edges join nodes: the search for cycles returns.
use nexus_u.Prelude.{
  ℕ, zero, suc, String, true, ◌≡◌, refl, inl, inr, List, [], ◌∷◌, ok, err, ◌>>=◌, contains, str_eq,
  str_eq→eq, str_eq_refl, length, Bool-cases, arith,
}
use nexus_u.Obligations.Graph.{ObligationEdge, ObligationGraph, node_ids, is_contradicts}
use nexus_u.Obligations.Cycles.{
  SearchResult, out_of_fuel, successors, Search, visit_all, visit, start, sources_known, cycles,
}
use nexus_u.Obligations.Cycles.Fuel.{cycles_ends}

abbrev pub AllEnds : List String → List ObligationEdge → Type 0
AllEnds known [] = Unit
AllEnds known (e ∷ es) =
    (contains e.source known ≡ true) × (contains e.target known ≡ true) × AllEnds known es

pub successor_known :
    (known : List String) (x y : String) (es : List ObligationEdge)
    → AllEnds known es
    → contains y (successors x es) ≡ true
    → (contains x known ≡ true) × (contains y known ≡ true)
unfolding successors
successor_known known x y [] h e = cc
successor_known known x y (d ∷ es) (s, t, h) e = elim (Bool-cases (is_contradicts d.relation)) [
  | inl c ↦ successor_known known x y es h (rw c at e)
  | inr c ↦ elim (Bool-cases (str_eq d.source x)) [
    | inl p ↦ elim (Bool-cases (str_eq d.target y)) [
      | inl q ↦ (rw (str_eq→eq _ _ p) at s, rw (str_eq→eq _ _ q) at t)
      | inr q ↦ successor_known known x y es h (rw q at (rw p at (rw c at e)))
    ]
    | inr p ↦ successor_known known x y es h (rw p at (rw c at e))
  ]
]

AllEnds-sources_known :
    (known : List String) (es : List ObligationEdge)
    → AllEnds known es
    → sources_known known es ≡ true
AllEnds-sources_known known [] h = refl
AllEnds-sources_known known (d ∷ es) (s, t, h) = elim (Bool-cases (is_contradicts d.relation)) [
  | inl c ↦ rw c (AllEnds-sources_known known es h)
  | inr c ↦ rw (c, s) (AllEnds-sources_known known es h)
]

-- No node is missing.
data Found {A : Type 0} : SearchResult A → Type 0 where
  value : {a : A} → Found (ok a)
  spent : Found (err out_of_fuel)

Found-bind :
    {A B : Type 0} {r : SearchResult A} {f : A → SearchResult B}
    → Found r
    → ((a : A) → Found (f a))
    → Found (r >>= f)
Found-bind value h = h _
Found-bind spent h = spent

module _ (known : List String) where
  Among : List String → Type 0
  Among xs = (y : String) → contains y xs ≡ true → contains y known ≡ true

  visit_all-Found :
      (go : String → Search → SearchResult Search)
      → ((x : String) (s : Search) → contains x known ≡ true → Found (go x s))
      → (xs : List String) (s : Search) → Among xs
      → Found (visit_all go xs s)
  unfolding Among
  visit_all-Found go h [] s a = value
  visit_all-Found go h (x ∷ xs) s a =
      Found-bind (h x s (a x (ground (arith, str_eq_refl x))))
        (λ s'. visit_all-Found go h xs s' (λ y p. a y (ground (arith, p))))

  module _ (edges : List ObligationEdge) (ends : AllEnds known edges) where
    visit-Found :
        (f : ℕ) (x : String) (s : Search)
        → contains x known ≡ true
        → Found (visit known edges f x s)
    unfolding visit Among
    visit-Found zero x s h = spent
    visit-Found (suc f) x s h = elim (Bool-cases (contains x s.stack)) [
      | inl again ↦ rw again value
      | inr new ↦ rw new (elim (Bool-cases (contains x s.visited)) [
        | inl done ↦ rw done value
        | inr fresh ↦
            rw (fresh, h)
              (Found-bind
                (visit_all-Found (visit known edges f) (visit-Found f) (successors x edges)
                  (record s { stack = x ∷ s.stack })
                  (λ y p. (successor_known known x y edges ends p).1))
                (λ s'. value))
      ])
    ]

returned :
    {A : Type 0} {r : SearchResult A} → Found r → ¬ (r ≡ err out_of_fuel) → (a : A) × (r ≡ ok a)
returned (value {a = a}) h = (a, refl)
returned spent h = absurd (h refl)

-- The search of a graph whose edges join nodes of it returns the list of its cycles.
pub cycles_total :
    (g : ObligationGraph)
    → AllEnds (node_ids g.nodes) g.edges
    → (found : List (List String)) × (cycles g ≡ ok found)
unfolding cycles Among
cycles_total g ends =
    let known = node_ids g.nodes in
    let f : Found (cycles g) = rw (AllEnds-sources_known known g.edges ends) (
      Found-bind
        (visit_all-Found known (visit known g.edges (suc (length known)))
          (visit-Found known g.edges ends (suc (length known))) known start (λ y p. p))
        (λ s. value)) in
    returned f (cycles_ends g)
