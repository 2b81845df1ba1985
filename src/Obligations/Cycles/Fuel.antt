-- ===== src/Obligations/Cycles/Fuel.antt =====
-- The fuel of `cycles` is enough: every call on the way down takes one more node on the stack.
use nexus_u.Prelude.{
  ℕ, zero, suc, ◌<◌, ◌≤◌, String, Bool, true, false, ◌≡◌, refl, inl, inr, List, [], ◌∷◌, ok, err,
  ◌>>=◌, contains, str_eq, str_eq→eq, str_eq_refl, length, if◌then◌else◌, Bool-cases, arith,
}
use nexus_u.Obligations.Graph.{ObligationEdge, ObligationGraph, node_ids}
use nexus_u.Obligations.Cycles.{
  SearchResult, out_of_fuel, missing_node, successors, Search, visit_all, visit, start,
  sources_known, cycles,
}

-- The number of names that are not on the stack.
left : List String → List String → ℕ
left [] st = 0
left (k ∷ ks) st = if contains k st then left ks st else suc (left ks st)

left_nil : (ks : List String) → left ks [] ≡ length ks
unfolding left
left_nil [] = refl
left_nil (k ∷ ks) = ground (arith, left_nil ks)

left_push_le : (x : String) (ks st : List String) → left ks (x ∷ st) ≤ left ks st
unfolding left
left_push_le x [] st = omega arith
left_push_le x (k ∷ ks) st = ground (arith, left_push_le x ks st)

left_push :
    (x : String) (ks st : List String)
    → contains x ks ≡ true
    → contains x st ≡ false
    → left ks (x ∷ st) < left ks st
unfolding left
left_push x [] st h new = cc
left_push x (k ∷ ks) st h new = elim (Bool-cases (str_eq k x)) [
  | inl same ↦
      let e : k ≡ x = str_eq→eq k x same in
      rw e (ground (arith, left_push_le x ks st, str_eq_refl x, new))
  | inr differ ↦ ground (arith, left_push x ks st, left_push_le x ks st)
]

-- The search ends with the stack as it was, or by the fault that the code raises.
data Fuelled (st : List String) : SearchResult Search → Type 0 where
  kept : {s : Search} → s.stack ≡ st → Fuelled st (ok s)
  broken : Fuelled st (err missing_node)

Fuelled-bind :
    {st st' : List String} {r : SearchResult Search} {f : Search → SearchResult Search}
    → Fuelled st r
    → ((s : Search) → s.stack ≡ st → Fuelled st' (f s))
    → Fuelled st' (r >>= f)
Fuelled-bind (kept e) h = h _ e
Fuelled-bind broken h = broken

Fuelled-at :
    {st st' : List String} {r : SearchResult Search} → st ≡ st' → Fuelled st r → Fuelled st' r
Fuelled-at e h = rw e at h

visit_all-Fuelled :
    (st : List String) (go : String → Search → SearchResult Search)
    → ((x : String) (s : Search) → s.stack ≡ st → Fuelled st (go x s))
    → (xs : List String) (s : Search) → s.stack ≡ st
    → Fuelled st (visit_all go xs s)
visit_all-Fuelled st go h [] s e = kept e
visit_all-Fuelled st go h (x ∷ xs) s e =
    Fuelled-bind (h x s e) (λ s' e'. visit_all-Fuelled st go h xs s' e')

Fuelled-ends : {st : List String} {r : SearchResult Search} → Fuelled st r → ¬ (r ≡ err out_of_fuel)
Fuelled-ends (kept _) e = cc
Fuelled-ends broken e = cc

module _ (known : List String) (edges : List ObligationEdge) where
  visit-Fuelled :
      (f : ℕ) (x : String) (s : Search)
      → left known s.stack < f
      → Fuelled s.stack (visit known edges f x s)
  unfolding visit
  visit-Fuelled zero x s h = absurd (omega arith)
  visit-Fuelled (suc f) x s h = elim (Bool-cases (contains x s.stack)) [
    | inl again ↦ rw again (kept refl)
    | inr new ↦ rw new (elim (Bool-cases (contains x s.visited)) [
      | inl done ↦ rw done (kept refl)
      | inr fresh ↦ rw fresh (elim (Bool-cases (contains x known)) [
        | inl node ↦ rw node (
            let fewer : left known (x ∷ s.stack) < f =
              (let lt = left_push x known s.stack node new in omega arith) in
            Fuelled-bind
              (visit_all-Fuelled (x ∷ s.stack) (visit known edges f)
                (λ y s' e. Fuelled-at e (visit-Fuelled f y s' (rw e fewer))) (successors x edges)
                (record s { stack = x ∷ s.stack }) refl)
              (λ s' e. kept refl))
        | inr missing ↦ rw missing broken
      ])
    ])
  ]

  search-Fuelled : Fuelled [] (visit_all (visit known edges (suc (length known))) known start)
  search-Fuelled =
      visit_all-Fuelled [] (visit known edges (suc (length known)))
        (λ x s e.
          Fuelled-at e
            (visit-Fuelled (suc (length known)) x s (rw e (rw (left_nil known) (omega arith)))))
        known start refl

ends-if :
    (b : Bool) {r : SearchResult Search}
    → Fuelled [] r
    → ¬ ((if b then (r >>= λ s. ok s.found) else err missing_node) ≡ err out_of_fuel)
ends-if true (kept _) e = cc
ends-if true broken e = cc
ends-if false h e = cc

-- Whatever the graph, the search does not run out of fuel: it returns the list of cycles, or it
-- raises the KeyError of an edge that leads from or to a name that is no node.
pub cycles_ends : (g : ObligationGraph) → ¬ (cycles g ≡ err out_of_fuel)
unfolding cycles
cycles_ends g =
    let known = node_ids g.nodes in
    ends-if (sources_known known g.edges) (search-Fuelled known g.edges)
