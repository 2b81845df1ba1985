-- ===== src/Obligations/Cycles/Within.antt =====
-- Edges that are added and taken away: the steps of the search along them, and the nodes they join.
use nexus_u.Prelude.{
  String, true, ◌≡◌, inl, inr, List, [], ◌∷◌, contains, str_eq, str_eq_refl, Bool-cases, arith,
}
use nexus_u.Obligations.Graph.{ObligationEdge, put_edge, remove_edge, is_contradicts}
use nexus_u.Obligations.Cycles.{successors}
use nexus_u.Obligations.Cycles.Acyclic.{Leads, edge, further}
use nexus_u.Obligations.Cycles.Known.{AllEnds}

-- Every step along the first edges is one along the second.
abbrev pub Within : List ObligationEdge → List ObligationEdge → Type 0
Within ds es =
    (x y : String) → contains y (successors x ds) ≡ true → contains y (successors x es) ≡ true

pub Leads-Within :
    (known known' : List String) (ds es : List ObligationEdge)
    → Within ds es
    → {x y : String} → Leads known ds x y
    → Leads known' es x y
Leads-Within known known' ds es h (edge e) = edge (h _ _ e)
Leads-Within known known' ds es h (further p e) =
    further (Leads-Within known known' ds es h p) (h _ _ e)

pub Within-cons :
    (d : ObligationEdge) (ds es : List ObligationEdge) → Within ds es → Within (d ∷ ds) (d ∷ es)
unfolding successors
Within-cons d ds es h x y e = elim (Bool-cases (is_contradicts d.relation)) [
  | inl c ↦ rw c (h x y (rw c at e))
  | inr c ↦ elim (Bool-cases (str_eq d.source x)) [
    | inl p ↦ rw (c, p) (ground (arith, h x y, rw (c, p) at e))
    | inr p ↦ rw (c, p) (h x y (rw (c, p) at e))
  ]
]

pub Within-tail : (d : ObligationEdge) (es : List ObligationEdge) → Within es (d ∷ es)
unfolding successors
Within-tail d es x y e = elim (Bool-cases (is_contradicts d.relation)) [
  | inl c ↦ rw c e
  | inr c ↦ elim (Bool-cases (str_eq d.source x)) [
    | inl p ↦ rw (c, p) (ground (arith, e))
    | inr p ↦ rw (c, p) e
  ]
]

-- A contradiction adds no step.
Within-contradiction :
    (e : ObligationEdge) (es : List ObligationEdge)
    → is_contradicts e.relation ≡ true
    → Within (e ∷ es) es
unfolding successors
Within-contradiction e es c x y h = rw c at h

pub put_edge-Within :
    (e : ObligationEdge) (es : List ObligationEdge)
    → is_contradicts e.relation ≡ true
    → Within (put_edge e es) es
unfolding put_edge
put_edge-Within e [] c = Within-contradiction e [] c
put_edge-Within e (d ∷ ds) c = elim (Bool-cases (str_eq d.edge_id e.edge_id)) [
  | inl p ↦ rw p (λ x y h. Within-tail d ds x y (Within-contradiction e ds c x y h))
  | inr p ↦ rw p (Within-cons d (put_edge e ds) ds (put_edge-Within e ds c))
]

-- Taking a new edge back leaves at most what was there.
pub remove_edge-put_edge-Within :
    (e : ObligationEdge) (es : List ObligationEdge)
    → Within (remove_edge e.edge_id (put_edge e es)) es
unfolding put_edge remove_edge
remove_edge-put_edge-Within e [] = rw (str_eq_refl e.edge_id) (λ x y h. h)
remove_edge-put_edge-Within e (d ∷ ds) = elim (Bool-cases (str_eq d.edge_id e.edge_id)) [
  | inl p ↦ rw (p, str_eq_refl e.edge_id) (Within-tail d ds)
  | inr p ↦ rw (p, p) (Within-cons d _ ds (remove_edge-put_edge-Within e ds))
]

module _ (known : List String) where
  pub put_edge-AllEnds :
      (e : ObligationEdge) (es : List ObligationEdge)
      → contains e.source known ≡ true
      → contains e.target known ≡ true
      → AllEnds known es
      → AllEnds known (put_edge e es)
  unfolding put_edge
  put_edge-AllEnds e [] s t h = (s, t, tt)
  put_edge-AllEnds e (d ∷ ds) s t (s', t', h) = elim (Bool-cases (str_eq d.edge_id e.edge_id)) [
    | inl p ↦ rw p (s, t, h)
    | inr p ↦ rw p (s', t', put_edge-AllEnds e ds s t h)
  ]

  pub remove_edge-AllEnds :
      (x : String) (es : List ObligationEdge) → AllEnds known es → AllEnds known (remove_edge x es)
  unfolding remove_edge
  remove_edge-AllEnds x [] h = tt
  remove_edge-AllEnds x (d ∷ ds) (s, t, h) = elim (Bool-cases (str_eq d.edge_id x)) [
    | inl p ↦ rw p h
    | inr p ↦ rw p (s, t, remove_edge-AllEnds x ds h)
  ]

pub AllEnds-grow :
    (known known' : List String) (es : List ObligationEdge)
    → ((x : String) → contains x known ≡ true → contains x known' ≡ true)
    → AllEnds known es
    → AllEnds known' es
AllEnds-grow known known' [] g h = tt
AllEnds-grow known known' (d ∷ ds) g (s, t, h) = (g _ s, g _ t, AllEnds-grow known known' ds g h)
