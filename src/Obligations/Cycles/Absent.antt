-- ===== src/Obligations/Cycles/Absent.antt =====
-- Edges whose addition closes no circle.
use nexus_u.Prelude.{
  String, Bool, true, false, not, ◌&&◌, ◌||◌, ◌≡◌, refl, ap, ◌∙◌, inl, inr, List, [], ◌∷◌, ok,
  contains, str_eq, str_eq→eq, Bool-cases, arith,
}
use nexus_u.Obligations.Graph.{ObligationEdge, ObligationGraph, node_ids, put_edge, is_contradicts}
use nexus_u.Obligations.Cycles.{successors, cycles}
use nexus_u.Obligations.Cycles.Acyclic.{Leads, edge, further}
use nexus_u.Obligations.Cycles.Known.{AllEnds, cycles_total}
use nexus_u.Obligations.Cycles.Real.{cycles_sound}
use nexus_u.Obligations.Cycles.Within.{Within, Within-cons, Within-tail, Leads-Within}

-- If no path of edges that are not contradictions is a circle, the search finds none.
pub cycles_none :
    (g : ObligationGraph)
    → AllEnds (node_ids g.nodes) g.edges
    → ((x : String) → ¬ Leads (node_ids g.nodes) g.edges x x)
    → cycles g ≡ ok []
cycles_none g ends acyclic = let (found, e) = cycles_total g ends in empty found e
  where
    cons_ne : (x : List String) (xs : List (List String)) → ¬ ((x ∷ xs) ≡ [])
    cons_ne x xs h = cc

    empty : (found : List (List String)) → cycles g ≡ ok found → cycles g ≡ ok []
    empty [] e = e
    empty (x ∷ xs) e = let (z, p) = cycles_sound g (x ∷ xs) e (cons_ne x xs) in absurd (acyclic z p)

-- The edge is a step between the two names.
hits : ObligationEdge → String → String → Bool
hits d x y = not (is_contradicts d.relation) && str_eq d.source x && str_eq d.target y

contains-successors :
    (d : ObligationEdge) (es : List ObligationEdge) (x y : String)
    → contains y (successors x (d ∷ es)) ≡ (hits d x y || contains y (successors x es))
unfolding successors hits
contains-successors d es x y = elim (Bool-cases (is_contradicts d.relation)) [
  | inl c ↦ rw c refl
  | inr c ↦ elim (Bool-cases (str_eq d.source x)) [
    | inl p ↦ rw (c, p) refl
    | inr p ↦ rw (c, p) refl
  ]
]

exchange : (a b c : Bool) → (a || (b || c)) ≡ true → (b || (a || c)) ≡ true
exchange a b c h = ground arith

Within-exchange :
    (d e : ObligationEdge) (es : List ObligationEdge) → Within (d ∷ (e ∷ es)) (e ∷ (d ∷ es))
Within-exchange d e es x y h =
    rw (contains-successors e (d ∷ es) x y, contains-successors d es x y)
      (exchange (hits d x y) (hits e x y) (contains y (successors x es))
        (rw (contains-successors d (e ∷ es) x y, contains-successors e es x y) at h))

Within-put_edge : (e : ObligationEdge) (es : List ObligationEdge) → Within (put_edge e es) (e ∷ es)
unfolding put_edge
Within-put_edge e [] = λ x y h. h
Within-put_edge e (d ∷ ds) = elim (Bool-cases (str_eq d.edge_id e.edge_id)) [
  | inl p ↦ rw p (Within-cons e ds (d ∷ ds) (Within-tail d ds))
  | inr p ↦ rw p (λ x y h.
      Within-exchange d e ds x y
        (Within-cons d (put_edge e ds) (e ∷ ds) (Within-put_edge e ds) x y h))
]

-- No step leads to the name.
abbrev pub Unentered : String → List ObligationEdge → Type 0
Unentered x es = (z : String) → contains x (successors z es) ≡ false

only_right : (a b : Bool) → a ≡ false → (a || b) ≡ true → b ≡ true
only_right a b p h = ground arith

neither : (a b : Bool) → a ≡ false → b ≡ false → (a || b) ≡ false
neither a b p q = ground arith

module _ (known : List String) (e : ObligationEdge) (es : List ObligationEdge)
    (unentered : Unentered e.source es) (apart : str_eq e.target e.source ≡ false) where
  misses_source : (x y : String) → str_eq e.source x ≡ false → hits e x y ≡ false
  unfolding hits
  misses_source x y h = ground (arith, h)

  misses_target : (x : String) → hits e x e.source ≡ false
  unfolding hits
  misses_target x = ground (arith, apart)

  cons-Unentered : Unentered e.source (e ∷ es)
  cons-Unentered z =
      contains-successors e es z e.source ∙ neither _ _ (misses_target z) (unentered z)

  elsewhere : (x y : String) → contains y (successors x (e ∷ es)) ≡ true → str_eq e.source y ≡ false
  elsewhere x y h = elim (Bool-cases (str_eq e.source y)) [
    | inl same ↦ absurd (
        let r = ap (λ z. contains z (successors x (e ∷ es))) (str_eq→eq e.source y same) in
        let q = cons-Unentered x in cc)
    | inr differ ↦ differ
  ]

  old_step :
      (x y : String)
      → str_eq e.source x ≡ false
      → contains y (successors x (e ∷ es)) ≡ true
      → contains y (successors x es) ≡ true
  old_step x y p h = only_right _ _ (misses_source x y p) (rw (contains-successors e es x y) at h)

  ends_elsewhere : {x y : String} → Leads known (e ∷ es) x y → str_eq e.source y ≡ false
  ends_elsewhere (edge p) = elsewhere _ _ p
  ends_elsewhere (further q p) = elsewhere _ _ p

  old_path :
      {x y : String} → str_eq e.source x ≡ false → Leads known (e ∷ es) x y → Leads known es x y
  old_path h (edge p) = edge (old_step _ _ h p)
  old_path h (further q p) = further (old_path h q) (old_step _ _ (ends_elsewhere q) p)

  -- An edge from a node that no step leads to, to another one, closes no circle.
  pub put_edge-acyclic :
      ((x : String) → ¬ Leads known es x x) → (x : String) → ¬ Leads known (put_edge e es) x x
  put_edge-acyclic acyclic x p =
      let q = Leads-Within known known (put_edge e es) (e ∷ es) (Within-put_edge e es) p in
      acyclic x (old_path (ends_elsewhere q) q)
