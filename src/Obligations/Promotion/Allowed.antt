-- ===== src/Obligations/Promotion/Allowed.antt =====
-- What a permitted promotion says of the graph.
use nexus_u.Prelude.{
  String, Bool, true, false, ◌&&◌, ◌||◌, not, ◌≡◌, ◌≢◌, refl, List, [], ◌∷◌, any, ok, >>=-eq-ok,
  arith,
}
use nexus_u.Obligations.Graph.{ObligationKind, evidence, ObligationNode, ObligationGraph}
use nexus_u.Obligations.Cycles.{SearchResult}
use nexus_u.Obligations.Conservation.{verify_conservation}
use nexus_u.Obligations.Conservation.Accountable.{Accountable, verify_conservation-Accountable}
use nexus_u.Obligations.Promotion.{
  is_settled, is_blocker, find_kind, is_nil, kind_missing, required_kinds, decision,
  promotion_allowed,
}

abbrev pub NoBlocker : List ObligationNode → Type 0
NoBlocker [] = Unit
NoBlocker (n ∷ ns) = (is_blocker n ≡ false) × NoBlocker ns

-- The blocking nodes of a list are settled.
abbrev pub Settled : List ObligationNode → Type 0
Settled [] = Unit
Settled (n ∷ ns) = (n.blocking ≡ true → is_settled n.status ≡ true) × Settled ns

-- There are nodes of each kind, and those that block are settled.
abbrev pub Covered : List ObligationNode → List ObligationKind → Type 0
Covered ns [] = Unit
Covered ns (k ∷ ks) = ((find_kind k ns ≢ []) × Settled (find_kind k ns)) × Covered ns ks

pub record Promotable (target : String) (g : ObligationGraph) : Type 0 where
  pub accountable : Accountable g
  pub unblocked : NoBlocker g.nodes
  pub evidenced : find_kind evidence g.nodes ≢ []
  pub covered : Covered g.nodes (required_kinds target)

not-nil : {A : Type 0} (xs : List A) → is_nil xs ≡ false → xs ≢ []
not-nil [] h e = cc
not-nil (x ∷ xs) h e = cc

eq-nil : {A : Type 0} (xs : List A) → is_nil xs ≡ true → xs ≡ []
eq-nil [] h = refl
eq-nil (x ∷ xs) h = cc

or_false : (a b : Bool) → (a || b) ≡ false → (a ≡ false) × (b ≡ false)
or_false a b h = ground arith

any-NoBlocker : (ns : List ObligationNode) → any is_blocker ns ≡ false → NoBlocker ns
any-NoBlocker [] h = tt
any-NoBlocker (n ∷ ns) h = let (p, q) = or_false _ _ h in (p, any-NoBlocker ns q)

any-Settled :
    (ns : List ObligationNode)
    → any (λ n. n.blocking && not (is_settled n.status)) ns ≡ false
    → Settled ns
any-Settled [] h = tt
any-Settled (n ∷ ns) h = (λ b. ground arith, any-Settled ns (ground arith))

any-Covered :
    (ns : List ObligationNode) (ks : List ObligationKind)
    → any (kind_missing ns) ks ≡ false
    → Covered ns ks
unfolding kind_missing
any-Covered ns [] h = tt
any-Covered ns (k ∷ ks) h =
    let (p, q) = or_false _ _ h in
    let (some_node, settled) = or_false _ _ p in
    ((not-nil _ some_node, any-Settled _ settled), any-Covered ns ks q)

all_four :
    (a b c d : Bool)
    → (a && not b && not c && not d) ≡ true
    → (a ≡ true) × (b ≡ false) × (c ≡ false) × (d ≡ false)
all_four a b c d h = ground arith

of_ok : (a b : Bool) → Path (SearchResult Bool) (ok a) (ok b) → a ≡ b
of_ok a b e = cc

-- If a promotion is allowed, the graph passes what the audit promises, no unresolved blocking node
-- is of high or critical severity, there is evidence, and each kind that the target requires has
-- nodes, of which those that block are discharged, acknowledged or refuted.
pub promotion_allowed-Promotable :
    (target : String) (g : ObligationGraph)
    → promotion_allowed target g ≡ ok true
    → Promotable target g
unfolding promotion_allowed
promotion_allowed-Promotable target g e =
    let (errors, p, q) =
      >>=-eq-ok (verify_conservation g) (λ errors. ok (decision target g errors)) e in
    let (valid, free, seen, kinds) = all_four _ _ _ _ (of_ok _ true q) in
    record {
      accountable = verify_conservation-Accountable g (rw (eq-nil errors valid) at p);
      unblocked = any-NoBlocker g.nodes free;
      evidenced = not-nil _ seen;
      covered = any-Covered g.nodes (required_kinds target) kinds;
    }
