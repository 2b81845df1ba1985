-- ===== src/Claims/Capped.antt =====
-- A claim gets no status above its evidence, and what happens with a counterexample.
use Prim.Native.Nat.{min, max}
use mathlib.Core.Bool.{decide}
use nexus_u.Prelude.{
  ℕ, ◌≤◌, ◌<◌, ◌⊎◌, ◌≡◌, refl, true, false, List, [], ◌∷◌, inl, inr, leb, arith, Bool-cases, ap,
}
use nexus_u.Claims.{
  EpistemicStatus, unknown, refuted, rank, Evidence, evidence_cap, Claim, better, highest,
  strongest, strongest_evidence_status, EpistemicStatus-discrete, same_status,
  assign_without_evidence, assign_with_cap, assign, assign_status,
}

leb→gt : (a b : ℕ) → leb a b ≡ false → b < a
leb→gt a b h = ground arith

-- Statuses with one rank are one.
rank-injective : (s t : EpistemicStatus) → rank s ≡ rank t → s ≡ t
unfolding rank
rank-injective s t h = ground arith

same_status→eq : (s t : EpistemicStatus) → same_status s t ≡ true → s ≡ t
unfolding same_status decide
same_status→eq s t h = of_decide (EpistemicStatus-discrete s t) h
  where
    of_decide : (d : Dec (s ≡ t)) → decide d ≡ true → s ≡ t
    of_decide (yes e) p = e
    of_decide (no e) p = cc

rank-better : (s t : EpistemicStatus) → rank (better s t) ≡ max (rank s) (rank t)
unfolding better
rank-better s t = ground arith

highest-ge : (best : EpistemicStatus) (es : List Evidence) → rank best ≤ rank (highest best es)
unfolding highest
highest-ge best [] = omega arith
highest-ge best (e ∷ es) =
    let b = evidence_cap e.kind in omega (arith, highest-ge (better best b) es, rank-better best b)

-- The status given has the lower of the ranks of the request and of the strongest evidence.
rank-assign_with_cap :
    (cap : EpistemicStatus) (c : Claim)
    → rank (assign_with_cap cap c).assigned_status ≡ min (rank c.requested_status) (rank cap)
unfolding assign_with_cap
rank-assign_with_cap cap c =
    ground (arith, same_status→eq c.requested_status refuted, same_status→eq cap refuted)

strongest_without : (c : Claim) → c.evidence ≡ [] → strongest_evidence_status c ≡ unknown
unfolding strongest_evidence_status strongest
strongest_without c h = rw h

rank-assign :
    (c : Claim) (es : List Evidence)
    → c.evidence ≡ es
    → rank (assign es c).assigned_status
      ≡ min (rank c.requested_status) (rank (strongest_evidence_status c))
unfolding assign assign_without_evidence
rank-assign c [] h =
    rw (strongest_without c h) (unfold rank in ground (arith, rank c.requested_status))
rank-assign c (e ∷ es) h = rank-assign_with_cap (strongest_evidence_status c) c

-- The status that a claim gets has the lower of two ranks: that of the request, and that of its
-- strongest evidence.
pub rank-assign_status :
    (c : Claim)
    → rank (assign_status c).assigned_status
      ≡ min (rank c.requested_status) (rank (strongest_evidence_status c))
unfolding assign_status
rank-assign_status c = rank-assign c c.evidence refl

-- Some element has a property.
abbrev pub Has : (Evidence → Type 0) → List Evidence → Type 0
Has P [] = ⊥
Has P (e ∷ es) = P e ⊎ Has P es

-- The evidence warrants a status of the given rank.
abbrev pub Warrants : ℕ → Evidence → Type 0
Warrants n e = n ≤ rank (evidence_cap e.kind)

highest_warranted :
    (n : ℕ) (best : EpistemicStatus) (es : List Evidence)
    → n ≤ rank (highest best es)
    → (n ≤ rank best) ⊎ Has (Warrants n) es
unfolding highest
highest_warranted n best [] h = inl h
highest_warranted n best (e ∷ es) h =
    let b = evidence_cap e.kind in
    elim (highest_warranted n (better best b) es h) [
      | inl p ↦ elim (Bool-cases (leb n (rank best))) [
        | inl q ↦ inl (ground arith)
        | inr q ↦ inr (inl (omega (arith, rank-better best b, leb→gt n (rank best) q)))
      ]
      | inr p ↦ inr (inr p)
    ]

strongest_warranted :
    (n : ℕ) (es : List Evidence) → 0 < n → n ≤ rank (strongest es) → Has (Warrants n) es
unfolding strongest
strongest_warranted n [] lt h = absurd (unfold rank in omega arith)
strongest_warranted n (e ∷ es) lt h = highest_warranted n (evidence_cap e.kind) es h

-- A claim that gets a status above `unknown` has a piece of evidence whose kind warrants a status
-- of at least that rank.
pub assign_status_warranted :
    (c : Claim)
    → 0 < rank (assign_status c).assigned_status
    → Has (Warrants (rank (assign_status c).assigned_status)) c.evidence
assign_status_warranted c h =
    strongest_warranted (rank (assign_status c).assigned_status) c.evidence h
      (unfold strongest_evidence_status in omega (arith, rank-assign_status c))

rank_bound : (s : EpistemicStatus) → rank s ≤ rank refuted
unfolding rank
rank_bound unknown = omega arith
rank_bound s = omega arith

highest_counterexample :
    (best : EpistemicStatus) (es : List Evidence)
    → Has (λ e. e.kind ≡ "counterexample") es
    → rank refuted ≤ rank (highest best es)
unfolding highest
highest_counterexample best [] h = absurd h
highest_counterexample best (e ∷ es) (inl h) =
    let p : evidence_cap e.kind ≡ refuted = rw h (unfold evidence_cap in refl) in
    let b = better best (evidence_cap e.kind) in
    omega (arith, highest-ge b es, rank-better best (evidence_cap e.kind), ap rank p)
highest_counterexample best (e ∷ es) (inr h) =
    highest_counterexample (better best (evidence_cap e.kind)) es h

strongest_counterexample :
    (es : List Evidence)
    → Has (λ e. e.kind ≡ "counterexample") es
    → rank (strongest es) ≡ rank refuted
unfolding strongest
strongest_counterexample [] h = absurd h
strongest_counterexample (e ∷ es) (inl h) =
    let p : evidence_cap e.kind ≡ refuted = rw h (unfold evidence_cap in refl) in
    omega (arith, highest-ge (evidence_cap e.kind) es, ap rank p, rank_bound)
strongest_counterexample (e ∷ es) (inr h) =
    omega (arith, highest_counterexample (evidence_cap e.kind) es h, rank_bound)

-- A claim with a counterexample among its evidence gets whatever status it requests, since a
-- counterexample's cap has the highest rank of all.
pub assign_status_counterexample :
    (c : Claim)
    → Has (λ e. e.kind ≡ "counterexample") c.evidence
    → (assign_status c).assigned_status ≡ c.requested_status
assign_status_counterexample c h = rank-injective _ _ (
    unfold strongest_evidence_status in
    omega (arith, rank-assign_status c, strongest_counterexample c.evidence h, rank_bound))
