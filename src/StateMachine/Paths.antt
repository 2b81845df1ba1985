-- ===== src/StateMachine/Paths.antt =====
-- How far the transitions lead: runs are short, and release is reached by one path.
use mathlib.Core.Bool.{decide}
use nexus_u.Prelude.{
  ℕ, zero, suc, ◌⊎◌, ◌+◌, ◌≤◌, ◌<◌, Bool, true, ◌||◌, ◌≡◌, ap, refl, inl, inr, Option, none, some,
  List, [], ◌∷◌, ok, >>=-eq-ok, any, length, Bool-cases, arith,
}
use nexus_u.StateMachine.{
  RunStatus, RunStatus-discrete, allowed, transition, run, intake, intent_compiled,
  assumptions_exposed, target_formalized, candidates_generated, falsification,
  obstruction_classified, strategy_routed, artifact_constructed, executed, verified,
  policy_reviewed, safety_reviewed, adversarial_reviewed, certified, curated, released, partial,
  rejected, refuted, unknown,
}

-- What holds of every element.
abbrev All : (RunStatus → Type 0) → List RunStatus → Type 0
All P [] = Unit
All P (s ∷ ss) = P s × All P ss

of_head {ℓ} : {P : Type ℓ} (d : Dec P) (b : Bool) → (decide d || b) ≡ true → P ⊎ (b ≡ true)
unfolding decide
of_head (yes h) b e = inl h
of_head (no h) b e = inr e

of_any :
    (P : RunStatus → Type 0) (t : RunStatus) (ss : List RunStatus)
    → All P ss
    → any (λ s. decide (RunStatus-discrete s t)) ss ≡ true
    → P t
of_any P t [] h e = cc
of_any P t (s ∷ ss) (p, h) e = elim (of_head (RunStatus-discrete s t) _ e) [
  | inl same ↦ rw same at p
  | inr later ↦ of_any P t ss h later
]

-- The number of the stage; the final stages other than release stand at its number.
unfoldable pub stage : RunStatus → ℕ
stage intake = 0
stage intent_compiled = 1
stage assumptions_exposed = 2
stage target_formalized = 3
stage candidates_generated = 4
stage falsification = 5
stage obstruction_classified = 6
stage strategy_routed = 7
stage artifact_constructed = 8
stage executed = 9
stage verified = 10
stage policy_reviewed = 11
stage safety_reviewed = 12
stage adversarial_reviewed = 13
stage certified = 14
stage curated = 15
stage released = 16
stage partial = 16
stage rejected = 16
stage refuted = 16
stage unknown = 16

stage-allowed : (s : RunStatus) → All (λ t. stage s < stage t) (allowed s)
unfolding stage allowed
stage-allowed intake = omega arith
stage-allowed _ = omega arith

-- The stages from the first one after intake to release.
abbrev pub full_path : List RunStatus
full_path =
    intent_compiled ∷ assumptions_exposed ∷ target_formalized ∷ candidates_generated ∷ falsification
    ∷ obstruction_classified ∷ strategy_routed ∷ artifact_constructed ∷ executed ∷ verified
    ∷ policy_reviewed ∷ safety_reviewed ∷ adversarial_reviewed ∷ certified ∷ curated ∷ released ∷ []

abbrev drop : ℕ → List RunStatus → List RunStatus
drop zero ss = ss
drop (suc n) [] = []
drop (suc n) (s ∷ ss) = drop n ss

-- The stages that lead from a stage to release, if it is not a dead end.
unfoldable pub remaining : RunStatus → Option (List RunStatus)
remaining intake = some full_path
remaining intent_compiled = some (drop 1 full_path)
remaining assumptions_exposed = some (drop 2 full_path)
remaining target_formalized = some (drop 3 full_path)
remaining candidates_generated = some (drop 4 full_path)
remaining falsification = some (drop 5 full_path)
remaining obstruction_classified = some (drop 6 full_path)
remaining strategy_routed = some (drop 7 full_path)
remaining artifact_constructed = some (drop 8 full_path)
remaining executed = some (drop 9 full_path)
remaining verified = some (drop 10 full_path)
remaining policy_reviewed = some (drop 11 full_path)
remaining safety_reviewed = some (drop 12 full_path)
remaining adversarial_reviewed = some (drop 13 full_path)
remaining certified = some (drop 14 full_path)
remaining curated = some (drop 15 full_path)
remaining released = some []
remaining _ = none

-- The only way on towards release is the stage that comes next.
abbrev Leads : RunStatus → RunStatus → Type 0
Leads s t = (q : List RunStatus) → remaining t ≡ some q → remaining s ≡ some (t ∷ q)

Leads-allowed : (s : RunStatus) → All (Leads s) (allowed s)
unfolding remaining allowed
Leads-allowed obstruction_classified = (λ q e. cc, (λ q e. cc, tt))
Leads-allowed falsification = (λ q e. cc, (λ q e. cc, tt))
Leads-allowed intake = (λ q e. cc, (λ q e. cc, tt))
Leads-allowed intent_compiled = (λ q e. cc, (λ q e. cc, tt))
Leads-allowed assumptions_exposed = (λ q e. cc, (λ q e. cc, tt))
Leads-allowed target_formalized = (λ q e. cc, (λ q e. cc, tt))
Leads-allowed candidates_generated = (λ q e. cc, (λ q e. cc, tt))
Leads-allowed certified = (λ q e. cc, tt)
Leads-allowed curated = (λ q e. cc, tt)
Leads-allowed strategy_routed = (λ q e. cc, (λ q e. cc, (λ q e. cc, tt)))
Leads-allowed artifact_constructed = (λ q e. cc, (λ q e. cc, (λ q e. cc, tt)))
Leads-allowed executed = (λ q e. cc, (λ q e. cc, (λ q e. cc, tt)))
Leads-allowed verified = (λ q e. cc, (λ q e. cc, (λ q e. cc, tt)))
Leads-allowed policy_reviewed = (λ q e. cc, (λ q e. cc, (λ q e. cc, tt)))
Leads-allowed safety_reviewed = (λ q e. cc, (λ q e. cc, (λ q e. cc, tt)))
Leads-allowed adversarial_reviewed = (λ q e. cc, (λ q e. cc, (λ q e. cc, tt)))
Leads-allowed _ = tt

-- A transition that is made goes to the requested stage, which the table allows.
transition-All :
    (P : RunStatus → Type 0) (s t s' : RunStatus)
    → All P (allowed s)
    → transition s t ≡ ok s'
    → (s' ≡ t) × P t
unfolding transition
transition-All P s t s' h e =
    elim (Bool-cases (any (λ c. decide (RunStatus-discrete c t)) (allowed s))) [
      | inl yes_any ↦ (ground arith, of_any P t (allowed s) h yes_any)
      | inr no_any ↦ absurd (ground arith)
    ]

-- Every transition that is made raises the stage number.
pub stage-transition :
    (s t : RunStatus) {s' : RunStatus} → transition s t ≡ ok s' → (s' ≡ t) × (stage s < stage t)
stage-transition s t {s'} e = transition-All (λ t. stage s < stage t) s t s' (stage-allowed s) e

stage_bound : (s : RunStatus) → stage s ≤ 16
unfolding stage
stage_bound intake = omega arith
stage_bound _ = omega arith

-- If a run is not refused, its number of transitions added to the stage number of its start is at
-- most the stage number of its end.
pub run_bounded :
    (s : RunStatus) (path : List RunStatus) {s' : RunStatus}
    → run s path ≡ ok s'
    → stage s + length path ≤ stage s'
unfolding run
run_bounded s [] e = ground arith
run_bounded s (t ∷ path) e =
    let (s₁, p, q) = >>=-eq-ok (transition s t) (λ c. run c path) e in
    let (same, lt) = stage-transition s t p in omega (arith, run_bounded s₁ path q, ap stage same)

-- A run ends in release only if its requests are exactly the stages that follow, in order: from
-- intake all sixteen, the policy, safety and adversarial reviews among them.
pub released_by_remaining :
    (s : RunStatus) (path : List RunStatus) → run s path ≡ ok released → remaining s ≡ some path
unfolding run
released_by_remaining s [] e = let p : s ≡ released = cc in rw p (unfold remaining in refl)
released_by_remaining s (t ∷ path) e =
    let (s₁, p, q) = >>=-eq-ok (transition s t) (λ c. run c path) e in
    let (same, leads) = transition-All (Leads s) s t s₁ (Leads-allowed s) p in
    leads path (rw same at (released_by_remaining s₁ path q))
