-- ===== src/StateMachine.antt =====
-- src/nexus_u/core/state_machine.py: the stages of a run and the transitions that are allowed.
pub mod Tests
pub mod Paths
use mathlib.Core.Bool.{decide}
use nexus_u.Prelude.{Bool, List, [], ◌∷◌, ok, err, ◌>>=◌, any, if◌then◌else◌}
use nexus_u.Prelude

pub data RunStatus : Type 0 where
  intake intent_compiled assumptions_exposed target_formalized candidates_generated : RunStatus
  falsification obstruction_classified strategy_routed artifact_constructed executed : RunStatus
  verified policy_reviewed safety_reviewed adversarial_reviewed certified curated : RunStatus
  released partial rejected refuted unknown : RunStatus

unfoldable pub RunStatus-discrete : Discrete RunStatus
RunStatus-discrete = hlevel

unfoldable pub allowed : RunStatus → List RunStatus
allowed intake = intent_compiled ∷ rejected ∷ []
allowed intent_compiled = assumptions_exposed ∷ rejected ∷ []
allowed assumptions_exposed = target_formalized ∷ rejected ∷ []
allowed target_formalized = candidates_generated ∷ rejected ∷ []
allowed candidates_generated = falsification ∷ rejected ∷ []
allowed falsification = refuted ∷ obstruction_classified ∷ []
allowed obstruction_classified = strategy_routed ∷ unknown ∷ []
allowed strategy_routed = artifact_constructed ∷ partial ∷ rejected ∷ []
allowed artifact_constructed = executed ∷ partial ∷ rejected ∷ []
allowed executed = verified ∷ partial ∷ rejected ∷ []
allowed verified = policy_reviewed ∷ partial ∷ rejected ∷ []
allowed policy_reviewed = safety_reviewed ∷ partial ∷ rejected ∷ []
allowed safety_reviewed = adversarial_reviewed ∷ partial ∷ rejected ∷ []
allowed adversarial_reviewed = certified ∷ partial ∷ rejected ∷ []
allowed certified = curated ∷ []
allowed curated = released ∷ []
allowed released = []
allowed partial = []
allowed rejected = []
allowed refuted = []
allowed unknown = []

pub data TransitionError : Type 0 where
  invalid_transition : TransitionError

abbrev pub Outcome : Type 0
Outcome = Prelude.Result TransitionError RunStatus

unfoldable pub transition : RunStatus → RunStatus → Outcome
unfolding allowed RunStatus-discrete
transition current target =
    if any (λ s. decide (RunStatus-discrete s target)) (allowed current)
    then ok target
    else err invalid_transition

-- The status of a record through a sequence of requested stages, up to the first refusal.
unfoldable pub run : RunStatus → List RunStatus → Outcome
unfolding transition
run s [] = ok s
run s (t ∷ path) = do s' ← transition s t; run s' path
