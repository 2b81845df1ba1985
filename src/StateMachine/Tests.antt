-- ===== src/StateMachine/Tests.antt =====
-- The theorems on runs at the complete path.
use nexus_u.Prelude.{◌≤◌, ◌+◌, some, ok, err, length, ◌≡◌, refl}
use mathlib.Core.Bool.{decide}
use nexus_u.StateMachine.{
  intake, certified, policy_reviewed, released, transition, run, invalid_transition,
}
use nexus_u.StateMachine.Paths.{stage, remaining, full_path, run_bounded, released_by_remaining}

-- A certificate without the reviews is refused.
no_shortcut : transition policy_reviewed certified ≡ err invalid_transition
unfolding transition decide
no_shortcut = refl

full_path_runs : run intake full_path ≡ ok released
unfolding run decide
full_path_runs = refl

released_by_remaining_example : remaining intake ≡ some full_path
released_by_remaining_example = released_by_remaining intake full_path full_path_runs

run_bounded_example : stage intake + length full_path ≤ stage released
run_bounded_example = run_bounded intake full_path full_path_runs
