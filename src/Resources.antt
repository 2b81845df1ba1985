-- ===== src/Resources.antt =====
-- src/nexus_u/core/resources.py: the guard of a run's budget. Seconds and megabytes are whole numbers
-- of some unit; what the platform measures is given.
use nexus_u.Prelude.{ℕ, String, Option, none, some, ltb, if◌then◌else◌}

-- The limits that the guard reads.
pub record ResourceBudget : Type 0 where
  pub wall_clock : ℕ
  pub memory : ℕ
  pub output_bytes : ℕ

-- The time since the start, and the growth of the peak memory.
pub record Reading : Type 0 where
  pub elapsed : ℕ
  pub peak_memory : ℕ

pub record ResourceSnapshot : Type 0 where
  pub elapsed_seconds : ℕ
  pub peak_memory_mb : ℕ
  pub output : ℕ

-- BudgetExceeded, by its messages.
pub data BudgetFault : Type 0 where
  wall_clock_exceeded memory_exceeded output_exceeded : BudgetFault

unfoldable pub budget_text : BudgetFault → String
budget_text wall_clock_exceeded = "Wall-clock budget exceeded"
budget_text memory_exceeded = "Memory budget exceeded"
budget_text output_exceeded = "Output-size budget exceeded"

abbrev pub snapshot : Reading → ℕ → ResourceSnapshot
snapshot r bytes = record {
  elapsed_seconds = r.elapsed;
  peak_memory_mb = r.peak_memory;
  output = bytes;
}

-- The exception that the guard raises, if it does.
unfoldable pub enforce : ResourceBudget → ResourceSnapshot → Option BudgetFault
enforce budget snap =
    if ltb budget.wall_clock snap.elapsed_seconds
    then some wall_clock_exceeded
    else if ltb budget.memory snap.peak_memory_mb
    then some memory_exceeded
    else if ltb budget.output_bytes snap.output
    then some output_exceeded
    else none
