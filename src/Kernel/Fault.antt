-- ===== src/Kernel/Fault.antt =====
-- The exceptions that kernel code raises, without their messages, and the model's own fault for a
-- loop whose fuel ran out.
use nexus_u.Prelude
use nexus_u.Prelude.{ok, err}

pub data Fault : Type 0 where
  value_error key_error kernel_error type_check_error reduction_limit_error out_of_fuel : Fault

abbrev pub Result {ℓ} : Type ℓ → Type ℓ
Result A = Prelude.Result Fault A
