-- ===== src/Kernel.antt =====
-- src/nexus_u/kernel: a dependent-type kernel over nameless terms.
pub mod Ast
pub mod Fault
pub mod Subst
pub mod Ops
pub mod Environment
pub mod Core
pub mod Reduction
pub mod Rules
pub mod Typing
pub mod Surface
pub mod Codec
pub mod Theorems
pub mod Tests
