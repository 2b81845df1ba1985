-- ===== src/Pipeline.antt =====
-- src/nexus_u/core/pipeline.py: a run of a task through its stages, over the state machine, the audit
-- chain, the obligation graph, the policy engine and the claims.
pub mod Exec
pub mod Parts
pub mod Stages
pub mod Reviews
pub mod Body
pub mod Main
pub mod Stop
pub mod Walk
pub mod Audited
pub mod Wired
pub mod Secured
pub mod Released
pub mod Ends
pub mod Tests
