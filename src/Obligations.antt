-- ===== src/Obligations.antt =====
-- src/nexus_u/core/obligation_graph.py: the graph of obligations.
pub mod Tests
pub mod Text
pub mod Graph
pub mod Cycles
pub mod Conservation
pub mod Promotion
pub mod Exec
pub mod Operations
