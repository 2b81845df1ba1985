-- ===== src/Lib.antt =====
-- NEXUS-U: the parts that decide what the system may claim, modelled and verified.
--
-- The program runs a task through fixed stages and governs what the result may be said to establish.
-- A run moves through the stages of core/state_machine.py. Claims get a status that their evidence
-- caps (core/claims.py). Obligations are the nodes of a graph with accountable changes of status
-- (core/obligation_graph.py). Stage events go into a hash chain (core/audit.py). Proofs are checked
-- by two checkers of the program's own: a dependent type theory (kernel/) and a natural deduction
-- for propositions (formalization/microkernel.py). The pipeline (core/pipeline.py) composes these
-- with a policy engine (core/policy.py) and a budget guard (core/resources.py). Organizations sign
-- evidence into a ledger that decides by quorum (federation/).
--
-- Which file models which part (paths below src/nexus_u/):
--   Prelude: tests on numbers and texts, results, and the rules for loops on fuel.
--   Kernel: kernel/. Ast is ast.py; Ops is ops.py (shift, substitute, substitute_top, node_count,
--     max_depth); Environment is environment.py; Core and Typing are core.py, where `whnf`,
--     `normalize`, `convertible`, `infer`, `check`, `declare_axiom`, `declare_definition` and
--     `verify` keep their names; Surface is surface.py; Codec is codec.py; Theorems is theorems.py.
--     Rules, Reduction and Subst are the descriptions that the code is compared with: the typing
--     rules, reduction as a relation, and simultaneous substitution.
--   StateMachine: core/state_machine.py. `run` follows a list of requested stages.
--   Claims: core/claims.py. The mutated claim is returned.
--   Obstructions: core/obstructions.py.
--   Planner: orchestration/planner.py.
--   Microkernel: formalization/microkernel.py.
--   Audit: core/audit.py, over a digest function.
--   Obligations: core/obligation_graph.py. Graph holds the data, Cycles the search, Exec the
--     computations whose changes survive an exception, Operations the methods, Operations.Commands
--     sequences of calls, failing ones included, Operations.FromTask `from_task`, Conservation
--     `verify_conservation`, and Promotion `promotion_decision`. Operations.Steps and
--     Operations.Every derive what holds across every operation from what holds across the changes
--     they are made of.
--   Task, Record: core/models.py, what a run reads and what it fills in.
--   Policy: core/policy.py. Resources: core/resources.py.
--   Pipeline: core/pipeline.py. Exec holds the state of a run (its record, its chain and its graph)
--     and its early ends, Parts the helper methods, Stages, Reviews and Body the body of `run` in the
--     order of the code, and Main the handlers and `run`. Walk derives what holds across a run from
--     what holds across its changes.
--   Federation: federation/ledger.py and models.py; Quorum is `evaluate`; Merge is graph_merge.py,
--     which returns the graphs that it changes beside the result.
--   LowerBounds: lower_bounds/models.py; Audit is `audit_candidate` and Derivation is
--     `_derive_reduction_claims`, both of lower_bounds/engine.py.
--
-- Exceptions are values of a result type. The kernel's mutable budget is the number of reductions
-- made, which every call takes and returns. Loops that are not structural take fuel: in the kernel
-- any amount, with theorems that enough of it exists for every input, because each turn spends
-- budget or goes into a smaller part; in the cycle search one more than the number of nodes.
-- Numbers are unbounded, as in Python. Python's recursion limit is not modelled.
--
-- Not modelled: digests of source files, JSON texts, times, files, HTTP, SQLite, subprocesses and
-- floating-point scores. The digest of the audit chain, the keyed digest of the ledger, the
-- identifiers that uuid4 gives, the adapters, and the routing and the files at the end of a run are
-- parameters. Trust weights, seconds and megabytes are whole numbers. The formalization bridges, the
-- agenda of lower bounds and its search, trials, storage, the server and the command line are left
-- out.
pub mod Prelude
pub mod Kernel
pub mod StateMachine
pub mod Claims
pub mod Microkernel
pub mod Audit
pub mod Obligations
pub mod Planner
pub mod Obstructions
pub mod Resources
pub mod Task
pub mod Record
pub mod Policy
pub mod Pipeline
pub mod Federation
pub mod LowerBounds
