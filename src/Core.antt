-- ===== src/Core.antt =====
-- src/memgw/core.py: the verbs. `State` has the core and the world on which it acts, `Internals` the
-- private methods, `Writes` and `Reads` the verbs; the other modules hold proofs about these.
pub mod State
pub mod Internals
pub mod Writes
pub mod Reads
pub mod Prepared
pub mod Guard
pub mod Tenancy
pub mod ById
pub mod Erasure
pub mod Failing
pub mod Written
pub mod Complete
pub mod Outcome
pub mod Reading
pub mod Keeping
pub mod Invariant
