-- ===== src/Adapters/Mem0.antt =====
-- src/memgw/adapters/mem0.py, the adapter of the mem0 package. `Names` has the ids that it sends,
-- `Items` the reading of what comes back, `Calls` the operations; `Naming` and `Draining` hold proofs.
pub mod Names
pub mod Items
pub mod Calls
pub mod Naming
pub mod Draining
