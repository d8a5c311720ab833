-- ===== src/Adapters/Zep.antt =====
-- src/memgw/adapters/zep.py, the adapter of the Zep service. `Edges` has the reading of what comes
-- back, `Calls` the operations; `Users` holds proofs.
pub mod Edges
pub mod Calls
pub mod Probe
pub mod Users
