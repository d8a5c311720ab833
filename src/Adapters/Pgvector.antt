-- ===== src/Adapters/Pgvector.antt =====
-- src/memgw/adapters/pgvector.py, the self-hosted adapter. `Table` has its rows and its statements,
-- `Writes`, `Reads` and `Erasing` its operations, `Instance` the adapter; the other modules hold
-- proofs.
pub mod Table
pub mod Writes
pub mod Reads
pub mod Erasing
pub mod Instance
pub mod Keys
pub mod Erasure
pub mod Scoping
pub mod Served
pub mod Storing
pub mod Updating
pub mod Deleting
pub mod Ranking
