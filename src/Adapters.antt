-- ===== src/Adapters.antt =====
-- src/memgw/adapters: the adapters that stand behind the interface of Adapter.
pub mod Pgvector
pub mod Mem0
pub mod Zep
pub mod Registry
