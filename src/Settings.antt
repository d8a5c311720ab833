-- ===== src/Settings.antt =====
-- src/memgw/settings.py: the configuration that the environment gives. `Parsing` has the parsers,
-- `Loading` the record and what is built from it; `Ready` and `Tenants` hold proofs.
pub mod Parsing
pub mod Loading
pub mod Ready
pub mod Refused
pub mod Tenants
