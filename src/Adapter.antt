-- ===== src/Adapter.antt =====
-- src/memgw/adapters/base.py: what an adapter is to the core. The providers behind the adapters are
-- not under src/: their state is a parameter, and an adapter is a record of operations on it, each
-- of which returns or raises. `list_scope` is optional, as `getattr` in the core reads it.
use router_memory_services.Prelude.{ℕ, String, Bool, Option, List}
use router_memory_services.Exec.{Exec}
use router_memory_services.Types.{Scope, Episode, SearchQuery, ProviderMemory, HealthStatus}
use router_memory_services.Capabilities.{Capabilities}

pub record Adapter (P : Type 0) : Type 0 where
  pub capabilities : Capabilities
  pub health : Exec P HealthStatus
  pub ingest : Episode → Scope → Exec P (List ProviderMemory)
  pub upsert : List String → Scope → Exec P (List ProviderMemory)
  pub search : SearchQuery → Scope → Exec P (List ProviderMemory)
  pub list_scope : Option (Scope → ℕ → Exec P (List ProviderMemory))
  pub get : String → Exec P (Option ProviderMemory)
  pub update : String → String → Exec P ProviderMemory
  pub delete : String → Exec P Bool
  pub delete_scope : Scope → Exec P ℕ
