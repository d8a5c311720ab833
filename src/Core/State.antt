-- ===== src/Core/State.antt =====
-- `MemoryCore` of src/memgw/core.py, the world on which its verbs act, and their results.
use router_memory_services.Prelude.{
  ℕ, String, Bool, Option, none, some, List, if◌then◌else◌, is_set, string_eq,
}
use router_memory_services.Dict.{Dict, lookup}
use router_memory_services.Errors.{Result, ok, err, gateway, with_code, invalid_request, ◌>>=◌}
use router_memory_services.Exec.{Exec}
use router_memory_services.Types.{MemoryRecord, SearchMode}
use router_memory_services.Capabilities.{Capabilities}
use router_memory_services.Adapter.{Adapter}
use router_memory_services.Catalog.Store.{Env, Catalog}

module _ (P : Type 0) where
  pub record Core : Type 0 where
    pub env : Env
    pub providers : Dict String (Adapter P)
    pub default_provider : Option String
    pub journal_enabled : Bool

  -- The catalog, and the state of the providers.
  pub record World : Type 0 where
    pub catalog : Catalog
    pub store : P

pub record WriteResult : Type 0 where
  pub results : List MemoryRecord
  pub provider : String

pub record SearchResult : Type 0 where
  pub results : List MemoryRecord
  pub provider : String
  pub degraded : Bool
  pub requested : Option SearchMode
  pub served : Option SearchMode
  pub lost : List String
  pub provider_unavailable : Bool

pub data RebindStrategy : Type 0 where
  fresh_start migrate : RebindStrategy

abbrev pub default_list_limit : ℕ
default_list_limit = 100

abbrev named : Option String → Result String
named none = err (gateway (with_code invalid_request "no_provider_resolved"))
named (some name) = ok name

module _ {P : Type 0} where
  -- A call of the catalog, and a call of a provider.
  abbrev pub in_catalog {ℓ} : {A : Type ℓ} → Exec Catalog A → Exec (World P) A
  in_catalog m w = ((m w.catalog).0, record w { catalog = (m w.catalog).1 })

  abbrev pub at_provider {ℓ} : {A : Type ℓ} → Exec P A → Exec (World P) A
  at_provider m w = ((m w.store).0, record w { store = (m w.store).1 })

  abbrev pub found_adapter : Option (Adapter P) → Result (Adapter P)
  found_adapter none = err (gateway (with_code invalid_request "unknown_provider"))
  found_adapter (some adapter) = ok adapter

  -- `MemoryCore.adapter`
  unfoldable pub adapter : Core P → String → Result (Adapter P)
  unfolding lookup
  adapter core name = found_adapter (lookup name core.providers)

  -- `MemoryCore.capabilities`
  unfoldable pub capabilities : Core P → Option String → Result Capabilities
  unfolding adapter
  capabilities core provider = do
    name ← named (if is_set provider then provider else core.default_provider)
    found ← adapter core name
    ok found.capabilities
