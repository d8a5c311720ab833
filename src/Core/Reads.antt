-- ===== src/Core/Reads.antt =====
-- The verbs of src/memgw/core.py that read: `search`, `list_scope`, `get` and `providers_status`.
use router_memory_services.Prelude.{
  ℕ, min, String, Bool, true, false, Option, none, some, List, [], ◌∷◌, sort_by, str_leb,
  if◌then◌else◌,
}
use router_memory_services.Dict.{Dict}
use router_memory_services.Errors.{
  Exn, Result, ok, err, gateway, raise, invalid_request, unsupported_capability, memory_not_found,
  ErrorClass,
}
use router_memory_services.Exec.{Exec, pure, lift, ◌>>=◌}
use router_memory_services.Types.{
  Scope, SearchQuery, ProviderMemory, MemoryRecord, HealthStatus, DateTime,
}
use router_memory_services.Capabilities.{Capabilities}
use router_memory_services.Degrade.{DegradeResult, assert_as_of_supported, resolve_mode}
use router_memory_services.Adapter.{Adapter}
use router_memory_services.Catalog.Schema.{row_scope}
use router_memory_services.Catalog.Store.{Env}
use router_memory_services.Core.State.{Core, World, SearchResult, at_provider, adapter}
use router_memory_services.Core.Internals.{prepare, call, failure, map_hits, row_of, to_record}

-- `if query.as_of is not None: assert_as_of_supported(caps)`
abbrev pub check_as_of : Option DateTime → Capabilities → Result (Unit {0})
check_as_of none caps = ok tt
check_as_of (some t) caps = assert_as_of_supported caps

-- `except (UnsupportedCapability, InvalidRequest)`
abbrev pub is_refusal : ErrorClass → Bool
is_refusal unsupported_capability = true
is_refusal invalid_request = true
is_refusal _ = false

abbrev pub is_refused : Exn → Bool
is_refused (gateway e) = is_refusal e.kind
is_refused _ = false

abbrev pub unavailable : String → SearchResult
unavailable name = record {
  results = [];
  provider = name;
  degraded = false;
  requested = none;
  served = none;
  lost = [];
  provider_unavailable = true;
}

abbrev pub effective : SearchQuery → DegradeResult → Capabilities → SearchQuery
effective query decision caps = record query {
  mode = decision.served;
  limit = min query.limit caps.max_limit;
}

abbrev or_gone : Option ProviderMemory → Result ProviderMemory
or_gone none = raise memory_not_found
or_gone (some memory) = ok memory

pub record ProviderStatus : Type 0 where
  pub name : String
  pub healthy : Bool
  pub detail : Option String
  pub capabilities : Capabilities

-- The status that `providers_status` gives of one provider; `cause` is `str` of an exception.
abbrev status_of : (Exn → String) → String → Capabilities → Result HealthStatus → ProviderStatus
status_of cause name caps (ok health) = record {
  name = name;
  healthy = health.ok;
  detail = health.detail;
  capabilities = caps;
}
status_of cause name caps (err e) = record {
  name = name;
  healthy = false;
  detail = some (cause e);
  capabilities = caps;
}

module _ {P : Type 0} (cause : Exn → String) where
  unfoldable pub statuses : Dict String (Adapter P) → World P → List ProviderStatus × World P
  statuses [] w = ([], w)
  statuses ((name, found) ∷ rest) w =
      let (health, w1) = at_provider found.health w in
      let (out, w2) = statuses rest w1 in (status_of cause name found.capabilities health ∷ out, w2)

  unfoldable pub providers_status : Core P → World P → List ProviderStatus × World P
  providers_status core = statuses (sort_by (λ a b. str_leb a.0 b.0) core.providers)

module _ {P : Type 0} where
  -- The end of `search`, by the outcome of the adapter's operation.
  unfoldable pub search_end :
      Env
      → String
      → String
      → Adapter P
      → SearchQuery
      → DegradeResult
      → Scope
      → Result (List ProviderMemory)
      → Exec (World P) SearchResult
  search_end env tenant name found query decision scope (err e) =
      if is_refused e
      then lift (err e)
      else if query.fail_open
      then pure (unavailable name)
      else failure found
  search_end env tenant name found query decision scope (ok memories) = do
    results ← map_hits env tenant name memories scope
    pure (record {
      results = results;
      provider = name;
      degraded = decision.degraded;
      requested = some query.mode;
      served = some decision.served;
      lost = decision.lost;
      provider_unavailable = false;
    })

  -- `lister is None or not supports_list`
  unfoldable pub lister :
      Adapter P
      → Option (Scope → ℕ → Exec P (List ProviderMemory))
      → Result (Scope → ℕ → Exec P (List ProviderMemory))
  lister found none = raise unsupported_capability
  lister found (some list) =
      if found.capabilities.supports_list then ok list else raise unsupported_capability

module _ {P : Type 0} (core : Core P) (tenant : String) where
  unfoldable pub search : SearchQuery → Scope → Option String → Exec (World P) SearchResult
  search query scope provider = do
    (name, found, bound) ← prepare core tenant scope provider
    _ ← lift (check_as_of query.as_of found.capabilities)
    decision ← lift (resolve_mode query.mode found.capabilities query.on_unsupported)
    λ w.
        let m = found.search (effective query decision found.capabilities) bound in
        search_end core.env tenant name found query decision scope (m w.store).0
          (record w { store = (m w.store).1 })

  unfoldable pub list_scope : Scope → ℕ → Option String → Exec (World P) (List MemoryRecord)
  list_scope scope limit provider = do
    (name, found, bound) ← prepare core tenant scope provider
    list ← lift (lister found found.list_scope)
    memories ← call found (list bound (min limit found.capabilities.max_limit))
    map_hits core.env tenant name memories scope

  unfoldable pub get : String → Exec (World P) MemoryRecord
  get gateway_id = do
    row ← row_of tenant gateway_id
    found ← lift (adapter core row.provider)
    outcome ← call found (found.get row.native_id)
    memory ← lift (or_gone outcome)
    scope ← lift (row_scope row)
    pure (to_record row.gateway_id row.provider memory scope)
