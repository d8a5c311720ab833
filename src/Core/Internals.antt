-- ===== src/Core/Internals.antt =====
-- The private methods of `MemoryCore` in src/memgw/core.py.
use router_memory_services.Prelude.{
  String, Bool, true, not, Option, none, some, List, [], ◌∷◌, string_eq, map, is_empty,
  if◌then◌else◌,
}
use router_memory_services.Dict.{Dict, lookup, update_all}
use router_memory_services.Errors.{
  Result, ok, err, gateway, integrity, validation, assertion, value_error, other, raise,
  memory_not_found, provider_unhealthy, provider_error,
}
use router_memory_services.Exec.{Exec, pure, lift, ◌>>=◌}
use router_memory_services.Types.{
  Scope, ProviderMemory, MemoryRecord, HealthStatus, reject, under, without_tenant,
}
use router_memory_services.Degrade.{assert_scope_supported}
use router_memory_services.Adapter.{Adapter}
use router_memory_services.Router.{resolve_provider}
use router_memory_services.Catalog.Schema.{CatalogRow, row_scope}
use router_memory_services.Catalog.Store.{Env}
use router_memory_services.Catalog.Mapping.{record_many, ensure_many}
use router_memory_services.Catalog.Rows.{resolve_gateway_id}
use router_memory_services.Core.State.{Core, World, in_catalog, at_provider, adapter}

-- `_to_record`
unfoldable pub to_record : String → String → ProviderMemory → Scope → MemoryRecord
unfolding without_tenant
to_record gateway_id provider memory scope = record {
  id = gateway_id;
  provider = provider;
  native_id = memory.native_id;
  content = memory.content;
  scope = without_tenant scope;
  score = memory.score;
  created_at = memory.created_at;
  updated_at = memory.updated_at;
  valid_from = memory.valid_from;
  valid_to = memory.valid_to;
  provider_raw = memory.raw;
}

-- {row.native_id: row for row in rows}
unfoldable pub by_native : List CatalogRow → Dict String CatalogRow
unfolding update_all
by_native rows = update_all [] (map (λ row. (row.native_id, row)) rows)

-- [(memory.native_id, memory.content) for memory in memories]
abbrev pub items_of : List ProviderMemory → List (String × String)
items_of = map λ memory. (memory.native_id, memory.content)

-- The comprehension of `_records`
unfoldable pub written :
    String → Scope → Dict String CatalogRow → List ProviderMemory → List MemoryRecord
unfolding to_record lookup
written provider scope rows [] = []
written provider scope rows (memory ∷ memories) =
    let rest = written provider scope rows memories in
    elim (lookup memory.native_id rows) [
      | none ↦ rest
      | some row ↦ to_record row.gateway_id provider memory scope ∷ rest
    ]

-- One row of the comprehension of `_map_hits`; `row.scope()` may raise.
abbrev pub read_hit :
    String
    → ProviderMemory
    → CatalogRow
    → Result Scope
    → Result (List MemoryRecord)
    → Result (List MemoryRecord)
read_hit provider memory row (err e) rest = err e
read_hit provider memory row (ok scope) (err e) = err e
read_hit provider memory row (ok scope) (ok records) =
    ok (to_record row.gateway_id provider memory scope ∷ records)

-- The comprehension of `_map_hits`
unfoldable pub read_hits :
    String → Dict String CatalogRow → List ProviderMemory → Result (List MemoryRecord)
unfolding to_record lookup row_scope
read_hits provider rows [] = ok []
read_hits provider rows (memory ∷ memories) =
    let rest = read_hits provider rows memories in
    elim (lookup memory.native_id rows) [
      | none ↦ rest
      | some row ↦ read_hit provider memory row (row_scope row) rest
    ]

abbrev or_not_found : Option CatalogRow → Result CatalogRow
or_not_found none = raise memory_not_found
or_not_found (some row) = ok row

-- `down` of `_failure`: a health check that raises is a provider that is down.
abbrev pub is_down : Result HealthStatus → Bool
is_down (ok health) = not health.ok
is_down (err e) = true

module _ {P : Type 0} where
  -- `_records`
  unfoldable pub records :
      Env → String → String → List ProviderMemory → Scope → Exec (World P) (List MemoryRecord)
  records env tenant provider memories scope = if is_empty memories then pure [] else do
    rows ← in_catalog (record_many env tenant provider (items_of memories) scope)
    pure (written provider scope (by_native rows) memories)

  -- `_map_hits`
  unfoldable pub map_hits :
      Env → String → String → List ProviderMemory → Scope → Exec (World P) (List MemoryRecord)
  map_hits env tenant provider memories scope = if is_empty memories then pure [] else do
    rows ← in_catalog (ensure_many env tenant provider (items_of memories) scope)
    lift (read_hits provider (by_native rows) memories)

  -- `_row`
  unfoldable pub row_of : String → String → Exec (World P) CatalogRow
  row_of tenant gateway_id = do
    row ← in_catalog (resolve_gateway_id tenant gateway_id)
    lift (or_not_found row)

  -- `_failure`, which the callers raise
  unfoldable pub failure {ℓ} : {A : Type ℓ} → Adapter P → Exec (World P) A
  failure a w =
      let (health, w') = at_provider a.health w in
      (if is_down health then raise provider_unhealthy else raise provider_error, w')

  -- What `_call` makes of the outcome of the adapter's operation.
  abbrev pub settle {ℓ} : {A : Type ℓ} → Adapter P → Result A → Exec (World P) A
  settle a (ok x) w = (ok x, w)
  settle a (err (gateway e)) w = (err (gateway e), w)
  settle a (err integrity) w = failure a w
  settle a (err validation) w = failure a w
  settle a (err assertion) w = failure a w
  settle a (err value_error) w = failure a w
  settle a (err (other cause)) w = failure a w

  -- `_call`
  unfoldable pub call {ℓ} : {A : Type ℓ} → Adapter P → Exec P A → Exec (World P) A
  call a m w = settle a (m w.store).0 (record w { store = (m w.store).1 })

  -- `_prepare`: the name, the adapter and the scope with the tenant's stamp
  unfoldable pub prepare :
      Core P → String → Scope → Option String → Exec (World P) (String × Adapter P × Scope)
  prepare core tenant scope asserted = do
    name ← in_catalog (resolve_provider tenant scope.subject core.default_provider asserted)
    found ← lift (adapter core name)
    _ ← lift (assert_scope_supported (under tenant scope) found.capabilities reject)
    pure (name, found, under tenant scope)
