-- ===== src/Core/Writes.antt =====
-- The verbs of src/memgw/core.py that write: `ingest`, `upsert`, `update`, `delete`, `delete_scope`
-- and `rebind`. `observe`, which times a verb and logs one event, is left out.
use router_memory_services.Prelude.{
  ℕ, String, Bool, true, false, Option, List, [], ◌∷◌, map, if◌then◌else◌,
}
use router_memory_services.Errors.{
  Result, ok, raise, invalid_request, unsupported_capability, not_implemented,
}
use router_memory_services.Exec.{Exec, pure, lift, ◌>>=◌}
use router_memory_services.Types.{Scope, Episode, MemoryRecord, reject}
use router_memory_services.Degrade.{assert_delete_supported}
use router_memory_services.Catalog.Schema.{RebindResult, row_scope}
use router_memory_services.Catalog.Store.{Env}
use router_memory_services.Catalog.Mapping.{record_one}
use router_memory_services.Catalog.Rows.{mark_deleted, mark_scope_deleted}
use router_memory_services.Catalog.Bindings.{bind}
use router_memory_services.Catalog.Bindings
use router_memory_services.Catalog.Journal.{journal, delete_journal}
use router_memory_services.Core.State.{
  Core, World, WriteResult, RebindStrategy, fresh_start, migrate, in_catalog, adapter,
}
use router_memory_services.Core.Internals.{prepare, call, records, row_of, to_record}

-- `if not supported: raise UnsupportedCapability(…)`
abbrev pub require : Bool → Result (Unit {0})
require true = ok tt
require false = raise unsupported_capability

-- `if not facts: raise InvalidRequest(…)`
abbrev pub require_facts : List String → Result (Unit {0})
require_facts [] = raise invalid_request
require_facts (fact ∷ facts) = ok tt

-- `if self.journal_enabled: …`
unfoldable pub journal_if :
    {P : Type 0}
    → Env
    → Bool
    → String
    → Episode
    → Scope
    → String
    → List String
    → Exec (World P) (Unit {0})
journal_if env enabled tenant episode scope name natives =
    if enabled
    then (do
      _ ← in_catalog (journal env tenant scope (env.dump_episode episode) ((name, natives) ∷ []))
      pure tt)
    else pure tt

module _ {P : Type 0} (core : Core P) (tenant : String) where
  unfoldable pub ingest : Episode → Scope → Option String → Exec (World P) WriteResult
  ingest episode scope provider = do
    (name, found, bound) ← prepare core tenant scope provider
    _ ← lift (require found.capabilities.supports_ingest)
    memories ← call found (found.ingest episode bound)
    results ← records core.env tenant name memories scope
    _ ← in_catalog (bind core.env tenant scope.subject name)
    _ ←
        journal_if core.env core.journal_enabled tenant episode scope name
          (map (λ m. m.native_id) memories)
    pure (record { results = results; provider = name })

  unfoldable pub upsert : List String → Scope → Option String → Exec (World P) WriteResult
  upsert facts scope provider = do
    _ ← lift (require_facts facts)
    (name, found, bound) ← prepare core tenant scope provider
    _ ← lift (require found.capabilities.supports_upsert)
    memories ← call found (found.upsert facts bound)
    results ← records core.env tenant name memories scope
    _ ← in_catalog (bind core.env tenant scope.subject name)
    pure (record { results = results; provider = name })

  unfoldable pub update : String → String → Exec (World P) MemoryRecord
  update gateway_id content = do
    row ← row_of tenant gateway_id
    found ← lift (adapter core row.provider)
    _ ← lift (require found.capabilities.supports_update)
    memory ← call found (found.update row.native_id content)
    scope ← lift (row_scope row)
    _ ← in_catalog (record_one core.env tenant row.provider memory.native_id scope content)
    pure (to_record row.gateway_id row.provider memory scope)

  unfoldable pub delete : String → Exec (World P) (Unit {0})
  delete gateway_id = do
    row ← row_of tenant gateway_id
    found ← lift (adapter core row.provider)
    _ ← lift (assert_delete_supported found.capabilities reject false)
    _ ← call found (found.delete row.native_id)
    _ ← in_catalog (mark_deleted core.env tenant gateway_id)
    pure tt

  unfoldable pub delete_scope : Scope → Option String → Exec (World P) ℕ
  delete_scope scope provider = do
    (name, found, bound) ← prepare core tenant scope provider
    _ ← lift (assert_delete_supported found.capabilities reject true)
    removed ← call found (found.delete_scope bound)
    _ ← in_catalog (mark_scope_deleted core.env tenant scope name)
    _ ← in_catalog (delete_journal tenant scope)
    pure removed

  abbrev pub not_migrating : RebindStrategy → Result (Unit {0})
  not_migrating migrate = raise not_implemented
  not_migrating fresh_start = ok tt

  unfoldable pub rebind : String → String → RebindStrategy → Exec (World P) RebindResult
  rebind subject provider strategy = do
    _ ← lift (not_migrating strategy)
    _ ← lift (adapter core provider)
    in_catalog (Bindings.rebind core.env tenant subject provider)
