-- ===== src/Adapters/Pgvector/Instance.antt =====
-- `PgvectorAdapter` of src/memgw/adapters/pgvector.py as an adapter.
use router_memory_services.Prelude.{true, false, none, some, [], ◌∷◌}
use router_memory_services.Types.{semantic, tenant_dim, subject_dim, agent_dim, session_dim}
use router_memory_services.Capabilities.{Capabilities, flat_facts, no_dedup, read_after_write}
use router_memory_services.Adapter.{Adapter}
use router_memory_services.Adapters.Pgvector.Table.{Store, Host}
use router_memory_services.Adapters.Pgvector.Writes.{health, ingest, upsert, update, get}
use router_memory_services.Adapters.Pgvector.Reads.{search, list_scope}
use router_memory_services.Adapters.Pgvector.Erasing.{delete, delete_scope}

unfoldable pub capabilities : Host → Capabilities
capabilities h = record {
  supports_ingest = elim h.extract [ none ↦ false | some extract ↦ true ];
  supports_upsert = true;
  supports_update = true;
  supports_delete = true;
  supports_delete_by_scope = true;
  supports_list = true;
  search_modes = semantic ∷ [];
  supports_score = true;
  max_limit = 200;
  scope_dims = tenant_dim ∷ subject_dim ∷ agent_dim ∷ session_dim ∷ [];
  supports_labels = true;
  memory_model = flat_facts;
  dedup = no_dedup;
  supports_export = true;
  supports_import = true;
  consistency = read_after_write;
  experimental = false;
  metered_externally = false;
}

unfoldable pub pgvector : Host → Adapter Store
unfolding capabilities
pgvector h = record {
  capabilities = capabilities h;
  health = health h;
  ingest = ingest h;
  upsert = upsert h;
  search = search h;
  list_scope = some list_scope;
  get = get;
  update = update h;
  delete = delete;
  delete_scope = delete_scope;
}
