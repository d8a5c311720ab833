-- ===== src/Tests/Samples.antt =====
-- A gateway over one provider, in the terms of src/memgw/core.py.
use router_memory_services.Prelude.{
  ◌+◌, String, Bool, true, false, not, none, some, List, [], ◌∷◌, ◌==◌, string_eq, select, map,
  length, take,
}
use router_memory_services.Errors.{ok, err, other}
use router_memory_services.Json.{null}
use router_memory_services.Types.{
  Scope, Episode, SearchQuery, ProviderMemory, semantic, hybrid, degrade, tenant_dim, subject_dim,
  agent_dim, session_dim,
}
use router_memory_services.Capabilities.{Capabilities, flat_facts, no_dedup, read_after_write}
use router_memory_services.Adapter.{Adapter}
use router_memory_services.Catalog.Schema.{IndexRow}
use router_memory_services.Catalog.Store.{Env, Catalog, empty_catalog}
use router_memory_services.Catalog.Mapping.{Request}
use router_memory_services.Core.State.{Core, World}

abbrev pub env : Env
env = record {
  now = λ t. t;
  clock_ms = λ t. t + 1;
  randbits = λ t. t;
  sha256 = λ s. s;
  dump_episode = λ e. null;
  rivals = λ t. [];
}

abbrev pub memory : String → ProviderMemory
memory native = record {
  native_id = native;
  content = "likes tea";
  created_at = none;
  updated_at = none;
  valid_from = none;
  valid_to = none;
  score = none;
  raw = [];
}

abbrev pub caps : Capabilities
caps = record {
  supports_ingest = true;
  supports_upsert = true;
  supports_update = true;
  supports_delete = true;
  supports_delete_by_scope = true;
  supports_list = true;
  search_modes = semantic ∷ [];
  supports_score = true;
  max_limit = 200;
  scope_dims = tenant_dim ∷ subject_dim ∷ agent_dim ∷ session_dim ∷ [];
  supports_labels = true;
  memory_model = flat_facts;
  dedup = no_dedup;
  supports_export = true;
  supports_import = true;
  consistency = read_after_write;
  experimental = false;
  metered_externally = false;
}

-- The provider keeps its memories, and answers nothing about any one.
abbrev pub Shelf : Type 0
Shelf = List ProviderMemory

abbrev pub tea : Adapter Shelf
tea = record {
  capabilities = caps;
  health = λ p. (ok (record { ok = true; detail = none }), p);
  ingest = λ episode scope p. (ok (memory "n1" ∷ []), memory "n1" ∷ p);
  upsert = λ facts scope p. (ok (map (λ fact. memory fact) facts), map (λ fact. memory fact) facts);
  search = λ query scope p. (ok p, p);
  list_scope = some λ scope limit p. (ok (take limit p), p);
  get = λ native p. (ok none, p);
  update = λ native content p. (ok (memory native), p);
  delete = λ native p. (ok true, select (λ m. not (m.native_id == native)) p);
  delete_scope = λ scope p. (ok (length p), []);
}

-- The same provider, when every call of it fails.
abbrev pub broken : Adapter Shelf
broken = record tea {
  health = λ p. (ok (record { ok = false; detail = some "down" }), p);
  ingest = λ episode scope p. (err (other "timeout"), p);
  search = λ query scope p. (err (other "timeout"), p);
}

abbrev pub core_of : Adapter Shelf → Core Shelf
core_of a = record {
  env = env;
  providers = ("tea", a) ∷ [];
  default_provider = some "tea";
  journal_enabled = true;
}

abbrev pub core : Core Shelf
core = core_of tea

abbrev pub ann : Scope
ann = record { subject = "ann"; agent = none; session = none; labels = []; tenant = some "evil" }

abbrev pub talk : Episode
talk = record { messages = none; text = some "I like tea"; metadata = [] }

abbrev pub query : SearchQuery
query = record {
  query = "tea";
  mode = hybrid;
  limit = 10;
  min_score = none;
  as_of = none;
  on_unsupported = degrade;
  fail_open = true;
}

abbrev pub blank_slate : World Shelf
blank_slate = record { catalog = empty_catalog; store = [] }

-- A row of the index.
abbrev pub row_of : String → String → IndexRow
row_of gateway_id native = record {
  gateway_id = gateway_id;
  tenant_id = "acme";
  provider = "tea";
  native_id = native;
  subject = "ann";
  agent = none;
  session = none;
  content_hash = "likes tea";
  created_at = 0;
  updated_at = 0;
  deleted_at = none;
}

-- One memory, "n1", of Ann's, mapped and bound.
abbrev pub one_row : Catalog
one_row = record empty_catalog {
  index = row_of "mg_1" "n1" ∷ [];
  bindings =
      record {
        tenant_id = "acme";
        subject = "ann";
        provider = "tea";
        bound_at = 0;
        migrated_from = none;
      }
      ∷ [];
}

abbrev pub started : World Shelf
started = record { catalog = one_row; store = memory "n1" ∷ [] }

-- A call of `_map` for the native ids.
abbrev pub asking : Bool → List String → Request
asking revive natives = record {
  tenant = "acme";
  provider = "tea";
  items = map (λ native. (native, "likes tea")) natives;
  scope = ann;
  revive = revive;
}
