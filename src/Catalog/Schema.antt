-- ===== src/Catalog/Schema.antt =====
-- The tables and rows of src/memgw/catalog.py. A table is a list of rows, read by the meaning of the
-- SQL statements: their order carries no meaning, and the keys are checked by each insertion.
use router_memory_services.Prelude.{
  ℕ, String, Bool, true, false, ◌&&◌, ◌||◌, Option, none, some, List, [], ◌∷◌, ◌==◌, string_eq, any,
  if◌then◌else◌,
}
use router_memory_services.Errors.{Result}
use router_memory_services.Json.{Json}
use router_memory_services.Dict.{Dict}
use router_memory_services.Types.{Scope, build_scope, DateTime}

-- memory_index
pub record IndexRow : Type 0 where
  pub gateway_id : String
  pub tenant_id : String
  pub provider : String
  pub native_id : String
  pub subject : String
  pub agent : Option String
  pub session : Option String
  pub content_hash : String
  pub created_at : DateTime
  pub updated_at : DateTime
  pub deleted_at : Option DateTime

-- scope_binding
pub record BindingRow : Type 0 where
  pub tenant_id : String
  pub subject : String
  pub provider : String
  pub bound_at : DateTime
  pub migrated_from : Option String

-- episode_journal
pub record EpisodeRow : Type 0 where
  pub episode_id : String
  pub tenant_id : String
  pub subject : String
  pub agent : Option String
  pub session : Option String
  pub payload : Json
  pub ingested_to : Dict String (List String)
  pub created_at : DateTime

pub record CatalogRow : Type 0 where
  pub gateway_id : String
  pub tenant_id : String
  pub provider : String
  pub native_id : String
  pub subject : String
  pub agent : Option String
  pub session : Option String

-- `CatalogRow.scope`, whose constructor validates
unfoldable pub row_scope : CatalogRow → Result Scope
unfolding build_scope
row_scope row = build_scope row.subject row.agent row.session [] none

-- `_to_row`
abbrev pub to_row : IndexRow → CatalogRow
to_row row = record {
  gateway_id = row.gateway_id;
  tenant_id = row.tenant_id;
  provider = row.provider;
  native_id = row.native_id;
  subject = row.subject;
  agent = row.agent;
  session = row.session;
}

pub record JournalRow : Type 0 where
  pub episode_id : String
  pub subject : String
  pub agent : Option String
  pub session : Option String
  pub payload : Json
  pub ingested_to : Dict String (List String)

pub record RebindResult : Type 0 where
  pub provider : String
  pub orphaned_at : Option String
  pub orphaned_count : ℕ

-- `deleted_at IS NULL`
abbrev pub is_live : IndexRow → Bool
is_live row = elim row.deleted_at [ none ↦ true | some t ↦ false ]

-- tenant_id = … AND provider = … AND native_id = …
abbrev pub is_key : String → String → String → IndexRow → Bool
is_key tenant provider native row =
    row.tenant_id == tenant && row.provider == provider && row.native_id == native

-- The primary key, and the unique constraint `uq_memory_index_native`.
abbrev pub conflicts : IndexRow → IndexRow → Bool
conflicts r s = r.gateway_id == s.gateway_id || is_key r.tenant_id r.provider r.native_id s

-- One `insert` of several rows: all of them, or an `IntegrityError` and none.
unfoldable pub insert_index : List IndexRow → List IndexRow → Option (List IndexRow)
insert_index [] table = some table
insert_index (row ∷ rows) table = elim (insert_index rows table) [
  | none ↦ none
  | some table' ↦ if any (conflicts row) table' then none else some (row ∷ table')
]
