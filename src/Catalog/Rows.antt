-- ===== src/Catalog/Rows.antt =====
-- The methods of src/memgw/catalog.py that read or mark rows of `memory_index`.
use router_memory_services.Prelude.{
  ℕ, suc, String, Bool, true, ◌&&◌, Option, none, some, List, [], ◌∷◌, ◌==◌, string_eq, option_eq,
  ltb, select, length, is_set, if◌then◌else◌,
}
use router_memory_services.Errors.{ok}
use router_memory_services.Exec.{Exec, pure, ◌>>=◌}
use router_memory_services.Types.{Scope, DateTime}
use router_memory_services.Catalog.Schema.{IndexRow, CatalogRow, to_row, is_live}
use router_memory_services.Catalog.Store.{Env, Catalog}

-- gateway_id = … AND tenant_id = … AND deleted_at IS NULL
abbrev pub is_live_id : String → String → IndexRow → Bool
is_live_id tenant gateway_id row =
    row.gateway_id == gateway_id && row.tenant_id == tenant && is_live row

-- `one_or_none` of a query by primary key: the row, if there is one.
unfoldable pub find_live : String → String → List IndexRow → Option CatalogRow
find_live tenant gateway_id [] = none
find_live tenant gateway_id (row ∷ table) =
    if is_live_id tenant gateway_id row
    then some (to_row row)
    else find_live tenant gateway_id table

unfoldable pub resolve_gateway_id : String → String → Exec Catalog (Option CatalogRow)
unfolding find_live
resolve_gateway_id tenant gateway_id c = (ok (find_live tenant gateway_id c.index), c)

-- update memory_index set deleted_at = now where …
abbrev pub mark_row : (IndexRow → Bool) → DateTime → IndexRow → IndexRow
mark_row p now row = if p row then record row { deleted_at = some now } else row

unfoldable pub mark_rows : (IndexRow → Bool) → DateTime → List IndexRow → List IndexRow
mark_rows p now [] = []
mark_rows p now (row ∷ table) = mark_row p now row ∷ mark_rows p now table

-- The rows changed, and the number of them as `rowcount`.
abbrev pub mark_where : Env → (IndexRow → Bool) → Exec Catalog ℕ
mark_where env p c = (
  ok (length (select p c.index)),
  record c { index = mark_rows p (env.now c.ticks) c.index; ticks = suc c.ticks },
)

unfoldable pub mark_deleted : Env → String → String → Exec Catalog Bool
unfolding mark_rows
mark_deleted env tenant gateway_id = do
  rowcount ← mark_where env (is_live_id tenant gateway_id)
  pure (ltb 0 rowcount)

-- `if scope.agent: conditions.append(column == scope.agent)`; a NULL column equals nothing.
abbrev pub column_is : Option String → Option String → Bool
column_is wanted column = if is_set wanted then column == wanted else true

-- The conditions of `mark_scope_deleted`
abbrev pub in_scope : String → Scope → String → IndexRow → Bool
in_scope tenant scope provider row =
    row.tenant_id == tenant
    && row.provider == provider
    && row.subject == scope.subject
    && is_live row
    && column_is scope.agent row.agent
    && column_is scope.session row.session

unfoldable pub mark_scope_deleted : Env → String → Scope → String → Exec Catalog ℕ
unfolding mark_rows
mark_scope_deleted env tenant scope provider = mark_where env (in_scope tenant scope provider)

abbrev pub is_live_of : String → String → String → IndexRow → Bool
is_live_of tenant subject provider row =
    row.tenant_id == tenant && row.subject == subject && row.provider == provider && is_live row

unfoldable pub live_count : String → String → String → Exec Catalog ℕ
live_count tenant subject provider c =
    (ok (length (select (is_live_of tenant subject provider) c.index)), c)
