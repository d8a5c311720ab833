-- ===== src/Adapters/Pgvector/Erasing.antt =====
-- `delete` and `delete_scope` of src/memgw/adapters/pgvector.py.
use router_memory_services.Prelude.{
  ℕ, zero, suc, String, Bool, false, none, List, [], ◌∷◌, string_eq, elem, any, map, is_empty, not,
  select, length, take, drop, if◌then◌else◌,
}
use router_memory_services.Errors.{ok}
use router_memory_services.Exec.{Exec}
use router_memory_services.Types.{Scope}
use router_memory_services.Adapters.Pgvector.Table.{Row, Store, conditions, has_id}
use router_memory_services.Adapters.Pgvector.Reads.{rows_in_scope}

-- A DELETE, with its row count
abbrev pub delete_where : (Row → Bool) → Exec Store ℕ
delete_where doomed s = (
  ok (length (select doomed s.rows)),
  record s { rows = select (λ row. not (doomed row)) s.rows },
)

unfoldable pub delete : String → Exec Store Bool
delete id s = (ok (any (has_id id) s.rows), (delete_where (has_id id) s).1)

-- `_CHUNK`
abbrev pub chunk : ℕ
chunk = 500

-- The loop of `delete_scope`, on fuel: native_id IN (…), for each chunk of the ids.
unfoldable pub delete_chunks : ℕ → List String → List Row → List Row
delete_chunks zero ids rows = rows
delete_chunks (suc fuel) [] rows = rows
delete_chunks (suc fuel) (id ∷ ids) rows =
    delete_chunks fuel (drop chunk (id ∷ ids))
      (select (λ row. not (elem row.native_id (take chunk (id ∷ ids)))) rows)

unfoldable pub delete_scope : Scope → Exec Store ℕ
unfolding rows_in_scope delete_chunks
delete_scope scope s =
    if is_empty scope.labels
    then delete_where (conditions scope) s
    else let doomed = map (λ row. row.native_id) (rows_in_scope scope false none s.rows) in
      if is_empty doomed
      then (ok 0, s)
      else (ok (length doomed), record s { rows = delete_chunks (length doomed) doomed s.rows })
