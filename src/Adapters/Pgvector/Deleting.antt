-- ===== src/Adapters/Pgvector/Deleting.antt =====
-- `delete` of src/memgw/adapters/pgvector.py, and what `get` finds after it.
use router_memory_services.Prelude.{
  String, ◌≡◌, refl, ap, true, false, not, Bool, Option, none, some, List, [], ◌∷◌, ◌==◌, string_eq,
  eq_iff, arith, any, select, Bool-cases, inl, inr, if◌then◌else◌,
}
use router_memory_services.Errors.{ok}
use router_memory_services.Adapters.Pgvector.Table.{Row, Store, has_id}
use router_memory_services.Adapters.Pgvector.Writes.{find_row, get}
use router_memory_services.Adapters.Pgvector.Erasing.{delete}

abbrev pub is_found : Option Row → Bool
is_found none = false
is_found (some row) = true

any-has_id : (id : String) (rows : List Row) → any (has_id id) rows ≡ is_found (find_row id rows)
unfolding find_row
any-has_id id [] = refl
any-has_id id (row ∷ rows) = ground (arith, any-has_id id rows)

none-has_id :
    (id : String) (rows : List Row)
    → any (has_id id) (select (λ row. not (has_id id row)) rows) ≡ false
none-has_id id [] = refl
none-has_id id (row ∷ rows) = ground (arith, none-has_id id rows)

find_row-deleted :
    (id key : String) (rows : List Row)
    → find_row key (select (λ row. not (has_id id row)) rows)
      ≡ (if key == id then none else find_row key rows)
unfolding find_row
find_row-deleted id key [] = ground arith
find_row-deleted id key (row ∷ rows) = ground (
  arith,
  find_row-deleted id key rows,
  eq_iff key id,
  eq_iff row.native_id id,
  eq_iff row.native_id key,
)

-- A `delete` says whether there was a row of the id. Afterwards `get` finds nothing under that id and
-- under every other id what it found before, and a second `delete` says that there was no row.
pub delete-get :
    (id key : String) (s : Store)
    → ((delete id s).0 ≡ ok (is_found (find_row id s.rows)))
      × ((get key (delete id s).1).0 ≡ (if key == id then ok none else (get key s).0))
      × ((delete id (delete id s).1).0 ≡ ok false)
unfolding delete get
delete-get id key s = (
  ap ok (any-has_id id s.rows),
  elim (Bool-cases (key == id)) [
    | inl e ↦ rw (find_row-deleted id key s.rows, e) refl
    | inr e ↦ rw (find_row-deleted id key s.rows, e) refl
  ],
  ap ok (none-has_id id s.rows),
)
