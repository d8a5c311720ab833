-- ===== src/Core/Complete.antt =====
-- A write of src/memgw/core.py answers one record for each memory that its provider wrote.
use router_memory_services.Prelude.{
  String, ◌≡◌, refl, ap, ◌∙◌, true, ◌||◌, List, [], ◌∷◌, string_eq, arith, map, elem, Option-cases,
  inl, inr, eq_iff,
}
use router_memory_services.Dict.{Dict, lookup, has, update_all, insert, lookup-insert}
use router_memory_services.Errors.{ok}
use router_memory_services.Types.{Scope, ProviderMemory, MemoryRecord}
use router_memory_services.Catalog.Schema.{CatalogRow}
use router_memory_services.Catalog.Store.{Env}
use router_memory_services.Catalog.Keys.{IsKeyed}
use router_memory_services.Catalog.Mapping.{natives_of}
use router_memory_services.Catalog.Resolve.{map_index-natives}
use router_memory_services.Core.State.{World}
use router_memory_services.Core.Internals.{records, by_native, items_of, written, to_record}
use router_memory_services.Core.Written.{records-some, write_of}

abbrev natives : List CatalogRow → List String
natives = map λ (row : CatalogRow). row.native_id

has-update_all :
    (n : String) (rows : List CatalogRow) (d : Dict String CatalogRow)
    → has n (update_all d (map (λ (row : CatalogRow). (row.native_id, row)) rows))
      ≡ (elem n (natives rows) || has n d)
unfolding update_all
has-update_all n [] d = refl
has-update_all n (r ∷ rows) d = ground (
  arith,
  has-update_all n rows (insert r.native_id r d),
  lookup-insert r.native_id n r d,
  eq_iff r.native_id n,
  eq_iff n r.native_id,
)

has-by_native :
    (n : String) (rows : List CatalogRow) → has n (by_native rows) ≡ elem n (natives rows)
unfolding by_native lookup
has-by_native n rows = ground (arith, has-update_all n rows [])

abbrev memory_natives : List ProviderMemory → List String
memory_natives = map λ (m : ProviderMemory). m.native_id

abbrev record_natives : List MemoryRecord → List String
record_natives = map λ (r : MemoryRecord). r.native_id

written-natives :
    (name : String) (scope : Scope) (rows : Dict String CatalogRow) (ms : List ProviderMemory)
    → ((n : String) → elem n (memory_natives ms) ≡ true → has n rows ≡ true)
    → record_natives (written name scope rows ms) ≡ memory_natives ms
unfolding written to_record
written-natives name scope rows [] h = refl
written-natives name scope rows (m ∷ ms) h =
    let rest = written-natives name scope rows ms (λ n e. h n (ground arith)) in
    let here = h m.native_id (ground (arith, eq_iff m.native_id m.native_id)) in
    elim (Option-cases (lookup m.native_id rows)) [
      | inl e ↦ absurd (ground arith)
      | inr (row, e) ↦ rw (e, written) (ap (λ x. m.native_id ∷ x) rest)
    ]

natives_of-items_of : (ms : List ProviderMemory) → natives_of (items_of ms) ≡ memory_natives ms
natives_of-items_of [] = refl
natives_of-items_of (m ∷ ms) = rw (natives_of-items_of ms)

-- When `_records` answers, where the keys of the index hold, each memory that it was given has its record, in the same order: none is
-- dropped, not even one whose native id the gateway had deleted before.
pub records-natives :
    {P : Type 0} (env : Env) (tenant name : String) (memories : List ProviderMemory) (scope : Scope)
    (w : World P) (rs : List MemoryRecord)
    → IsKeyed w.catalog.index
    → (records env tenant name memories scope w).0 ≡ ok rs
    → record_natives rs ≡ memory_natives memories
unfolding records
records-natives env tenant name [] scope w rs keyed h = ground arith
records-natives env tenant name (m ∷ ms) scope w rs keyed h =
    let (rows, answered, are, after) = records-some env tenant name scope w m ms rs h in
    let q = write_of tenant name (items_of (m ∷ ms)) scope in
    let all =
      map_index-natives env q w.catalog rows refl keyed answered ∙ natives_of-items_of (m ∷ ms) in
    rw (are) (
      written-natives name scope (by_native rows) (m ∷ ms)
        λ n e. has-by_native n rows ∙ ap (elem n) all ∙ e)
