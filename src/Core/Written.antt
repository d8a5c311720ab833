-- ===== src/Core/Written.antt =====
-- What a write of src/memgw/core.py answers, and what the catalog then holds.
use router_memory_services.Prelude.{
  String, ◌≡◌, refl, subst, inl, inr, true, some, List, [], ◌∷◌, ◌==◌, string_eq, arith, All, map,
  Option-cases, Bool-cases, eq_iff,
}
use router_memory_services.Dict.{Dict, lookup, update_all, insert, lookup-insert}
use router_memory_services.Errors.{Result, ok, Result-cases}
use router_memory_services.Types.{Scope, ProviderMemory, MemoryRecord}
use router_memory_services.Catalog.Schema.{CatalogRow}
use router_memory_services.Catalog.Store.{Env, Catalog}
use router_memory_services.Catalog.Rows.{resolve_gateway_id}
use router_memory_services.Catalog.Keys.{IsKeyed}
use router_memory_services.Catalog.Mapping.{Request, record_many, map_index}
use router_memory_services.Catalog.Resolve.{map_index-Resolves}
use router_memory_services.Core.State.{World}
use router_memory_services.Core.Internals.{records, by_native, items_of, written}

module _ (Q : CatalogRow → Type 0) where
  -- What holds of every row holds of each that the dictionary has, which stands under its native id.
  abbrev Good : Dict String CatalogRow → Type 0
  Good rows =
      (n : String) (row : CatalogRow) → lookup n rows ≡ some row → Q row × (row.native_id ≡ n)

  update_all-Good :
      (rows : List CatalogRow) (d : Dict String CatalogRow)
      → All Q rows
      → Good d
      → Good (update_all d (map (λ (row : CatalogRow). (row.native_id, row)) rows))
  unfolding update_all
  update_all-Good [] d h good = good
  update_all-Good (r ∷ rows) d h good = update_all-Good rows (insert r.native_id r d) h.1 λ n row e.
      elim (Bool-cases (r.native_id == n)) [
        | inl s ↦
            let same : r ≡ row = ground (arith, lookup-insert r.native_id n r d) in
            (subst Q same h.0, ground (arith, eq_iff r.native_id n))
        | inr s ↦ good n row (ground (arith, lookup-insert r.native_id n r d))
      ]

  by_native-Good : (rows : List CatalogRow) → All Q rows → Good (by_native rows)
  unfolding by_native lookup
  by_native-Good rows h = update_all-Good rows [] h (λ n row e. absurd (cc))

  written-All :
      (name : String) (scope : Scope) (rows : Dict String CatalogRow) (ms : List ProviderMemory)
      → Good rows
      → All
          (λ (r : MemoryRecord).
            (row : CatalogRow) × Q row
            × (row.native_id ≡ r.native_id)
            × (r.id ≡ row.gateway_id)
            × (r.provider ≡ name))
          (written name scope rows ms)
  unfolding written
  written-All name scope rows [] good = tt
  written-All name scope rows (m ∷ ms) good =
      let rest = written-All name scope rows ms good in
      elim (Option-cases (lookup m.native_id rows)) [
        | inl e ↦ rw (e, written) rest
        | inr (row, e) ↦
            let g = good m.native_id row e in rw (e, written) ((row, g.0, g.1, refl, refl), rest)
      ]

-- The record stands for a live row of the tenant at the provider, to which its id resolves.
abbrev pub IsRecorded : String → String → Catalog → MemoryRecord → Type 0
IsRecorded tenant name c r =
    (row : CatalogRow) × (((resolve_gateway_id tenant row.gateway_id c).0 ≡ ok (some row))
      × (row.tenant_id ≡ tenant)
      × (row.provider ≡ name))
    × (row.native_id ≡ r.native_id)
    × (r.id ≡ row.gateway_id)
    × (r.provider ≡ name)

-- The call of `_map` that a write makes.
abbrev pub write_of : String → String → List (String × String) → Scope → Request
write_of tenant name items scope = record {
  tenant = tenant;
  provider = name;
  items = items;
  scope = scope;
  revive = true;
}

module _ {P : Type 0} (env : Env) (tenant name : String) (scope : Scope) (w : World P) where
  abbrev pub mapped : List ProviderMemory → Result (List CatalogRow) × Catalog
  mapped ms = map_index env (write_of tenant name (items_of ms) scope) w.catalog

  pub records-some :
      (m : ProviderMemory) (ms : List ProviderMemory) (rs : List MemoryRecord)
      → (records env tenant name (m ∷ ms) scope w).0 ≡ ok rs
      → (rows : List CatalogRow) × ((mapped (m ∷ ms)).0 ≡ ok rows)
        × (rs ≡ written name scope (by_native rows) (m ∷ ms))
        × ((records env tenant name (m ∷ ms) scope w).1.catalog ≡ (mapped (m ∷ ms)).1)
  unfolding records record_many
  records-some m ms rs h = elim (Result-cases (mapped (m ∷ ms)).0) [
    | inl (x, q) ↦ absurd (ground arith)
    | inr (rows, q) ↦ (rows, q, ground arith, rw (q))
  ]

  -- Where the keys of the index hold, every record that `_records` answers has a gateway id that the catalog then resolves, for the
  -- tenant, to a live row with the record's provider and native id.
  pub records-IsRecorded :
      (memories : List ProviderMemory) (rs : List MemoryRecord)
      → IsKeyed w.catalog.index
      → (records env tenant name memories scope w).0 ≡ ok rs
      → All (IsRecorded tenant name (records env tenant name memories scope w).1.catalog) rs
  unfolding records
  records-IsRecorded [] [] keyed h = tt
  records-IsRecorded [] (r ∷ rs) keyed h = absurd (ground arith)
  records-IsRecorded (m ∷ ms) rs keyed h =
      let (rows, answered, are, after) = records-some m ms rs h in
      let q = write_of tenant name (items_of (m ∷ ms)) scope in
      rw (are, after)
        (written-All _ name scope (by_native rows) (m ∷ ms)
          (by_native-Good _ rows (map_index-Resolves env q w.catalog rows keyed answered)))
