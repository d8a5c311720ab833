-- ===== src/Catalog/RowLaws.antt =====
-- Deletion marks in `memory_index` of src/memgw/catalog.py, and what a lookup then says.
use router_memory_services.Prelude.{
  String, ◌≡◌, refl, Bool, true, false, not, ◌&&◌, Option, none, some, List, [], ◌∷◌, ◌==◌,
  string_eq, eq_iff, arith, select, length, if◌then◌else◌, ltb, Bool-cases, inl, inr, ◌∙◌,
}
use router_memory_services.Errors.{ok}
use router_memory_services.Types.{Scope, DateTime}
use router_memory_services.Catalog.Schema.{IndexRow, CatalogRow, is_live, to_row}
use router_memory_services.Catalog.Store.{Env, Catalog}
use router_memory_services.Catalog.Rows.{
  find_live, is_live_id, mark_row, resolve_gateway_id, mark_rows, mark_deleted, in_scope,
  mark_scope_deleted,
}

abbrev is_found : Option CatalogRow → Bool
is_found none = false
is_found (some row) = true

-- A row that an `update` marks is live for nobody, and the others are as before.
module _ (p : IndexRow → Bool) (now : DateTime) where
  is_live_id-mark :
      (t g : String) (row : IndexRow)
      → is_live_id t g (mark_row p now row) ≡ (is_live_id t g row && not (p row))
  is_live_id-mark t g row = elim (Bool-cases (p row)) [
    | inl e ↦ rw e (ground arith)
    | inr e ↦ rw e (ground arith)
  ]

  to_row-mark : (row : IndexRow) → to_row (mark_row p now row) ≡ to_row row
  to_row-mark row = ground arith

step :
    (hit want same : Bool) (x a b : Option CatalogRow)
    → (want ≡ true → hit ≡ same)
    → a ≡ (if same then none else b)
    → (if want && not hit then x else a) ≡ (if same then none else if want then x else b)
step hit want same x a b h e = ground arith

-- Two lookups that one row meets are for the same id and tenant.
same_row :
    (tenant gid t g : String) (row : IndexRow)
    → is_live_id t g row ≡ true
    → is_live_id tenant gid row ≡ (gid == g && tenant == t)
same_row tenant gid t g row h = ground (
  arith,
  eq_iff row.gateway_id g,
  eq_iff row.tenant_id t,
  eq_iff gid g,
  eq_iff tenant t,
  eq_iff row.gateway_id gid,
  eq_iff row.tenant_id tenant,
)

find_live-mark :
    (tenant gid t g : String) (now : DateTime) (table : List IndexRow)
    → find_live t g (mark_rows (is_live_id tenant gid) now table)
      ≡ (if gid == g && tenant == t then none else find_live t g table)
unfolding find_live mark_rows
find_live-mark tenant gid t g now [] = ground arith
find_live-mark tenant gid t g now (row ∷ table) =
    let p = is_live_id tenant gid in
    let rest = find_live t g (mark_rows p now table) in
    (λ i. if is_live_id-mark p now t g row i then some (to_row-mark p now row i) else rest)
    ∙ step (p row) (is_live_id t g row) (gid == g && tenant == t) (some (to_row row)) rest
        (find_live t g table) (same_row tenant gid t g row)
        (find_live-mark tenant gid t g now table)

found-select :
    (tenant gid : String) (table : List IndexRow)
    → ltb 0 (length (select (is_live_id tenant gid) table)) ≡ is_found (find_live tenant gid table)
unfolding find_live
found-select tenant gid [] = refl
found-select tenant gid (row ∷ table) = ground (arith, found-select tenant gid table)

-- `mark_deleted` says whether the tenant had the gateway id live. Afterwards that id resolves to
-- nothing for that tenant, and every other id, or the same id for another tenant, resolves to what
-- it did.
pub mark_deleted-resolve :
    (env : Env) (tenant gid t g : String) (c : Catalog)
    → ((mark_deleted env tenant gid c).0 ≡ ok (is_found (find_live tenant gid c.index)))
      × ((resolve_gateway_id t g (mark_deleted env tenant gid c).1).0
          ≡ ok (if gid == g && tenant == t then none else find_live t g c.index))
unfolding mark_deleted resolve_gateway_id
mark_deleted-resolve env tenant gid t g c = (
  ground (arith, found-select tenant gid c.index),
  ground (arith, find_live-mark tenant gid t g (env.now c.ticks) c.index),
)

-- The live rows that a condition does not cover.
abbrev pub spared : (IndexRow → Bool) → List IndexRow → List IndexRow
spared p = select λ row. is_live row && not (p row)

mark-select :
    (p : IndexRow → Bool) (now : DateTime)
    → ((row : IndexRow) → p (record row { deleted_at = some now }) ≡ false)
    → (table : List IndexRow)
    → (select p (mark_rows p now table) ≡ []) × (spared p (mark_rows p now table) ≡ spared p table)
unfolding mark_rows
mark-select p now dead [] = (refl, refl)
mark-select p now dead (row ∷ table) =
    let rest = mark-select p now dead table in ground (arith, rest, dead row)

-- After `mark_scope_deleted` no row of the tenant at the provider that the scope covers is live; the
-- live rows that it does not cover are the same; and the result is the number of rows that it marked.
pub mark_scope_deleted-erases :
    (env : Env) (tenant provider : String) (scope : Scope) (c : Catalog)
    → ((mark_scope_deleted env tenant scope provider c).0
        ≡ ok (length (select (in_scope tenant scope provider) c.index)))
      × (select
            (in_scope tenant scope provider)
            (mark_scope_deleted env tenant scope provider c).1.index
          ≡ [])
      × (spared
            (in_scope tenant scope provider)
            (mark_scope_deleted env tenant scope provider c).1.index
          ≡ spared (in_scope tenant scope provider) c.index)
unfolding mark_scope_deleted
mark_scope_deleted-erases env tenant provider scope c =
    let marked =
      mark-select (in_scope tenant scope provider) (env.now c.ticks) (λ row. ground arith)
        c.index in
    (refl, marked.0, marked.1)
