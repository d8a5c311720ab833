-- ===== src/Core/ById.antt =====
-- The verbs of src/memgw/core.py on one gateway id: `get`, `update` and `delete`.
use router_memory_services.Prelude.{
  String, ◌≡◌, refl, ◌≢◌, ◌⊎◌, some, List, [], ◌∷◌, All, arith, eq_iff, inl, inr, false, ◌&&◌, none,
  ◌==◌, string_eq, if◌then◌else◌,
}
use router_memory_services.Errors.{Exn, ok, err, gateway, raise, memory_not_found, Result-cases}
use router_memory_services.Exec.{Exec}
use router_memory_services.Types.{reject, DateTime}
use router_memory_services.Degrade.{assert_delete_supported}
use router_memory_services.Adapter.{Adapter}
use router_memory_services.Catalog.Schema.{IndexRow}
use router_memory_services.Catalog.Rows.{is_live_id, find_live, resolve_gateway_id, mark_deleted}
use router_memory_services.Catalog.RowLaws.{mark_deleted-resolve}
use router_memory_services.Core.State.{Core, World, adapter}
use router_memory_services.Core.Internals.{row_of, call, failure}
use router_memory_services.Core.Writes.{update, delete}
use router_memory_services.Core.Reads.{get}

module _ {P : Type 0} where
  -- `_call` touches no catalog.
  pub call-catalog {ℓ} :
      {A : Type ℓ} (a : Adapter P) (m : Exec P A) (w : World P) → (call a m w).1.catalog ≡ w.catalog
  unfolding call failure
  call-catalog a m w = elim (Result-cases (m w.store).0) [
    | inr (x, e) ↦ rw e
    | inl (gateway x, e) ↦ rw e
    | inl (_, e) ↦ rw e
  ]

-- A row that a gateway id of a tenant does not name: another id, another tenant's, or a deleted one.
abbrev pub IsOther : String → String → IndexRow → Type 0
IsOther tenant gateway_id row =
    (row.gateway_id ≢ gateway_id)
    ⊎ (row.tenant_id ≢ tenant)
    ⊎ ((at : DateTime) × (row.deleted_at ≡ some at))

is_live_id-IsOther :
    (tenant gateway_id : String) (row : IndexRow)
    → IsOther tenant gateway_id row
    → is_live_id tenant gateway_id row ≡ false
is_live_id-IsOther tenant gateway_id row (inl other) =
    ground (arith, eq_iff row.gateway_id gateway_id, other)
is_live_id-IsOther tenant gateway_id row (inr (inl other)) =
    ground (arith, eq_iff row.tenant_id tenant, other)
is_live_id-IsOther tenant gateway_id row (inr (inr (at, e))) = rw e (ground arith)

find_live-none :
    (tenant gateway_id : String) (table : List IndexRow)
    → All (IsOther tenant gateway_id) table
    → find_live tenant gateway_id table ≡ none
unfolding find_live
find_live-none tenant gateway_id [] h = refl
find_live-none tenant gateway_id (row ∷ table) h =
    rw (is_live_id-IsOther tenant gateway_id row h.0) (find_live-none tenant gateway_id table h.1)

module _ {P : Type 0} (core : Core P) (tenant gateway_id : String) (w : World P) where
  -- If every row of the index has another gateway id, belongs to another tenant or is deleted, then
  -- the id is not found, by `get`, `update` and `delete` alike; no provider is asked and nothing
  -- changes.
  pub by_id-not_found :
      (content : String)
      → All (IsOther tenant gateway_id) w.catalog.index
      → (get core tenant gateway_id w ≡ (raise memory_not_found, w))
        × (update core tenant gateway_id content w ≡ (raise memory_not_found, w))
        × (delete core tenant gateway_id w ≡ (raise memory_not_found, w))
  unfolding get update delete row_of resolve_gateway_id
  by_id-not_found content others =
      let h = find_live-none tenant gateway_id w.catalog.index others in (rw h, rw h, rw h)

  -- A `delete` either raises, and then the catalog is as it was, or returns, and then the gateway id
  -- resolves to nothing for the tenant, while every other id, and every id of another tenant,
  -- resolves to what it did.
  pub delete-outcome :
      (t g : String)
      → ((e : Exn) × ((delete core tenant gateway_id w).0 ≡ err e)
          × ((delete core tenant gateway_id w).1.catalog ≡ w.catalog))
        ⊎ (((delete core tenant gateway_id w).0 ≡ ok tt)
            × ((resolve_gateway_id t g (delete core tenant gateway_id w).1.catalog).0
                ≡ ok (
                    if gateway_id == g && tenant == t
                    then none
                    else find_live t g w.catalog.index)))
  unfolding delete row_of resolve_gateway_id mark_deleted
  delete-outcome t g = elim (Result-cases (row_of tenant gateway_id w).0) [
    | inl (e, p) ↦ inl (e, rw (p), rw (p))
    | inr (row, p) ↦ elim (Result-cases (adapter core row.provider)) [
      | inl (e, q) ↦ inl (e, rw (p, q), rw (p, q))
      | inr (a, q) ↦ elim (Result-cases (assert_delete_supported a.capabilities reject false)) [
        | inl (e, r) ↦ inl (e, rw (p, q, r), rw (p, q, r))
        | inr (_, r) ↦ elim (Result-cases (call a (a.delete row.native_id) w).0) [
          | inl (e, s) ↦
              inl (e, rw (p, q, r, s), rw (p, q, r, s) (call-catalog a (a.delete row.native_id) w))
          | inr (x, s) ↦ inr (
            rw (p, q, r, s),
            rw (p, q, r, s, call-catalog a (a.delete row.native_id) w)
                (mark_deleted-resolve core.env tenant gateway_id t g w.catalog).1,
          )
        ]
      ]
    ]
  ]
