-- ===== src/Catalog/Resolve.antt =====
-- The rows that `_map` of src/memgw/catalog.py answers, and `resolve_gateway_id`.
use router_memory_services.Prelude.{
  String, ◌≡◌, refl, sym, subst, ap, true, false, some, List, [], ◌∷◌, ◌==◌, string_eq, eq_iff,
  arith, any, All, All-map_imp, elem, map, Option-cases, inl, inr,
}
use router_memory_services.Errors.{ok}
use router_memory_services.Catalog.Schema.{IndexRow, CatalogRow, conflicts}
use router_memory_services.Catalog.Store.{Env, Catalog}
use router_memory_services.Catalog.Index.{live, is_doomed, live_row}
use router_memory_services.Catalog.Mapping.{Request, natives_of, map_index}
use router_memory_services.Catalog.Rows.{find_live, resolve_gateway_id}
use router_memory_services.Catalog.Lookup.{stored}
use router_memory_services.Catalog.Keys.{IsKeyed}
use router_memory_services.Catalog.Answer.{answer}
use router_memory_services.Catalog.MapLaws.{map_index-Answers}
use router_memory_services.Catalog.MapState.{map_index-IsKeyed}

module _ (tenant provider native : String) where
  gateway_id-ne :
      (x : IndexRow) (table : List IndexRow) (row : CatalogRow)
      → any (conflicts x) table ≡ false
      → stored tenant provider native table ≡ some (live row)
      → (x.gateway_id == row.gateway_id) ≡ false
  unfolding stored
  gateway_id-ne x [] row h e = cc
  gateway_id-ne x (r ∷ table) row h e = ground (arith, gateway_id-ne x table row)

  -- What the table has live of a native id is found by its gateway id, and belongs to the tenant and
  -- the provider.
  stored-find_live :
      (table : List IndexRow) (row : CatalogRow)
      → IsKeyed table
      → stored tenant provider native table ≡ some (live row)
      → (find_live tenant row.gateway_id table ≡ some row)
        × (row.tenant_id ≡ tenant)
        × (row.provider ≡ provider)
        × (row.native_id ≡ native)
  unfolding stored find_live
  stored-find_live [] row k e = cc
  stored-find_live (x ∷ table) row k e = ground (
    arith,
    stored-find_live table row k.1,
    gateway_id-ne x table row k.0,
    eq_iff x.tenant_id tenant,
    eq_iff x.provider provider,
    eq_iff x.native_id native,
    eq_iff x.gateway_id x.gateway_id,
  )

-- The row is what its gateway id resolves to, and it is the tenant's at the provider.
abbrev pub Resolves : String → String → List IndexRow → CatalogRow → Type 0
Resolves tenant provider table row =
    (find_live tenant row.gateway_id table ≡ some row)
    × (row.tenant_id ≡ tenant)
    × (row.provider ≡ provider)

answer-Resolves :
    (tenant provider : String) (natives : List String) (table : List IndexRow)
    → IsKeyed table
    → All (Resolves tenant provider table) (answer tenant provider natives table)
unfolding answer
answer-Resolves tenant provider [] table k = tt
answer-Resolves tenant provider (n ∷ natives) table k =
    elim (Option-cases (live_row (stored tenant provider n table))) [
      | inl e ↦ rw (e, answer) (answer-Resolves tenant provider natives table k)
      | inr (row, e) ↦
          let found = stored-find_live tenant provider n table row k (ground arith) in
          rw (e, answer)
            ((found.0, found.1, found.2), answer-Resolves tenant provider natives table k)
    ]

-- Each row that `_map` answers, for a read or a write, is the live row that `resolve_gateway_id`
-- gives for its gateway id when the call is over, and is the tenant's at the provider; that holds
-- whatever other processes commit, if the keys held before.
pub map_index-Resolves :
    (env : Env) (q : Request) (c : Catalog) (rows : List CatalogRow)
    → IsKeyed c.index
    → (map_index env q c).0 ≡ ok rows
    → All
        (λ row.
          ((resolve_gateway_id q.tenant row.gateway_id (map_index env q c).1).0 ≡ ok (some row))
          × (row.tenant_id ≡ q.tenant)
          × (row.provider ≡ q.provider))
        rows
unfolding resolve_gateway_id
map_index-Resolves env q c rows k h =
    let after = (map_index env q c).1.index in
    All-map_imp (λ row r. (ap ok r.0, r.1, r.2)) rows
      (subst (All (Resolves q.tenant q.provider after))
        (sym (map_index-Answers env q c rows h).rows_are)
        (answer-Resolves q.tenant q.provider (natives_of q.items) after
          (map_index-IsKeyed env q c k).0))

answer-natives :
    (tenant provider : String) (natives : List String) (table : List IndexRow)
    → IsKeyed table
    → ((n : String) → elem n natives ≡ true → is_doomed (stored tenant provider n table) ≡ false)
    → map (λ (row : CatalogRow). row.native_id) (answer tenant provider natives table) ≡ natives
unfolding answer
answer-natives tenant provider [] table k h = refl
answer-natives tenant provider (n ∷ natives) table k h =
    let rest = answer-natives tenant provider natives table k (λ m e. h m (ground arith)) in
    let lives = h n (ground (arith, eq_iff n n)) in
    elim (Option-cases (live_row (stored tenant provider n table))) [
      | inl e ↦ absurd (ground arith)
      | inr (row, e) ↦
          let found = stored-find_live tenant provider n table row k (ground arith) in
          rw (e, answer) (ground (arith, found.3, rest))
    ]

-- Where the keys of the index hold, a write, `record_many`, that does not raise answers one live row for each item, in their order:
-- no item of a write is dropped, also if the gateway had deleted its native id.
pub map_index-natives :
    (env : Env) (q : Request) (c : Catalog) (rows : List CatalogRow)
    → q.revive ≡ true
    → IsKeyed c.index
    → (map_index env q c).0 ≡ ok rows
    → map (λ (row : CatalogRow). row.native_id) rows ≡ natives_of q.items
map_index-natives env q c rows writes k h =
    let a = map_index-Answers env q c rows h in
    subst (λ r. map (λ (row : CatalogRow). row.native_id) r ≡ natives_of q.items) (sym a.rows_are)
      (answer-natives q.tenant q.provider (natives_of q.items) (map_index env q c).1.index
        (map_index-IsKeyed env q c k).0 (λ n e. (a.settled n e).1 writes))
