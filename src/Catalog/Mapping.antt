-- ===== src/Catalog/Mapping.antt =====
-- `_map` of src/memgw/catalog.py and the methods that call it.
use router_memory_services.Prelude.{
  ℕ, zero, suc, String, Bool, true, false, ◌&&◌, not, Option, none, some, List, [], ◌∷◌, string_eq,
  nat_beq, select, map, is_empty, if◌then◌else◌,
}
use router_memory_services.Dict.{Dict, lookup, has, update_all, merge}
use router_memory_services.Errors.{Result, ok, err, integrity, assertion, value_error}
use router_memory_services.Exec.{Exec, pure, lift, ◌>>=◌}
use router_memory_services.Types.{Scope}
use router_memory_services.Catalog.Schema.{IndexRow, CatalogRow, insert_index}
use router_memory_services.Catalog.Store.{Env, Catalog, commit_rivals}
use router_memory_services.Catalog.Index.{
  Found, find_by_native, missing_values, inserted, revive_all, is_doomed, live_rows, retries,
}

abbrev pub natives_of : List (String × String) → List String
natives_of items = map (λ (item : String × String). item.0) items

-- [(native, content) for native, content in items if native not in known]
abbrev pub missing_of : Dict String Found → List (String × String) → List (String × String)
missing_of known items = select (λ (item : String × String). not (has item.0 known)) items

-- [n for n in natives if known.get(n, _GONE) is _GONE]
abbrev pub doomed_of : Dict String Found → List String → List String
doomed_of known natives = select (λ native. is_doomed (lookup native known)) natives

-- The parameters of one call of `_map`.
pub record Request : Type 0 where
  pub tenant : String
  pub provider : String
  pub items : List (String × String)
  pub scope : Scope
  pub revive : Bool

-- `if revive: … if doomed: …`, over what is known after the insertion
unfoldable pub revive_stage :
    Env → Request → Dict String Found → Catalog → List CatalogRow × Catalog
unfolding revive_all find_by_native live_rows update_all merge
revive_stage env q known c =
    let natives = natives_of q.items in
    let doomed = doomed_of known natives in
    let table =
      revive_all env (env.now c.ticks) q.tenant q.provider q.scope (update_all [] q.items) doomed
        c.index in
    if q.revive && not (is_empty doomed)
    then (
      live_rows (merge known (find_by_native q.tenant q.provider doomed table)) natives,
      record c { index = table; ticks = suc c.ticks },
    )
    else (live_rows known natives, c)

-- The end of an attempt, by what the insertion said: a failed one is rolled back.
unfoldable pub after_insert :
    Env
    → Request
    → Dict String Found
    → List IndexRow
    → Catalog
    → Option (List IndexRow)
    → Option (List CatalogRow) × Catalog
unfolding revive_stage inserted
after_insert env q known values c none = (none, c)
after_insert env q known values c (some table) =
    let (rows, c') = revive_stage env q (inserted values known) (record c { index = table }) in
    (some rows, c')

-- What the first lookup of a pass finds.
abbrev pub known_of : Request → Catalog → Dict String Found
known_of q c = find_by_native q.tenant q.provider (natives_of q.items) c.index

-- The table that the insertion meets: other processes may have committed since the lookup.
abbrev pub raced_of : Env → Catalog → List IndexRow
raced_of env c = commit_rivals (env.rivals c.ticks) c.index

-- The rows to insert.
abbrev pub values_of : Env → Request → Catalog → List IndexRow × Catalog
values_of env q c =
    missing_values env q.tenant q.provider q.scope (missing_of (known_of q c) q.items) c

-- One pass of the loop in `_map`, a transaction: `none` is an `IntegrityError`. What other
-- processes commit goes in between the lookup and the insertion, and stays.
unfoldable pub attempt : Env → Request → Catalog → Option (List CatalogRow) × Catalog
unfolding find_by_native missing_values after_insert insert_index commit_rivals
attempt env q c =
    after_insert env q (known_of q c) (values_of env q c).0
      (record (values_of env q c).1 { index = raced_of env c })
      (insert_index (values_of env q c).0 (raced_of env c))

-- How the loop goes on after a pass that failed: `if attempt == _RETRIES - 1: raise`.
abbrev pub retry : Bool → Exec Catalog (List CatalogRow) → Exec Catalog (List CatalogRow)
retry is_last again c = if is_last then (err integrity, c) else again c

abbrev pub or_retry :
    Bool
    → Exec Catalog (List CatalogRow)
    → Option (List CatalogRow)
    → Exec Catalog (List CatalogRow)
or_retry is_last again (some rows) c = (ok rows, c)
or_retry is_last again none c = retry is_last again c

-- The loop, on the passes that are left; the last `raise AssertionError` comes when none is.
unfoldable pub attempts : Env → Request → ℕ → Exec Catalog (List CatalogRow)
unfolding attempt
attempts env q zero c = (err assertion, c)
attempts env q (suc left) c =
    let (rows, c') = attempt env q c in or_retry (nat_beq left 0) (attempts env q left) rows c'

-- `_map`
unfoldable pub map_index : Env → Request → Exec Catalog (List CatalogRow)
unfolding attempts
map_index env q c = if is_empty q.items then (ok [], c) else attempts env q retries c

unfoldable pub record_many :
    Env → String → String → List (String × String) → Scope → Exec Catalog (List CatalogRow)
unfolding map_index
record_many env tenant provider items scope =
    map_index env
      (record { tenant = tenant; provider = provider; items = items; scope = scope; revive = true })

unfoldable pub ensure_many :
    Env → String → String → List (String × String) → Scope → Exec Catalog (List CatalogRow)
unfolding map_index
ensure_many env tenant provider items scope =
    map_index env (record {
      tenant = tenant;
      provider = provider;
      items = items;
      scope = scope;
      revive = false;
    })

-- `[row] = …`, which raises a `ValueError` unless there is one row
abbrev pub only_id : List CatalogRow → Result String
only_id [] = err value_error
only_id (row ∷ []) = ok row.gateway_id
only_id (row ∷ other ∷ rows) = err value_error

-- `record`
unfoldable pub record_one : Env → String → String → String → Scope → String → Exec Catalog String
unfolding record_many
record_one env tenant provider native scope content = do
  rows ← record_many env tenant provider ((native, content) ∷ []) scope
  lift (only_id rows)

abbrev pub first {ℓ} : {A : Type ℓ} → List A → Option A
first [] = none
first (x ∷ xs) = some x

unfoldable pub ensure :
    Env → String → String → String → Scope → String → Exec Catalog (Option CatalogRow)
unfolding ensure_many
ensure env tenant provider native scope content = do
  rows ← ensure_many env tenant provider ((native, content) ∷ []) scope
  pure (first rows)
