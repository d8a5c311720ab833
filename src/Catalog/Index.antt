-- ===== src/Catalog/Index.antt =====
-- The statements that `_map` of src/memgw/catalog.py makes on `memory_index`: look up, insert, revive.
use router_memory_services.Prelude.{
  ℕ, zero, suc, String, Bool, true, false, ◌&&◌, Option, none, some, List, [], ◌∷◌, ◌==◌, string_eq,
  select, length, take, drop, map, elem, is_empty, if◌then◌else◌,
}
use router_memory_services.Dict.{Dict, lookup, insert}
use router_memory_services.Types.{Scope}
use router_memory_services.Catalog.Schema.{IndexRow, CatalogRow, to_row, is_live, is_key}
use router_memory_services.Catalog.Store.{Env, Catalog, mint}

abbrev pub chunk_size : ℕ
chunk_size = 500

abbrev pub retries : ℕ
retries = 3

-- `_chunks`, on the number of elements as fuel
unfoldable pub chunks_from {ℓ} : {A : Type ℓ} → ℕ → ℕ → List A → List (List A)
chunks_from zero size values = []
chunks_from (suc fuel) size values =
    let rest = chunks_from fuel size (drop size values) in
    if is_empty values then [] else take size values ∷ rest

unfoldable pub chunks {ℓ} : {A : Type ℓ} → List A → List (List A)
unfolding chunks_from
chunks values = chunks_from (length values) chunk_size values

-- What `_find_by_native` says of a native id that it found: a row, or `_GONE`.
pub data Found : Type 0 where
  live : CatalogRow → Found
  gone : Found

abbrev pub found_of : IndexRow → Found
found_of row = if is_live row then live (to_row row) else gone

-- `for row in rows: found[row["native_id"]] = …`
unfoldable pub collect : List IndexRow → Dict String Found → Dict String Found
collect [] found = found
collect (row ∷ rows) found = collect rows (insert row.native_id (found_of row) found)

-- tenant_id = … AND provider = … AND native_id IN (…)
abbrev pub in_chunk : String → String → List String → IndexRow → Bool
in_chunk tenant provider chunk row =
    row.tenant_id == tenant && row.provider == provider && elem row.native_id chunk

unfoldable pub find_chunks :
    String → String → List (List String) → List IndexRow → Dict String Found → Dict String Found
unfolding collect
find_chunks tenant provider [] table found = found
find_chunks tenant provider (chunk ∷ rest) table found =
    find_chunks tenant provider rest table
      (collect (select (in_chunk tenant provider chunk) table) found)

-- `_find_by_native`
unfoldable pub find_by_native : String → String → List String → List IndexRow → Dict String Found
unfolding chunks find_chunks
find_by_native tenant provider natives table = find_chunks tenant provider (chunks natives) table []

-- The values of `_insert`: a new id for each missing item.
unfoldable pub new_values :
    Env → ℕ → String → String → Scope → List (String × String) → Catalog → List IndexRow × Catalog
unfolding mint
new_values env now tenant provider scope [] c = ([], c)
new_values env now tenant provider scope ((native, content) ∷ missing) c =
    let (id, c') = mint env "mg" c in
    let (values, c'') = new_values env now tenant provider scope missing c' in
    (
      record {
        gateway_id = id;
        tenant_id = tenant;
        provider = provider;
        native_id = native;
        subject = scope.subject;
        agent = scope.agent;
        session = scope.session;
        content_hash = env.sha256 content;
        created_at = now;
        updated_at = now;
        deleted_at = none;
      }
          ∷ values,
      c'',
    )

-- `if missing: … now = _now(); values = […]`
unfoldable pub missing_values :
    Env → String → String → Scope → List (String × String) → Catalog → List IndexRow × Catalog
unfolding new_values
missing_values env tenant provider scope missing c =
    if is_empty missing
    then ([], c)
    else new_values env (env.now c.ticks) tenant provider scope missing
        (record c { ticks = suc c.ticks })

-- What `_insert` returns.
unfoldable pub inserted : List IndexRow → Dict String Found → Dict String Found
inserted [] known = known
inserted (row ∷ rows) known = inserted rows (insert row.native_id (live (to_row row)) known)

abbrev pub or_blank : Option String → String
or_blank none = ""
or_blank (some s) = s

-- One `update` of `_revive`
abbrev pub revive_row : Env → ℕ → Scope → String → IndexRow → IndexRow
revive_row env now scope content row = record row {
  subject = scope.subject;
  agent = scope.agent;
  session = scope.session;
  content_hash = env.sha256 content;
  updated_at = now;
  deleted_at = none;
}

-- The rows after it.
unfoldable pub revive_one :
    Env → ℕ → String → String → Scope → String → String → List IndexRow → List IndexRow
revive_one env now tenant provider scope content native =
    map
      λ row. if is_key tenant provider native row then revive_row env now scope content row else row

-- `_revive`
unfoldable pub revive_all :
    Env
    → ℕ
    → String
    → String
    → Scope
    → Dict String String
    → List String
    → List IndexRow
    → List IndexRow
unfolding revive_one
revive_all env now tenant provider scope contents [] table = table
revive_all env now tenant provider scope contents (native ∷ natives) table =
    revive_all env now tenant provider scope contents natives
      (revive_one env now tenant provider scope (or_blank (lookup native contents)) native table)

-- `known.get(n, _GONE) is _GONE`
abbrev pub is_doomed : Option Found → Bool
is_doomed none = true
is_doomed (some gone) = true
is_doomed (some (live row)) = false

abbrev pub live_row : Option Found → Option CatalogRow
live_row none = none
live_row (some gone) = none
live_row (some (live row)) = some row

-- The list that `_map` returns.
unfoldable pub live_rows : Dict String Found → List String → List CatalogRow
live_rows known [] = []
live_rows known (native ∷ natives) =
    let rest = live_rows known natives in
    elim (live_row (lookup native known)) [ none ↦ rest | some row ↦ row ∷ rest ]
