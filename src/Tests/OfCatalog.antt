-- ===== src/Tests/OfCatalog.antt =====
-- Runs of the model of src/memgw/catalog.py and src/memgw/router.py.
use router_memory_services.Prelude.{
  zero, suc, String, ◌≡◌, ◌↔◌, ◌⊎◌, refl, true, Option, none, some, List, [], ◌∷◌, string_eq, map,
}
use router_memory_services.Dict.{lookup, insert}
use router_memory_services.Errors.{ok, err, integrity}
use router_memory_services.Ids.{new_id}
use router_memory_services.Catalog.Schema.{CatalogRow, to_row, insert_index}
use router_memory_services.Catalog.Lifecycle.{Alembic, IsAlembic, has_no_tables}
use router_memory_services.Catalog.Store.{Env, Catalog}
use router_memory_services.Catalog.Index.{live, find_by_native, missing_values}
use router_memory_services.Catalog.Bindings.{get_binding, bind, rebind, bound_to}
use router_memory_services.Catalog.BindingLaws.{bind-get_binding, rebind-moves}
use router_memory_services.Catalog.Journal.{journal_rows, delete_journal}
use router_memory_services.Catalog.JournalLaws.{delete_journal-erases}
use router_memory_services.Catalog.Lookup.{stored, lookup-find_by_native}
use router_memory_services.Catalog.Mapping.{map_index, Request, attempt}
use router_memory_services.Catalog.MapState.{map_index-others, rows_of_others}
use router_memory_services.Catalog.Resolve.{map_index-natives}
use router_memory_services.Catalog.MapReturns.{
  map_index-returns, map_index-after_race, map_index-repeats,
}
use router_memory_services.Router.{resolve_provider}
use router_memory_services.Router.Resolution.{home, resolve_provider-home}
use router_memory_services.Tests.Samples.{env, one_row, row_of, asking, ann}

-- Asked for "n1", which is stored, and "n2", which is new.
abbrev both : Request
both = asking true ("n1" ∷ "n2" ∷ [])

both-answered : (rows : List CatalogRow) × ((map_index env both one_row).0 ≡ ok rows)
unfolding map_index lookup new_id
both-answered = (_, refl)

abbrev after_both : Catalog
after_both = (map_index env both one_row).1

map_index-natives_example :
    map (λ (row : CatalogRow). row.native_id) both-answered.0 ≡ "n1" ∷ "n2" ∷ []
map_index-natives_example =
    map_index-natives env both one_row both-answered.0 refl (refl, tt) both-answered.1

map_index-returns_example : (rows : List CatalogRow) × ((map_index env both one_row).0 ≡ ok rows)
unfolding find_by_native new_id lookup missing_values insert
map_index-returns_example =
    map_index-returns env both one_row (λ t. refl) (refl, (refl, tt)) (refl, tt)

-- Another process stores "n2" between the lookup and the insertion of the first pass.
abbrev racing : Env
racing = record env { rivals = λ t. elim t [ zero ↦ row_of "mg_9" "n2" ∷ [] | suc n ↦ [] ] }

map_index-after_race_example :
    let again = attempt racing both (attempt racing both one_row).1 in
    (rows : List CatalogRow) × (again.0 ≡ some rows)
    × (map_index racing both one_row ≡ (ok rows, again.1))
unfolding find_by_native new_id lookup insert_index attempt
map_index-after_race_example =
    map_index-after_race racing both one_row refl refl (refl, (refl, tt)) tt

-- One new native id, twice.
abbrev twice : Request
twice = asking true ("n2" ∷ "n2" ∷ [])

map_index-repeats_example :
    ((map_index env twice one_row).0 ≡ err integrity)
    × ((map_index env twice one_row).1.index ≡ one_row.index)
unfolding stored
map_index-repeats_example = map_index-repeats env twice one_row "n2" (λ t. refl) refl refl

map_index-others_example :
    rows_of_others "acme" "tea" (map_index env both one_row).1.index
    ≡ rows_of_others "acme" "tea" one_row.index
map_index-others_example = map_index-others env both one_row (λ t. refl)

lookup-find_by_native_example :
    lookup "n1" (find_by_native "acme" "tea" ("n2" ∷ "n1" ∷ []) one_row.index)
    ≡ some (live (to_row (row_of "mg_1" "n1")))
unfolding stored
lookup-find_by_native_example =
    lookup-find_by_native "acme" "tea" "n1" ("n2" ∷ "n1" ∷ []) one_row.index

bind-get_binding_example :
    (get_binding "acme" "ann" (bind env "acme" "ann" "milk" one_row).1).0 ≡ ok (some "tea")
unfolding bound_to
bind-get_binding_example = bind-get_binding env "acme" "ann" "milk" "acme" "ann" one_row

rebind-moves_example :
    let c' = (rebind env "acme" "ann" "milk" one_row).1 in
    ((rebind env "acme" "ann" "milk" one_row).0
      ≡ ok (record { provider = "milk"; orphaned_at = some "tea"; orphaned_count = 1 }))
    × ((get_binding "acme" "ann" c').0 ≡ ok (some "milk"))
    × (c'.index ≡ one_row.index)
    × (c'.episodes ≡ one_row.episodes)
unfolding bound_to
rebind-moves_example = rebind-moves env "acme" "ann" "milk" "acme" "ann" one_row

delete_journal-erases_example :
    ((journal_rows "acme" "ann" (delete_journal "acme" ann one_row).1).0 ≡ ok [])
    × ((delete_journal "acme" ann one_row).1.index ≡ one_row.index)
    × ((delete_journal "acme" ann one_row).1.bindings ≡ one_row.bindings)
delete_journal-erases_example = delete_journal-erases "acme" "acme" "ann" ann one_row refl refl

abbrev no_assertion : Option String
no_assertion = none

resolve_provider-home_example :
    ((resolve_provider "acme" "ann" none none one_row).1 ≡ one_row)
    × (((resolve_provider "acme" "ann" none none one_row).0 ≡ ok "tea") ↔ (
        (home "acme" "ann" none one_row ≡ some "tea")
        × ((no_assertion ≡ none) ⊎ (no_assertion ≡ some "tea"))))
resolve_provider-home_example = resolve_provider-home "acme" "ann" none none one_row "tea"

-- A database as the names of its tables and the recorded revision.
abbrev Tables : Type 0
Tables = List String × Option String

abbrev sqlite : Alembic Tables
sqlite = record {
  table_names = λ d. d.0;
  revision = λ d. d.1;
  head = "0001";
  create_all = λ d. ("memory_index" ∷ d.0, d.1);
  stamp = λ d. ("alembic_version" ∷ d.0, some "0001");
  migrate = λ d. (d.0, some "0001");
}

sqlite-IsAlembic : IsAlembic sqlite
unfolding has_no_tables
sqlite-IsAlembic = record {
  stamps = λ d. refl;
  keeps_tables = λ d. refl;
  creates = λ d. refl;
  migrates = λ d. refl;
}
