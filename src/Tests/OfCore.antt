-- ===== src/Tests/OfCore.antt =====
-- Runs of the model of src/memgw/core.py, src/memgw/degrade.py and src/memgw/types.py.
use router_memory_services.Prelude.{
  ℕ, String, ◌≡◌, ◌⊎◌, refl, true, false, none, some, List, [], ◌∷◌, string_eq, elem, inl, inr,
  eq_iff, arith,
}
use router_memory_services.Ids.{new_id}
use router_memory_services.Router.{resolve_provider}
use router_memory_services.Catalog.Mapping.{record_many}
use router_memory_services.Catalog.Bindings.{bind}
use router_memory_services.Catalog.Journal.{journal}
use router_memory_services.Dict.{lookup}
use router_memory_services.Errors.{
  ok, raise, err, other, memory_not_found, Exn, provider_unhealthy, provider_error,
}
use router_memory_services.Types.{
  MemoryRecord, semantic, hybrid, degrade, under, dims, dim_eq, mode_eq,
}
use router_memory_services.Degrade.{
  resolve_mode, DegradeResult, missing_dims, assert_scope_supported, substitutions,
}
use router_memory_services.Degrade.Rules.{resolve_mode-served}
use router_memory_services.Catalog.Rows.{resolve_gateway_id}
use router_memory_services.Router.Resolution.{home}
use router_memory_services.Core.State.{Core, WriteResult, adapter}
use router_memory_services.Core.Internals.{prepare, records, call}
use router_memory_services.Core.Writes.{journal_if, ingest, upsert, update, delete, delete_scope}
use router_memory_services.Core.Reads.{search, list_scope, get}
use router_memory_services.Core.Writes
use router_memory_services.Core.Invariant.{writes-KeepsOthers}
use router_memory_services.Catalog.Others.{KeepsOthers}
use router_memory_services.Core.State.{fresh_start}
use router_memory_services.Core.Guard.{guarded_core}
use router_memory_services.Core.Tenancy.{scope_verbs-guarded}
use router_memory_services.Core.ById.{by_id-not_found, delete-outcome}
use router_memory_services.Core.Erasure.{Erased, delete_scope-outcome}
use router_memory_services.Core.Failing.{IsRefusal, IsDown, IsUp, no_answer, search-provider_raises}
use router_memory_services.Core.Outcome.{Outcome, ingest-Outcome}
use router_memory_services.Core.Reading.{IsRead, reads-IsRead}
use router_memory_services.Tests.Samples.{
  env, one_row, ann, core, core_of, broken, talk, query, blank_slate, started, memory, Shelf, caps,
}

abbrev over : Core Shelf
over = guarded_core "acme" core

scope_verbs-guarded_example :
    (ingest over "acme" talk ann none started ≡ ingest core "acme" talk ann none started)
    × (upsert over "acme" ("likes tea" ∷ []) ann none started
        ≡ upsert core "acme" ("likes tea" ∷ []) ann none started)
    × (search over "acme" query ann none started ≡ search core "acme" query ann none started)
    × (list_scope over "acme" ann 10 none started ≡ list_scope core "acme" ann 10 none started)
    × (delete_scope over "acme" ann none started ≡ delete_scope core "acme" ann none started)
scope_verbs-guarded_example =
    scope_verbs-guarded "acme" core talk ("likes tea" ∷ []) query 10 ann none started

ingested : (r : WriteResult) × ((ingest core "acme" talk ann none blank_slate).0 ≡ ok r)
unfolding ingest prepare resolve_provider adapter assert_scope_supported missing_dims dims under
    call records record_many bind journal_if journal
ingested = (_, refl)

ingest-Outcome_example :
    Outcome "acme" "ann" ingested.0 blank_slate (ingest core "acme" talk ann none blank_slate).1
ingest-Outcome_example =
    ingest-Outcome core "acme" ann none blank_slate tt ingested.0 talk ingested.1

abbrev facts : List String
facts = "a" ∷ "b" ∷ []

upserted : (r : WriteResult) × ((upsert core "acme" facts ann none blank_slate).0 ≡ ok r)
unfolding upsert prepare resolve_provider adapter assert_scope_supported missing_dims dims under
    call records record_many new_id bind
upserted = (_, refl)

delete_scope-outcome_example :
    ((e : Exn) × ((delete_scope core "acme" ann none started).0 ≡ err e)
      × ((delete_scope core "acme" ann none started).1.catalog ≡ one_row))
    ⊎ ((name : String) × (removed : ℕ) × ((delete_scope core "acme" ann none started).0
          ≡ ok removed)
        × (home "acme" "ann" (some "tea") one_row ≡ some name)
        × Erased "acme" ann name started (delete_scope core "acme" ann none started).1)
delete_scope-outcome_example = delete_scope-outcome core "acme" ann none started

delete-outcome_example :
    ((e : Exn) × ((delete core "acme" "mg_1" started).0 ≡ err e)
      × ((delete core "acme" "mg_1" started).1.catalog ≡ one_row))
    ⊎ (((delete core "acme" "mg_1" started).0 ≡ ok tt)
        × ((resolve_gateway_id "acme" "mg_1" (delete core "acme" "mg_1" started).1.catalog).0
            ≡ ok none))
delete-outcome_example = delete-outcome core "acme" "mg_1" started "acme" "mg_1"

-- Another tenant's id is not found.
by_id-not_found_example :
    (get core "other" "mg_1" started ≡ (raise memory_not_found, started))
    × (update core "other" "mg_1" "x" started ≡ (raise memory_not_found, started))
    × (delete core "other" "mg_1" started ≡ (raise memory_not_found, started))
by_id-not_found_example =
    by_id-not_found core "other" "mg_1" started "x"
      (inr (inl (λ e. absurd (ground (arith, eq_iff "acme" "other", e)))), tt)

reads-IsRead_example :
    IsRead one_row (search core "acme" query ann none started).1.catalog
    × IsRead one_row (list_scope core "acme" ann 10 none started).1.catalog
reads-IsRead_example = reads-IsRead core "acme" started (refl, tt) query ann 10 none

search-provider_raises_example :
    let out = search (core_of broken) "acme" query ann none started in
    ((IsRefusal (other "timeout") × (out.0 ≡ err (other "timeout")))
      ⊎ ((¬ IsRefusal (other "timeout"))
          × (query.fail_open ≡ true)
          × (out.0 ≡ ok (no_answer "tea")))
      ⊎ ((¬ IsRefusal (other "timeout"))
          × (query.fail_open ≡ false)
          × IsDown (broken.health started.store).0
          × (out.0 ≡ raise provider_unhealthy))
      ⊎ ((¬ IsRefusal (other "timeout"))
          × (query.fail_open ≡ false)
          × IsUp (broken.health started.store).0
          × (out.0 ≡ raise provider_error)))
    × (out.1.catalog ≡ one_row)
unfolding prepare resolve_provider adapter assert_scope_supported missing_dims dims under
    resolve_mode
search-provider_raises_example =
    search-provider_raises (core_of broken) "acme" query ann none started "tea" broken
      (under "acme" ann) _ (other "timeout") refl refl refl refl

recorded :
    (rs : List MemoryRecord) × ((records env "acme" "tea"
        (memory "n1" ∷ memory "n2" ∷ [])
        ann
        started).0
      ≡ ok rs)
unfolding records record_many lookup new_id
recorded = (_, refl)

-- Hybrid search is served as semantic search.
abbrev substituted : DegradeResult
substituted = record { served = semantic; degraded = true; lost = "keyword_match" ∷ [] }

resolve_mode-served_example :
    (elem semantic caps.search_modes ≡ true)
    × (((substituted.degraded ≡ false) × (semantic ≡ hybrid) × (substituted.lost ≡ []))
        ⊎ ((substituted.degraded ≡ true)
            × (degrade ≡ degrade)
            × (elem hybrid caps.search_modes ≡ false)
            × (lookup hybrid substitutions ≡ some (semantic, substituted.lost))))
unfolding resolve_mode
resolve_mode-served_example = resolve_mode-served hybrid caps degrade substituted refl

writes-KeepsOthers_example :
    KeepsOthers "acme" one_row (ingest core "acme" talk ann none started).1.catalog
    × KeepsOthers "acme" one_row (upsert core "acme" facts ann none started).1.catalog
    × KeepsOthers "acme" one_row (update core "acme" "mg_1" "x" started).1.catalog
    × KeepsOthers "acme" one_row (delete core "acme" "mg_1" started).1.catalog
    × KeepsOthers "acme" one_row (delete_scope core "acme" ann none started).1.catalog
    × KeepsOthers "acme" one_row
        (Writes.rebind core "acme" "ann" "tea" fresh_start started).1.catalog
writes-KeepsOthers_example =
    writes-KeepsOthers core "acme" talk facts ann none "mg_1" "x" "ann" "tea" fresh_start started
      (λ t. refl) (refl, tt)
