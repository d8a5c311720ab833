-- ===== src/Tests/OfServer.antt =====
-- Runs of the model of src/memgw/server.
use router_memory_services.Prelude.{ℕ, String, ◌≡◌, refl, Option, none, some, [], ◌∷◌, string_eq}
use router_memory_services.Dict.{Dict, lookup, insert, merge}
use router_memory_services.Errors.{ok, raise, unauthenticated, tenant_mismatch, memory_not_found}
use router_memory_services.Exec.{Exec}
use router_memory_services.Ids.{Ids, new_id}
use router_memory_services.Types.{dims, under}
use router_memory_services.Degrade.{assert_scope_supported, assert_delete_supported, missing_dims}
use router_memory_services.Router.{resolve_provider}
use router_memory_services.Catalog.Mapping.{ensure_many}
use router_memory_services.Catalog.Rows.{mark_scope_deleted}
use router_memory_services.Catalog.Journal.{delete_journal}
use router_memory_services.Catalog.Bindings.{get_binding}
use router_memory_services.Core.Internals.{prepare, call, map_hits, by_native, read_hits}
use router_memory_services.Core.Writes.{delete_scope}
use router_memory_services.Core.Reads.{list_scope, lister}
use router_memory_services.Core.State.{fresh_start, adapter}
use router_memory_services.Server.Auth.{Principal, authenticate, assert_no_wider_tenant, by_digest}
use router_memory_services.Server.Credentials.{authenticate-lookup}
use router_memory_services.Server.Routes.{
  App, checked, Scoped, IngestIn, ListOut, DeleteScopeOut, ingest_route, upsert_route, list_route,
  search_route, delete_scope_route, update_route, rebind_route,
}
use router_memory_services.Server.Callers.{routes-other_tenant}
use router_memory_services.Json.{Json, null, text, end}
use router_memory_services.Observability.{Event, Trail, Meter, observe}
use router_memory_services.Observability.Trails.{Says}
use router_memory_services.Server.App.{Reply, Site, served, request_id_of}
use router_memory_services.Server.Audit.{IsAnswered, route, served-IsAnswered}
use router_memory_services.Tests.Samples.{core, Shelf, ann, query, started}

-- Every text is its own digest here.
abbrev own : String → String
own s = s

abbrev keys : Dict String String
keys = ("k1", "acme") ∷ ("k2", "other") ∷ []

authenticate-lookup_example :
    (authenticate own (by_digest own keys) none ≡ raise unauthenticated)
    × (authenticate own (by_digest own keys) (some "bEaRer k1")
        ≡ ok (record { tenant_id = "acme"; key_id = "k1" }))
unfolding authenticate by_digest lookup
authenticate-lookup_example = authenticate-lookup own keys "bEaRer k1" (refl, (refl, tt))

abbrev app : App Shelf
app = record { core = core; digests = keys; sha256 = own; cause = λ e. "down" }

abbrev header : Option String
header = some "Bearer k1"

abbrev acme : Principal
acme = record { tenant_id = "acme"; key_id = "k1" }

abbrev scoped : Scoped
scoped = record { scope = ann; provider = none; tenant = none }

abbrev spoken : IngestIn
spoken = record { scoped = scoped; messages = none; text = some "hello"; metadata = [] }

abbrev claimed : Scoped
claimed = record scoped { tenant = some "other" }

routes-other_tenant_example :
    (ingest_route app header (record spoken { scoped = claimed }) started
      ≡ (raise tenant_mismatch, started))
    × (upsert_route app header ("a" ∷ []) claimed started ≡ (raise tenant_mismatch, started))
    × (list_route app header 10 claimed started ≡ (raise tenant_mismatch, started))
    × (search_route app header query claimed started ≡ (raise tenant_mismatch, started))
    × (delete_scope_route app header claimed started ≡ (raise tenant_mismatch, started))
    × (update_route app header "mg_1" "x" (some "other") started ≡ (raise tenant_mismatch, started))
    × (rebind_route app header "ann" "tea" fresh_start (some "other") started
        ≡ (raise tenant_mismatch, started))
unfolding authenticate
routes-other_tenant_example =
    routes-other_tenant app header acme "other" started spoken ("a" ∷ []) 10 query scoped "mg_1" "x"
      "ann" "tea" fresh_start refl refl

listed : (out : ListOut) × ((list_route app header 10 scoped started).0 ≡ ok out)
unfolding list_route checked authenticate assert_no_wider_tenant list_scope lister prepare
    resolve_provider adapter assert_scope_supported missing_dims dims under call map_hits
    ensure_many by_native read_hits get_binding new_id lookup
listed = (_, refl)

erased : (out : DeleteScopeOut) × ((delete_scope_route app header scoped started).0 ≡ ok out)
unfolding delete_scope_route checked authenticate assert_no_wider_tenant delete_scope prepare
    resolve_provider adapter assert_scope_supported missing_dims dims under assert_delete_supported
    call mark_scope_deleted delete_journal get_binding
erased = (_, refl)

abbrev site : Site Ids
site = record {
  message = λ e. "no such memory";
  details = λ e. end;
  errors = [];
  clock = λ w. 1700000000000;
  random = λ w. 12345;
  ids = λ w. w;
  with_ids = λ new w. new;
}

abbrev meter : Meter Ids
meter = record {
  elapsed = λ before after. null;
  type_name = λ e. "KeyError";
  code_attr = λ e. null;
}

abbrev rendering : ℕ → Reply
rendering n = record { status_code = 200; body = null; headers = [] }

-- A verb that finds its provider, and no memory.
abbrev absent_memory : Exec (Ids × Dict String Json) ℕ
absent_memory (w, event) = (raise memory_not_found, (w, insert "provider" (text "tea") event))

abbrev quiet : Trail Ids
quiet = record { world = record { last_ms = 0; last_rand = 0 }; request_id = none; events = [] }

served-IsAnswered_example :
    (event : Event) × ((served site
        (some "r1")
        (route site rendering (observe meter "get" "acme" none [] absent_memory))
        quiet).1
      ≡ record quiet { events = event ∷ [] })
    × Says meter event (some "r1") (absent_memory (quiet.world, ("provider", null) ∷ [])).0
    × IsAnswered rendering "r1"
        (absent_memory (quiet.world, ("provider", null) ∷ [])).0
        (served site
          (some "r1")
          (route site rendering (observe meter "get" "acme" none [] absent_memory))
          quiet).0
unfolding request_id_of merge insert lookup
served-IsAnswered_example =
    served-IsAnswered site meter rendering "get" "acme" none [] absent_memory (some "r1") quiet refl
