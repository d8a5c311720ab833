-- ===== src/Tests/OfAdapters.antt =====
-- Runs of the models of src/memgw/adapters/mem0.py, zep.py and __init__.py.
use router_memory_services.Prelude.{
  ℕ, String, ◌≡◌, refl, true, false, Option, none, some, List, [], ◌∷◌, ◌==◌, string_eq, elem, map,
  take, leb, arith, if◌then◌else◌, ◌↔◌, is_empty,
}
use router_memory_services.Dict.{Dict}
use router_memory_services.Json.{
  Json, null, flag, num, text, arr, obj, Items, nil, cons, end, field,
}
use router_memory_services.Errors.{ok, err, other, gateway, with_code, invalid_request}
use router_memory_services.Embedding.{get_field}
use router_memory_services.Types.{Scope, ProviderMemory, HealthStatus, under}
use router_memory_services.Adapters.Mem0.Names.{user_id}
use router_memory_services.Adapters.Mem0.Items.{Reader}
use router_memory_services.Adapters.Mem0.Calls
use router_memory_services.Adapters.Mem0.Naming.{user_id-injective}
use router_memory_services.Adapters.Zep.Edges.{zep_user_id}
use router_memory_services.Adapters.Zep.Calls.{Client, Zep, upsert, ensure_user}
use router_memory_services.Adapters.Zep.Probe.{self_test, probe_of, self_test-reports}
use router_memory_services.Adapters.Zep.Users.{upsert-contents}
use router_memory_services.Adapters.Registry.{Registry, available, get, get-available}

abbrev ann : Scope
ann = record { subject = "ann"; agent = none; session = none; labels = []; tenant = none }

abbrev bot : Scope
bot = record ann { agent = some "bot" }

abbrev acme : String
acme = "acme"

user_id-injective_example : (acme ≡ acme) × (ann.subject ≡ bot.subject)
unfolding user_id under
user_id-injective_example = user_id-injective acme acme ann bot refl refl refl refl refl

abbrev text_of : Json → String
text_of (text s) = s
text_of null = "None"
text_of (flag b) = "flag"
text_of (num x) = "number"
text_of (arr items) = "list"
text_of (obj fields) = "dict"

abbrev reader : Reader
reader = record {
  str = text_of;
  nonzero = λ x. true;
  datetime = λ j. ok none;
  score = λ j. ok none;
}

-- A package that keeps the ids of memories, and lists them under every filter.
abbrev item : String → Json
item id = obj (field "id" (text id) (field "memory" (text "likes tea") end))

abbrev items : List String → Items
items [] = nil
items (id ∷ ids) = cons (item id) (items ids)

abbrev without : String → List String → List String
without id [] = []
without id (x ∷ ids) = if x == id then ids else x ∷ without id ids

abbrev backend : Calls.Client (List String)
backend = record {
  add = λ messages metadata infer ids s. (ok null, s);
  update = λ id content s. (ok tt, s);
  search = λ query limit filters threshold s. (ok null, s);
  get_all = λ filters n s. (ok (arr (items (take n s))), s);
  get = λ id s. (ok null, s);
  delete = λ id s. (ok tt, without id s);
}

abbrev kept : String → ProviderMemory
kept id = record {
  native_id = id;
  content = "likes tea";
  created_at = none;
  updated_at = none;
  valid_from = none;
  valid_to = none;
  score = none;
  raw = ("id", text id) ∷ ("memory", text "likes tea") ∷ [];
}

-- A service that accepts every episode and never processes one.
abbrev service : Client (Unit {0})
service = record {
  search = λ query user part limit s. (ok null, s);
  add = λ user fact s. (ok (obj (field "uuid_" (text "e1") end)), s);
  add_user = λ user s. (ok tt, s);
  delete_user = λ user s. (err (other "down"), s);
  edges_of_user = λ user limit s. (ok [], s);
  get_edge = λ id s. (ok null, s);
  delete_edge = λ id s. (ok tt, s);
  get_episode = λ id s. (ok null, s);
  status_code = λ e. none;
  says = λ part e. false;
  cause = λ e. "down";
  at_least = λ a b. true;
}

abbrev fresh : Zep (Unit {0})
fresh = record { service = tt; known = [] }

self_test-reports_example :
    ((status : HealthStatus) × ((self_test service reader (leb 2) 3 "0a1b" fresh).0 ≡ some status))
    × (elem
          (zep_user_id (probe_of "0a1b"))
          (self_test service reader (leb 2) 3 "0a1b" fresh).1.known
        ≡ false)
self_test-reports_example =
    self_test-reports service reader (leb 2) 2 3 "0a1b" fresh refl (omega arith)

abbrev facts : List String
facts = "likes tea" ∷ "has a cat" ∷ []

abbrev written : List ProviderMemory
written = (elim (upsert service reader facts ann fresh).0 [ ok ms ↦ ms | err e ↦ [] ])

upsert-contents_example :
    (map (λ (m : ProviderMemory). m.content) written ≡ facts)
    × (is_empty facts ≡ false
        → ensure_user service ann (upsert service reader facts ann fresh).1
          ≡ (ok (zep_user_id ann), (upsert service reader facts ann fresh).1))
unfolding upsert get_field
upsert-contents_example = upsert-contents service reader facts ann fresh written refl

-- Two of the three modules can be imported; each registers a number.
abbrev imports : String → Dict String ℕ → Option (Dict String ℕ)
imports name table =
    if name == "memgw.adapters.pgvector"
    then some (("pgvector", 1) ∷ table)
    else if name == "memgw.adapters.mem0"
    then some (("mem0", 2) ∷ table)
    else none

abbrev unloaded : Registry ℕ
unloaded = record { factories = []; loaded = false }

get-available_example :
    ((elem "mem0" (available imports unloaded).0 ≡ true)
      ↔ ((f : ℕ) × ((get imports "mem0" unloaded).0 ≡ ok f)))
    × ((elem "mem0" (available imports unloaded).0 ≡ false)
        → (get imports "mem0" unloaded).0
          ≡ err (gateway (with_code invalid_request "unknown_provider")))
    × (get imports "mem0" (available imports unloaded).1 ≡ get imports "mem0" unloaded)
get-available_example = get-available imports "mem0" unloaded
