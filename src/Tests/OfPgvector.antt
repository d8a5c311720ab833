-- ===== src/Tests/OfPgvector.antt =====
-- Runs of the model of src/memgw/adapters/pgvector.py, alone and behind the core.
use router_memory_services.Prelude.{
  ℕ, ◌+◌, ◌-◌, ◌*◌, str_leb, string_eq, option_eq, ◌≤◌, String, ◌≡◌, refl, true, false, not, none,
  some, List, [], ◌∷◌, ltb, nat_beq, map, All, length, arith, select,
}
use router_memory_services.Json.{Float}
use router_memory_services.Errors.{ok, err, integrity, raise, memory_not_found}
use router_memory_services.Types.{
  Scope, SearchQuery, MemoryRecord, ProviderMemory, semantic, reject,
}
use router_memory_services.Catalog.Store.{empty_catalog}
use router_memory_services.Core.State.{Core, World, SearchResult}
use router_memory_services.Core.Reads
use router_memory_services.Embedding.{Floats, cosine}
use router_memory_services.Adapters.Pgvector.Table.{Row, Store, Host, insert_all, conditions}
use router_memory_services.Adapters.Pgvector.Writes.{upsert, update, find_row, get}
use router_memory_services.Adapters.Pgvector.Reads.{
  search, search_in_python, search_in_sql, rows_in_scope,
}
use router_memory_services.Adapters.Pgvector.Erasing.{delete, delete_scope}
use router_memory_services.Adapters.Pgvector.Instance.{pgvector}
use router_memory_services.Adapters.Pgvector.Keys.{IsKeyed}
use router_memory_services.Adapters.Pgvector.Erasure.{belongs, delete_scope-erases}
use router_memory_services.Adapters.Pgvector.Scoping.{IsHit, search-IsHeld}
use router_memory_services.Adapters.Pgvector.Served.{IsOwn, reads-IsOwn}
use router_memory_services.Adapters.Pgvector.Storing.{IsUpserted, upsert-IsUpserted}
use router_memory_services.Adapters.Pgvector.Updating.{IsUpdated, update-IsUpdated}
use router_memory_services.Adapters.Pgvector.Ranking.{
  IsBest, candidates, search_in_python-IsBest, search_in_sql-IsBest,
}
use router_memory_services.Adapters.Pgvector.Deleting.{is_found, delete-get}
use router_memory_services.Ids.{new_id}
use router_memory_services.Tests.Samples.{env}

abbrev float : ℕ → Float
float n = record { bits = n }

abbrev total : List Float → ℕ
total [] = 0
total (x ∷ xs) = x.bits + total xs

-- Whole numbers in place of floating-point numbers; a cosine is then the product of the vectors.
abbrev whole : Floats
whole = record {
  zero = float 0;
  mul = λ x y. float (x.bits * y.bits);
  div = λ x y. x;
  sqrt = λ x. x;
  sum = λ xs. float (total xs);
  eq = λ x y. nat_beq x.bits y.bits;
  less = λ x y. ltb x.bits y.bits;
}

abbrev host : Host
host = record {
  embed = λ t texts. ok (map (λ text. float 2 ∷ []) texts);
  dimension = 1;
  extract = some λ t episode. ok ("likes tea" ∷ []);
  native_vectors = false;
  now = λ t. t;
  clock_ms = λ t. t;
  randbits = λ t. t;
  others = λ t ids. ids;
  refuses = λ row. none;
  no_rows = integrity;
  ping = λ t. ok tt;
  cause = λ e. "down";
  floats = whole;
  distance = λ e needle. float 0;
  one_minus = λ d. d;
  nearer = λ a b. true;
  scans = λ a b. true;
}

abbrev row : String → String → String → ℕ → Row
row id tenant content weight = record {
  native_id = id;
  tenant = some tenant;
  subject = "ann";
  agent = none;
  session = none;
  labels = [];
  content = content;
  embedding = float weight ∷ [];
  created_at = 0;
  updated_at = 0;
}

abbrev store : Store
store = record {
  rows =
      row "pv_1" "acme" "likes tea" 1
      ∷ row "pv_2" "rival" "likes rum" 5
      ∷ record (row "pv_3" "acme" "has a cat" 3) { labels = ("kind", "work") ∷ [] }
      ∷ [];
  ids = record { last_ms = 0; last_rand = 0 };
  ticks = 0;
}

store-IsKeyed : IsKeyed store.rows
store-IsKeyed = (refl, (refl, (refl, tt)))

abbrev ann : Scope
ann = record { subject = "ann"; agent = none; session = none; labels = []; tenant = some "acme" }

abbrev work : Scope
work = record ann { labels = ("kind", "work") ∷ [] }

abbrev query : SearchQuery
query = record {
  query = "tea";
  mode = semantic;
  limit = 1;
  min_score = some (float 1);
  as_of = none;
  on_unsupported = reject;
  fail_open = false;
}

abbrev found : List ProviderMemory
found = (elim (search host query ann store).0 [ ok ms ↦ ms | err e ↦ [] ])

search-IsHeld_example :
    All (IsHit host query ann store.rows) found
    × (length found ≤ 1)
    × ((search host query ann store).1.rows ≡ store.rows)
unfolding search search_in_python
search-IsHeld_example = search-IsHeld host query ann store found refl

delete_scope-erases_example : delete_scope work store ≡ (
  ok (length (select (belongs work) store.rows)),
  record store { rows = select (λ row. not (belongs work row)) store.rows },
)
delete_scope-erases_example = delete_scope-erases work store store-IsKeyed

abbrev gateway_core : Core Store
gateway_core = record {
  env = env;
  providers = ("pgvector", pgvector host) ∷ [];
  default_provider = some "pgvector";
  journal_enabled = false;
}

abbrev world : World Store
world = record { catalog = empty_catalog; store = store }

reads-IsOwn_example :
    ((q : SearchQuery) (result : SearchResult)
      → (Reads.search gateway_core "acme" q ann none world).0 ≡ ok result
      → All (λ out. IsOwn "acme" "ann" store.rows out.native_id out.content) result.results)
    × ((limit : ℕ) (records : List MemoryRecord)
        → (Reads.list_scope gateway_core "acme" ann limit none world).0 ≡ ok records
        → All (λ out. IsOwn "acme" "ann" store.rows out.native_id out.content) records)
reads-IsOwn_example = reads-IsOwn gateway_core "acme" ann none world ((host, refl), tt) refl

abbrev added : List ProviderMemory
added = (elim (upsert host ("has a dog" ∷ "has a cat" ∷ []) ann store).0 [
  | ok ms ↦ ms
  | err e ↦ []
])

upsert-IsUpserted_example :
    IsUpserted host
      ("has a dog" ∷ "has a cat" ∷ [])
      ann
      store
      (upsert host ("has a dog" ∷ "has a cat" ∷ []) ann store).1
      added
unfolding upsert insert_all new_id
upsert-IsUpserted_example =
    upsert-IsUpserted host ("has a dog" ∷ "has a cat" ∷ []) ann store added refl

update-IsUpdated_example :
    ((memory : ProviderMemory)
      → (update host "pv_9" "likes milk" store).0 ≡ ok memory
      → IsUpdated "pv_9" "likes milk" store (update host "pv_9" "likes milk" store).1 memory)
    × ((vector : List Float)
        → host.embed 0 ("likes milk" ∷ []) ≡ ok (vector ∷ [])
        → find_row "pv_9" store.rows ≡ none
        → ((update host "pv_9" "likes milk" store).0 ≡ raise memory_not_found)
          × ((update host "pv_9" "likes milk" store).1.rows ≡ store.rows))
update-IsUpdated_example = update-IsUpdated host "pv_9" "likes milk" store

search_in_python-IsBest_example :
    IsBest whole.less query.limit
      (candidates host query
        (λ row. cosine whole (float 1 ∷ []) row.embedding)
        (rows_in_scope ann false none store.rows))
      (search_in_python host query ann (float 1 ∷ []) store.rows)
search_in_python-IsBest_example =
    search_in_python-IsBest host query ann (float 1 ∷ []) (λ a b h. ground arith)
      (λ a b c p q. ground arith) store.rows

-- A database that measures by the weight, and comes upon the rows by their native ids.
abbrev database : Host
database = record host {
  distance = λ e needle. float (total e);
  one_minus = λ d. float (100 - d.bits);
  nearer = λ a b. not (ltb b.bits a.bits);
  scans = λ a b. str_leb a.native_id b.native_id;
}

search_in_sql-IsBest_example :
    IsBest whole.less query.limit
      (candidates database query
        (λ row. float (100 - total row.embedding))
        (select (conditions ann) store.rows))
      (search_in_sql database query ann (float 1 ∷ []) store.rows)
search_in_sql-IsBest_example =
    search_in_sql-IsBest database query ann (float 1 ∷ []) (λ a b h. ground arith)
      (λ a b c p q. ground arith) (λ a b p. ground arith) store.rows

delete-get_example :
    ((delete "pv_1" store).0 ≡ ok (is_found (find_row "pv_1" store.rows)))
    × ((get "pv_2" (delete "pv_1" store).1).0 ≡ (get "pv_2" store).0)
    × ((delete "pv_1" (delete "pv_1" store).1).0 ≡ ok false)
delete-get_example = delete-get "pv_1" "pv_2" store
