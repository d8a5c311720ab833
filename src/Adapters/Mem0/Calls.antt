-- ===== src/Adapters/Mem0/Calls.antt =====
-- The operations of src/memgw/adapters/mem0.py, as an instance of the adapter interface. The client,
-- `AsyncMemory` of the mem0 package, is a parameter.
use router_memory_services.Prelude.{
  ℕ, zero, suc, ◌+◌, String, Bool, true, false, not, Option, none, some, List, [], ◌∷◌, ◌++◌, ◌==◌,
  map, length, take, is_empty, ltb, if◌then◌else◌,
}
use router_memory_services.Dict.{Dict}
use router_memory_services.Json.{Float, Json, null, obj, flag, num, text, arr}
use router_memory_services.Errors.{
  Exn, Result, ok, err, other, raise, unsupported_capability, provider_error,
}
use router_memory_services.Exec.{Exec, pure, lift, ◌>>=◌}
use router_memory_services.Types.{
  Scope, Episode, SearchQuery, ProviderMemory, HealthStatus, Message, semantic, mode_eq, role_name,
  as_text, tenant_dim, subject_dim, agent_dim, session_dim,
}
use router_memory_services.Capabilities.{Capabilities, flat_facts, provider_dedup, eventual}
use router_memory_services.Adapter.{Adapter}
use router_memory_services.Adapters.Mem0.Names.{build_filters, write_ids}
use router_memory_services.Adapters.Mem0.Items.{Reader, to_memory, to_memories, truthy}

pub record Client (P : Type 0) : Type 0 where
  pub add :
      List (String × String) → Option (Dict String String) → Bool → Dict String String → Exec P Json
  pub update : String → String → Exec P (Unit {0})
  pub search : String → ℕ → Dict String String → Float → Exec P Json
  pub get_all : Dict String String → ℕ → Exec P Json
  pub get : String → Exec P Json
  pub delete : String → Exec P (Unit {0})

-- `PAGE`
abbrev pub page_size : ℕ
page_size = 1000

unfoldable pub capabilities : Capabilities
capabilities = record {
  supports_ingest = true;
  supports_upsert = true;
  supports_update = true;
  supports_delete = true;
  supports_delete_by_scope = true;
  supports_list = true;
  search_modes = semantic ∷ [];
  supports_score = true;
  max_limit = 100;
  scope_dims = tenant_dim ∷ subject_dim ∷ agent_dim ∷ session_dim ∷ [];
  supports_labels = true;
  memory_model = flat_facts;
  dedup = provider_dedup;
  supports_export = false;
  supports_import = true;
  consistency = eventual;
  experimental = false;
  metered_externally = true;
}

abbrev pub to_health : (Exn → String) → Result Json → HealthStatus
to_health cause (ok raw) = record { ok = true; detail = none }
to_health cause (err e) = record { ok = false; detail = some (cause e) }

-- The messages of an episode, when it has any
abbrev pub messages_of : Episode → List (String × String)
messages_of episode = elim episode.messages [
  | none ↦ ("user", as_text episode) ∷ []
  | some messages ↦
      if is_empty messages
      then ("user", as_text episode) ∷ []
      else map (λ (m : Message). (role_name m.role, m.content)) messages
]

-- dict(scope.labels) or None
abbrev pub metadata_of : Scope → Option (Dict String String)
metadata_of scope = if is_empty scope.labels then none else some scope.labels

abbrev pub or_lost : Option ProviderMemory → Result ProviderMemory
or_lost none = raise provider_error
or_lost (some memory) = ok memory

-- `get`, of what the client answers; an answer that is no dictionary has no `get`.
abbrev pub to_found : Reader → Json → Result (Option ProviderMemory)
to_found r (obj fields) =
    if truthy r (obj fields)
    then elim (to_memory r fields) [ ok memory ↦ ok (some memory) | err e ↦ err e ]
    else ok none
to_found r null = ok none
to_found r (flag b) = if b then err (other "AttributeError") else ok none
to_found r (num x) = if r.nonzero x then err (other "AttributeError") else ok none
to_found r (text s) = if truthy r (text s) then err (other "AttributeError") else ok none
to_found r (arr items) = if truthy r (arr items) then err (other "AttributeError") else ok none

-- query.min_score if … is not None else 0.0
abbrev pub threshold : Option Float → Float
threshold none = record { bits = 0 }
threshold (some score) = score

module _ {P : Type 0} (c : Client P) (r : Reader) (cause : Exn → String) where
  unfoldable pub health : Exec P HealthStatus
  health s =
      let outcome = c.get_all (("user_id", "__memgw_health__") ∷ []) 1 s in
      (ok (to_health cause outcome.0), outcome.1)

  unfoldable pub ingest : Episode → Scope → Exec P (List ProviderMemory)
  unfolding to_memories write_ids
  ingest episode scope = do
    raw ← c.add (messages_of episode) (metadata_of scope) true (write_ids scope)
    lift (to_memories r raw)

  unfoldable pub upsert : List String → Scope → Exec P (List ProviderMemory)
  unfolding to_memories write_ids
  upsert [] scope = pure []
  upsert (fact ∷ facts) scope = do
    raw ← c.add (("user", fact) ∷ []) (metadata_of scope) false (write_ids scope)
    memories ← lift (to_memories r raw)
    rest ← upsert facts scope
    pure (memories ++ rest)

  unfoldable pub get : String → Exec P (Option ProviderMemory)
  get id = do raw ← c.get id; lift (to_found r raw)

  unfoldable pub update : String → String → Exec P ProviderMemory
  unfolding get
  update id content = do _ ← c.update id content; got ← get id; lift (or_lost got)

  unfoldable pub search : SearchQuery → Scope → Exec P (List ProviderMemory)
  unfolding to_memories build_filters
  search query scope =
      if not (query.mode == semantic) then lift (raise unsupported_capability) else do
        raw ← c.search query.query query.limit (build_filters scope) (threshold query.min_score)
        lift (to_memories r raw)

  unfoldable pub delete : String → Exec P Bool
  delete id = do _ ← c.delete id; pure true

  -- for memory in page: …
  unfoldable pub delete_each : List ProviderMemory → Exec P (Unit {0})
  delete_each [] = pure tt
  delete_each (memory ∷ page) = do _ ← c.delete memory.native_id; delete_each page

  -- The loop of `delete_scope`, on fuel; `removed` is the count so far.
  unfoldable pub delete_pages : ℕ → ℕ → Scope → Exec P ℕ
  unfolding to_memories build_filters delete_each
  delete_pages zero removed scope = lift (err (other "out of fuel"))
  delete_pages (suc fuel) removed scope = do
    raw ← c.get_all (build_filters scope) page_size
    page ← lift (to_memories r raw)
    if is_empty page then pure removed else do
      _ ← delete_each page
      λ s.
          let next = delete_pages fuel (removed + length page) scope s in
          if ltb (length page) page_size then (ok (removed + length page), s) else next

  unfoldable pub list_scope : Scope → ℕ → Exec P (List ProviderMemory)
  unfolding to_memories build_filters
  list_scope scope limit = do
    raw ← c.get_all (build_filters scope) limit
    memories ← lift (to_memories r raw)
    pure (take limit memories)

  -- The adapter, whose `delete_scope` runs for as many pages as the fuel allows
  unfoldable pub mem0 : ℕ → Adapter P
  unfolding capabilities
  mem0 fuel = record {
    capabilities = capabilities;
    health = health;
    ingest = ingest;
    upsert = upsert;
    search = search;
    list_scope = some list_scope;
    get = get;
    update = update;
    delete = delete;
    delete_scope = delete_pages fuel 0;
  }
