-- ===== src/Adapters/Zep/Calls.antt =====
-- The operations of src/memgw/adapters/zep.py, as an instance of the adapter interface. The client,
-- `AsyncZep` of the zep_cloud package, is a parameter.
use router_memory_services.Prelude.{
  ℕ, min, String, Bool, true, false, not, ◌||◌, Option, none, some, List, [], ◌∷◌, ◌++◌, ◌==◌,
  string_eq, option_eq, nat_eq, elem, length, select, if◌then◌else◌,
}
use router_memory_services.Json.{Float, Json, null}
use router_memory_services.Errors.{
  Exn, Result, ok, err, raise, unsupported_capability, provider_error,
}
use router_memory_services.Exec.{Exec, pure, lift, ◌>>=◌}
use router_memory_services.Types.{
  Scope, Episode, SearchQuery, SearchMode, ProviderMemory, HealthStatus, semantic, graph, temporal,
  mode_eq, as_text, tenant_dim, subject_dim,
}
use router_memory_services.Capabilities.{Capabilities, temporal_graph, provider_dedup, eventual}
use router_memory_services.Adapter.{Adapter}
use router_memory_services.Adapters.Mem0.Items.{Reader, truthy, or_else}
use router_memory_services.Adapters.Zep.Edges.{
  zep_user_id, attr, as_dict, to_memory, read_edges, to_memories,
}

-- The calls of the client; what its exceptions carry as `status_code`; whether a text stands in
-- `str(exc).lower()`; the text of an exception; and `>=` on scores.
pub record Client (P : Type 0) : Type 0 where
  pub search : String → String → Option String → ℕ → Exec P Json
  pub add : String → String → Exec P Json
  pub add_user : String → Exec P (Unit {0})
  pub delete_user : String → Exec P (Unit {0})
  pub edges_of_user : String → ℕ → Exec P (List Json)
  pub get_edge : String → Exec P Json
  pub delete_edge : String → Exec P (Unit {0})
  pub get_episode : String → Exec P Json
  pub status_code : Exn → Option ℕ
  pub says : String → Exn → Bool
  pub cause : Exn → String
  pub at_least : Float → Float → Bool

-- The service, and `_known_users`.
pub record Zep (P : Type 0) : Type 0 where
  pub service : P
  pub known : List String

-- `MODES`
abbrev pub modes : List SearchMode
modes = semantic ∷ graph ∷ temporal ∷ []

unfoldable pub capabilities : Capabilities
capabilities = record {
  supports_ingest = true;
  supports_upsert = true;
  supports_update = false;
  supports_delete = true;
  supports_delete_by_scope = true;
  supports_list = true;
  search_modes = modes;
  supports_score = true;
  max_limit = 50;
  scope_dims = tenant_dim ∷ subject_dim ∷ [];
  supports_labels = false;
  memory_model = temporal_graph;
  dedup = provider_dedup;
  supports_export = false;
  supports_import = true;
  consistency = eventual;
  experimental = true;
  metered_externally = true;
}

module _ {P : Type 0} (c : Client P) where
  -- `_is_not_found`
  abbrev pub is_not_found : Exn → Bool
  is_not_found e = c.status_code e == some 404 || c.says "not found" e

  -- `_is_conflict`
  abbrev pub is_conflict : Exn → Bool
  is_conflict e = c.status_code e == some 400 || c.status_code e == some 409 || c.says "exist" e

  -- A call of the service
  abbrev pub at_service {ℓ} : {A : Type ℓ} → Exec P A → Exec (Zep P) A
  at_service m z = ((m z.service).0, record z { service = (m z.service).1 })

  abbrev pub to_health : Result Json → HealthStatus
  to_health (ok raw) = record { ok = true; detail = none }
  to_health (err e) =
      if is_not_found e
      then record { ok = true; detail = none }
      else record { ok = false; detail = some (c.cause e) }

  unfoldable pub health : Exec (Zep P) HealthStatus
  health z =
      let outcome = at_service (c.search "__memgw_health__" "__memgw__" none 1) z in
      (ok (to_health outcome.0), outcome.1)

  -- What `_ensure_user` makes of the outcome of `user.add`
  abbrev pub remember : String → Result (Unit {0}) → Exec (Zep P) String
  remember id (ok u) z = (ok id, record z { known = id ∷ z.known })
  remember id (err e) z =
      if is_conflict e then (ok id, record z { known = id ∷ z.known }) else (err e, z)

  -- `_ensure_user`
  unfoldable pub ensure_user : Scope → Exec (Zep P) String
  unfolding zep_user_id
  ensure_user scope z =
      let id = zep_user_id scope in
      if elem id z.known
      then (ok id, z)
      else let outcome = at_service (c.add_user id) z in remember id outcome.0 outcome.1

module _ {P : Type 0} (c : Client P) (r : Reader) where
  abbrev pub added : String → Json → Result (List ProviderMemory)
  added fact raw =
      let id = or_else r (attr raw "uuid_") (attr raw "uuid") in
      if truthy r id
      then ok (
          record {
            native_id = r.str id;
            content = fact;
            created_at = none;
            updated_at = none;
            valid_from = none;
            valid_to = none;
            score = none;
            raw = as_dict raw;
          }
          ∷ [])
      else raise provider_error

  -- `_add`
  unfoldable pub add : String → Scope → Exec (Zep P) (List ProviderMemory)
  unfolding ensure_user
  add fact scope = do
    user ← ensure_user c scope
    raw ← at_service c (c.add user fact)
    lift (added fact raw)

  unfoldable pub ingest : Episode → Scope → Exec (Zep P) (List ProviderMemory)
  unfolding add
  ingest episode scope = add (as_text episode) scope

  unfoldable pub upsert : List String → Scope → Exec (Zep P) (List ProviderMemory)
  unfolding add
  upsert [] scope = pure []
  upsert (fact ∷ facts) scope = do
    memories ← add fact scope
    rest ← upsert facts scope
    pure (memories ++ rest)

  unfoldable pub update : String → String → Exec (Zep P) ProviderMemory
  update id content = lift (raise unsupported_capability)

  unfoldable pub search : SearchQuery → Scope → Exec (Zep P) (List ProviderMemory)
  unfolding zep_user_id to_memories
  search query scope =
      if not (elem query.mode modes) then lift (raise unsupported_capability) else do
        raw ←
            at_service c
              (c.search query.query (zep_user_id scope) (some "edges") (min query.limit 50))
        lift (to_memories r c.at_least raw query.min_score)

  unfoldable pub list_scope : Scope → ℕ → Exec (Zep P) (List ProviderMemory)
  unfolding zep_user_id read_edges
  list_scope scope limit = do
    edges ← at_service c (c.edges_of_user (zep_user_id scope) (min limit 50))
    lift (read_edges r edges)

  abbrev pub found : Json → Result (Option ProviderMemory)
  found raw = elim raw [
    | null ↦ ok none
    | edge ↦ elim (to_memory r edge) [ ok memory ↦ ok (some memory) | err e ↦ err e ]
  ]

  unfoldable pub get : String → Exec (Zep P) (Option ProviderMemory)
  unfolding to_memory
  get id = do raw ← at_service c (c.get_edge id); lift (found raw)

  unfoldable pub delete : String → Exec (Zep P) Bool
  delete id = do _ ← at_service c (c.delete_edge id); pure true

  -- self._known_users.discard(…)
  abbrev pub forget : String → Exec (Zep P) (Unit {0})
  forget id z = (ok tt, record z { known = select (λ user. not (user == id)) z.known })

  -- The count of the edges, and 0 where the listing fails
  abbrev pub count_of : Result (List Json) → ℕ
  count_of (ok edges) = length edges
  count_of (err e) = 0

  unfoldable pub delete_scope : Scope → Exec (Zep P) ℕ
  unfolding zep_user_id
  delete_scope scope z =
      let id = zep_user_id scope in
      let doomed = at_service c (c.edges_of_user id 1000) z in
      ((at_service c (c.delete_user id)) >>= λ _. forget id >>= λ _. pure (count_of doomed.0))
        doomed.1

  unfoldable pub zep : Adapter (Zep P)
  unfolding capabilities
  zep = record {
    capabilities = capabilities;
    health = health c;
    ingest = ingest;
    upsert = upsert;
    search = search;
    list_scope = some list_scope;
    get = get;
    update = update;
    delete = delete;
    delete_scope = delete_scope;
  }
