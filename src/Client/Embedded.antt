-- ===== src/Client/Embedded.antt =====
-- `Memory` of src/memgw/client.py in embedded mode, and `ScopeHandle`.
use router_memory_services.Prelude.{
  ℕ, String, ◌≡◌, refl, ap, ◌∙◌, Bool, not, ◌&&◌, ◌||◌, Option, none, some, List, [], is_set,
  is_empty, arith, inl, inr, if◌then◌else◌,
}
use router_memory_services.Dict.{Dict}
use router_memory_services.Json.{Json}
use router_memory_services.Errors.{Result, ok, err, value_error, Result-cases}
use router_memory_services.Exec.{Exec, pure, lift, ◌>>=◌}
use router_memory_services.Types.{
  Scope, Message, SearchQuery, MemoryRecord, build_scope, build_episode, build_query,
}
use router_memory_services.Capabilities.{Capabilities}
use router_memory_services.Core.State.{Core, World, SearchResult, capabilities}
use router_memory_services.Core.Writes
use router_memory_services.Core.Reads

-- `EMBEDDED_TENANT`
abbrev pub embedded_tenant : String
embedded_tenant = "local"

-- The test of `Memory.__init__`, on `provider`, `base_url` and whether `http` is given
unfoldable pub check_mode : Option String → Option String → Bool → Result (Unit {0})
check_mode provider base_url http =
    if is_set provider && (is_set base_url || http)
    then err value_error
    else if not (is_set provider) && not (is_set base_url || http)
    then err value_error
    else ok tt

-- `Memory.mode`: whether it is embedded
abbrev pub is_embedded : Option String → Bool
is_embedded provider = is_set provider

-- `ScopeHandle`
pub record Handle : Type 0 where
  pub subject : String
  pub agent : Option String

-- `ScopeHandle._scope`
unfoldable pub handle_scope : Handle → Option String → Dict String String → Result Scope
unfolding build_scope
handle_scope h session labels = build_scope h.subject h.agent session labels none

module _ (P : Type 0) where
  -- An embedded `Memory`: the core once it is started, and the world.
  pub record Session : Type 0 where
    pub core : Option (Core P)
    pub world : World P

module _ {P : Type 0} (build : Exec (World P) (Core P)) where
  -- `_started`, where no core is there: `build` makes the adapter, the catalog and the core.
  unfoldable pub start : Session P → Result (Core P) × Session P
  start s =
      let outcome = build s.world in
      elim outcome.0 [
        | ok core ↦ (ok core, record { core = some core; world = outcome.1 })
        | err e ↦ (err e, record { core = none; world = outcome.1 })
      ]

  unfoldable pub started_by : Option (Core P) → Exec (Session P) (Core P)
  unfolding start
  started_by (some core) s = (ok core, s)
  started_by none s = start s

  -- `_started`
  unfoldable pub started : Exec (Session P) (Core P)
  unfolding started_by
  started s = started_by s.core s

  abbrev pub in_world : {A : Type 0} → Exec (World P) A → Exec (Session P) A
  in_world m s = ((m s.world).0, record s { world = (m s.world).1 })

  -- messages or None, of messages that are checked already
  abbrev pub normalised : List Message → Option (List Message)
  normalised messages = if is_empty messages then none else some messages

  unfoldable pub ingest :
      Scope → List Message → Option String → Dict String Json → Exec (Session P) (List MemoryRecord)
  unfolding started build_episode
  ingest scope messages text metadata = do
    core ← started
    episode ← lift (build_episode (normalised messages) text metadata)
    result ← in_world (Writes.ingest core embedded_tenant episode scope none)
    pure result.results

  unfoldable pub upsert : Scope → List String → Exec (Session P) (List MemoryRecord)
  unfolding started
  upsert scope facts = do
    core ← started
    result ← in_world (Writes.upsert core embedded_tenant facts scope none)
    pure result.results

  unfoldable pub list_scope : Scope → ℕ → Exec (Session P) (List MemoryRecord)
  unfolding started
  list_scope scope limit = do
    core ← started
    in_world (Reads.list_scope core embedded_tenant scope limit none)

  unfoldable pub search : SearchQuery → Scope → Exec (Session P) SearchResult
  unfolding started
  search query scope = do
    core ← started
    query ← lift (build_query query)
    in_world (Reads.search core embedded_tenant query scope none)

  unfoldable pub get : String → Exec (Session P) MemoryRecord
  unfolding started
  get gateway_id = do core ← started; in_world (Reads.get core embedded_tenant gateway_id)

  unfoldable pub update : String → String → Exec (Session P) MemoryRecord
  unfolding started
  update gateway_id content = do
    core ← started
    in_world (Writes.update core embedded_tenant gateway_id content)

  unfoldable pub delete : String → Exec (Session P) (Unit {0})
  unfolding started
  delete gateway_id = do core ← started; in_world (Writes.delete core embedded_tenant gateway_id)

  unfoldable pub delete_scope : Scope → Exec (Session P) ℕ
  unfolding started
  delete_scope scope = do
    core ← started
    in_world (Writes.delete_scope core embedded_tenant scope none)

  unfoldable pub embedded_capabilities : Exec (Session P) Capabilities
  unfolding started
  embedded_capabilities = do core ← started; lift (capabilities core none)

  -- `ScopeHandle.remember`, `everything` and `delete_all`
  unfoldable pub remember :
      Handle → List String → Option String → Exec (Session P) (List MemoryRecord)
  unfolding handle_scope upsert
  remember h facts session = do scope ← lift (handle_scope h session []); upsert scope facts

  unfoldable pub everything : Handle → Option String → ℕ → Exec (Session P) (List MemoryRecord)
  unfolding handle_scope list_scope
  everything h session limit = do scope ← lift (handle_scope h session []); list_scope scope limit

  unfoldable pub delete_all : Handle → Option String → Exec (Session P) ℕ
  unfolding handle_scope delete_scope
  delete_all h session = do scope ← lift (handle_scope h session []); delete_scope scope

  started_by_once :
      (o : Option (Core P)) (s : Session P) (core : Core P)
      → s.core ≡ o
      → (started_by o s).0 ≡ ok core
      → (started_by o s).1.core ≡ some core
  unfolding started_by start
  started_by_once (some found) s core p e = p ∙ ground (arith, e)
  started_by_once none s core p e = elim (Result-cases (build s.world).0) [
    | inl (x, q) ↦ absurd (ground (arith, q, e))
    | inr (made, q) ↦ ground (arith, q, e)
  ]

  -- A core that is started is the one that every later verb uses: a second start gives the same core,
  -- builds nothing and changes nothing.
  pub started_once :
      (s : Session P) (core : Core P)
      → (started s).0 ≡ ok core
      → started (started s).1 ≡ (ok core, (started s).1)
  unfolding started started_by
  started_once s core e =
      ap (λ o. started_by o (started s).1) (started_by_once s.core s core refl e)
