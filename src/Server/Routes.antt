-- ===== src/Server/Routes.antt =====
-- src/memgw/server/routes.py: the handlers of the /v1 surface, and the bodies of schemas.py that they
-- take. A body is one that FastAPI has parsed and validated; a handler starts with the principal of
-- the Authorization header.
use router_memory_services.Prelude.{
  ℕ, String, Bool, true, false, Option, none, some, List, is_set, if◌then◌else◌, nat_beq,
}
use router_memory_services.Dict.{Dict}
use router_memory_services.Json.{Json}
use router_memory_services.Errors.{Exn, Result, ok, err}
use router_memory_services.Exec.{Exec, pure, lift, ◌>>=◌}
use router_memory_services.Types.{
  Scope, Message, MemoryRecord, SearchQuery, build_episode, build_query,
}
use router_memory_services.Capabilities.{Capabilities}
use router_memory_services.Catalog.Bindings.{get_binding}
use router_memory_services.Catalog.Schema.{RebindResult}
use router_memory_services.Core.State.{
  Core, World, WriteResult, SearchResult, RebindStrategy, in_catalog, capabilities,
}
use router_memory_services.Core.Writes.{ingest, upsert, update, delete, delete_scope, rebind}
use router_memory_services.Core.Reads.{search, list_scope, get, providers_status, ProviderStatus}
use router_memory_services.Server.Auth.{Principal, authenticate, assert_no_wider_tenant}

-- `_Scoped`
pub record Scoped : Type 0 where
  pub scope : Scope
  pub provider : Option String
  pub tenant : Option String

pub record IngestIn : Type 0 where
  pub scoped : Scoped
  pub messages : Option (List Message)
  pub text : Option String
  pub metadata : Dict String Json

pub record ListOut : Type 0 where
  pub results : List MemoryRecord
  pub provider : String

pub record DeleteScopeOut : Type 0 where
  pub deleted : ℕ
  pub provider : String

-- `RebindOut`; of the note, whether there is one.
pub record RebindOut : Type 0 where
  pub subject : String
  pub provider : String
  pub orphaned_at : Option String
  pub orphaned_count : ℕ
  pub has_note : Bool

-- provider or core.default_provider or ""
unfoldable pub or_default : Option String → Option String → String
or_default none none = ""
or_default none (some default_provider) = default_provider
or_default (some provider) default_provider =
    if is_set (some provider)
    then provider
    else elim default_provider [ none ↦ "" | some name ↦ name ]

abbrev rebind_out : String → RebindResult → RebindOut
rebind_out subject result = record {
  subject = subject;
  provider = result.provider;
  orphaned_at = result.orphaned_at;
  orphaned_count = result.orphaned_count;
  has_note = if nat_beq result.orphaned_count 0 then false else true;
}

-- The app: its core, the digests of its keys, SHA-256, and `str` of an exception.
module _ (P : Type 0) where
  pub record App : Type 0 where
    pub core : Core P
    pub digests : Dict String String
    pub sha256 : String → String
    pub cause : Exn → String

-- What is left of a principal when a body names the tenant.
abbrev pub narrowed : Principal → Result (Unit {0}) → Result Principal
narrowed p (ok _) = ok p
narrowed p (err e) = err e

abbrev pub check_who : Result Principal → Option String → Result Principal
check_who (err e) tenant = err e
check_who (ok p) tenant = narrowed p (assert_no_wider_tenant p tenant)

module _ {P : Type 0} (app : App P) (authorization : Option String) where
  -- `principal`
  abbrev pub who : Result Principal
  who = authenticate app.sha256 app.digests authorization

  -- What a handler with a body does first: the principal, and no wider tenant than that.
  unfoldable pub checked : Option String → Result Principal
  checked tenant = check_who who tenant

  unfoldable pub ingest_route : IngestIn → Exec (World P) WriteResult
  ingest_route body = do
    p ← lift (checked body.scoped.tenant)
    episode ← lift (build_episode body.messages body.text body.metadata)
    ingest app.core p.tenant_id episode body.scoped.scope body.scoped.provider

  unfoldable pub upsert_route : List String → Scoped → Exec (World P) WriteResult
  upsert_route facts body = do
    p ← lift (checked body.tenant)
    upsert app.core p.tenant_id facts body.scope body.provider

  unfoldable pub list_route : ℕ → Scoped → Exec (World P) ListOut
  list_route limit body = do
    p ← lift (checked body.tenant)
    records ← list_scope app.core p.tenant_id body.scope limit body.provider
    provider ← in_catalog (get_binding p.tenant_id body.scope.subject)
    pure (record { results = records; provider = or_default provider app.core.default_provider })

  unfoldable pub search_route : SearchQuery → Scoped → Exec (World P) SearchResult
  search_route fields body = do
    p ← lift (checked body.tenant)
    query ← lift (build_query fields)
    search app.core p.tenant_id query body.scope body.provider

  unfoldable pub delete_scope_route : Scoped → Exec (World P) DeleteScopeOut
  delete_scope_route body = do
    p ← lift (checked body.tenant)
    deleted ← delete_scope app.core p.tenant_id body.scope body.provider
    provider ← in_catalog (get_binding p.tenant_id body.scope.subject)
    pure (record { deleted = deleted; provider = or_default provider app.core.default_provider })

  unfoldable pub get_route : String → Exec (World P) MemoryRecord
  get_route gateway_id = do p ← lift who; get app.core p.tenant_id gateway_id

  unfoldable pub update_route : String → String → Option String → Exec (World P) MemoryRecord
  update_route gateway_id content tenant = do
    p ← lift (checked tenant)
    update app.core p.tenant_id gateway_id content

  unfoldable pub delete_route : String → Exec (World P) (Unit {0})
  delete_route gateway_id = do p ← lift who; delete app.core p.tenant_id gateway_id

  unfoldable pub binding_route : String → Exec (World P) (Option String)
  binding_route subject = do p ← lift who; in_catalog (get_binding p.tenant_id subject)

  unfoldable pub rebind_route :
      String → String → RebindStrategy → Option String → Exec (World P) RebindOut
  rebind_route subject provider strategy tenant = do
    p ← lift (checked tenant)
    result ← rebind app.core p.tenant_id subject provider strategy
    pure (rebind_out subject result)

  unfoldable pub providers_route : Exec (World P) (List ProviderStatus)
  providers_route = do
    _ ← lift who
    λ w. let (statuses, w') = providers_status app.cause app.core w in (ok statuses, w')

  unfoldable pub capabilities_route : Option String → Exec (World P) Capabilities
  capabilities_route provider = do _ ← lift who; lift (capabilities app.core provider)
