-- ===== src/Server/Callers.antt =====
-- What a caller of the routes of src/memgw/server/routes.py can reach.
use router_memory_services.Prelude.{
  ℕ, String, ◌≡◌, false, Option, some, List, arith, ◌==◌, string_eq, inl, inr,
}
use router_memory_services.Errors.{ok, raise, tenant_mismatch, Result-cases}
use router_memory_services.Types.{Scope, SearchQuery, MemoryRecord}
use router_memory_services.Core.State.{World, RebindStrategy}
use router_memory_services.Catalog.Store.{Catalog}
use router_memory_services.Catalog.Keys.{IsKeyed}
use router_memory_services.Catalog.Bindings.{bound_to, get_binding}
use router_memory_services.Router.Resolution.{home}
use router_memory_services.Core.Internals.{prepare}
use router_memory_services.Core.Writes.{delete_scope}
use router_memory_services.Core.Reads.{list_scope}
use router_memory_services.Core.Prepared.{prepare-Prepared}
use router_memory_services.Core.Erasure.{delete_scope-outcome}
use router_memory_services.Core.Reading.{list_scope-IsRead}
use router_memory_services.Server.Auth.{Principal, authenticate, assert_no_wider_tenant}
use router_memory_services.Server.Routes.{
  App, Scoped, IngestIn, ListOut, DeleteScopeOut, or_default, checked, ingest_route, upsert_route,
  list_route, search_route, delete_scope_route, update_route, rebind_route,
}

module _ {P : Type 0} (app : App P) (authorization : Option String) (p : Principal) (other : String)
    (w : World P) where
  refused :
      authenticate app.sha256 app.digests authorization ≡ ok p
      → (other == p.tenant_id) ≡ false
      → checked app authorization (some other) ≡ raise tenant_mismatch
  unfolding checked assert_no_wider_tenant
  refused h d = rw (h, d)

  -- A body that names another tenant than the credential's is refused with 403 by every handler that
  -- takes a body, before anything else is looked at, and nothing changes.
  pub routes-other_tenant :
      (body : IngestIn) (facts : List String) (limit : ℕ) (query : SearchQuery) (scoped : Scoped)
      (gateway_id content subject provider : String) (strategy : RebindStrategy)
      → authenticate app.sha256 app.digests authorization ≡ ok p
      → (other == p.tenant_id) ≡ false
      → let claimed = record scoped { tenant = some other } in
        let ingested = record body { scoped = claimed } in
        (ingest_route app authorization ingested w ≡ (raise tenant_mismatch, w))
        × (upsert_route app authorization facts claimed w ≡ (raise tenant_mismatch, w))
        × (list_route app authorization limit claimed w ≡ (raise tenant_mismatch, w))
        × (search_route app authorization query claimed w ≡ (raise tenant_mismatch, w))
        × (delete_scope_route app authorization claimed w ≡ (raise tenant_mismatch, w))
        × (update_route app authorization gateway_id content (some other) w
            ≡ (raise tenant_mismatch, w))
        × (rebind_route app authorization subject provider strategy (some other) w
            ≡ (raise tenant_mismatch, w))
  unfolding ingest_route upsert_route list_route search_route delete_scope_route update_route
      rebind_route
  routes-other_tenant body facts limit query scoped gateway_id content subject provider strategy h
        d =
      let r = refused h d in (rw (r), rw (r), rw (r), rw (r), rw (r), rw (r), rw (r))

module _ {P : Type 0} (app : App P) (authorization : Option String) (w : World P) where
  or_default-home :
      (tenant subject : String) (default_provider : Option String) (c c' : Catalog) (name : String)
      → home tenant subject default_provider c ≡ some name
      → c'.bindings ≡ c.bindings
      → or_default (bound_to tenant subject c'.bindings) default_provider ≡ name
  unfolding or_default
  or_default-home tenant subject default_provider c c' name h same = ground arith

  list_scope-home :
      (tenant : String) (scope : Scope) (limit : ℕ) (asserted : Option String)
      (rs : List MemoryRecord)
      → (list_scope app.core tenant scope limit asserted w).0 ≡ ok rs
      → (name : String) × (home tenant scope.subject app.core.default_provider w.catalog
          ≡ some name)
  unfolding list_scope
  list_scope-home tenant scope limit asserted rs h =
      elim (Result-cases (prepare app.core tenant scope asserted w).0) [
        | inl (e, p) ↦ absurd (ground arith)
        | inr ((name, a, bound), p) ↦
            (name, (prepare-Prepared app.core tenant scope asserted w name a bound p).is_home)
      ]

  -- A list that answers, where the keys of the index hold, names the provider that it listed: the
  -- subject's home for the credential's tenant, as it was before the call.
  pub list_route-home :
      (keyed : IsKeyed w.catalog.index) (p : Principal) (limit : ℕ) (body : Scoped) (out : ListOut)
      → authenticate app.sha256 app.digests authorization ≡ ok p
      → (list_route app authorization limit body w).0 ≡ ok out
      → home p.tenant_id body.scope.subject app.core.default_provider w.catalog ≡ some out.provider
  unfolding list_route checked get_binding
  list_route-home keyed p limit body out h listed =
      elim (Result-cases (assert_no_wider_tenant p body.tenant)) [
        | inl (e, q) ↦ absurd (ground arith)
        | inr (_, q) ↦
            let l = list_scope app.core p.tenant_id body.scope limit body.provider w in
            elim (Result-cases l.0) [
              | inl (e, r) ↦ absurd (ground arith)
              | inr (rs, r) ↦
                  let (name, lives) =
                    list_scope-home p.tenant_id body.scope limit body.provider rs r in
                  let same =
                    (list_scope-IsRead app.core p.tenant_id w keyed body.scope limit
                      body.provider).same in
                  ground (
                    arith,
                    lives,
                    or_default-home p.tenant_id body.scope.subject app.core.default_provider
                        w.catalog l.1.catalog name lives same.0,
                  )
            ]
      ]

  -- An erasure that answers names the provider that it erased at: the subject's home for the
  -- credential's tenant, as it was before the call.
  pub delete_scope_route-home :
      (p : Principal) (body : Scoped) (out : DeleteScopeOut)
      → authenticate app.sha256 app.digests authorization ≡ ok p
      → (delete_scope_route app authorization body w).0 ≡ ok out
      → home p.tenant_id body.scope.subject app.core.default_provider w.catalog ≡ some out.provider
  unfolding delete_scope_route checked get_binding
  delete_scope_route-home p body out h deleted =
      elim (Result-cases (assert_no_wider_tenant p body.tenant)) [
        | inl (e, q) ↦ absurd (ground arith)
        | inr (_, q) ↦
            let d = delete_scope app.core p.tenant_id body.scope body.provider w in
            elim (delete_scope-outcome app.core p.tenant_id body.scope body.provider w) [
              | inl (e, r, _) ↦ absurd (ground arith)
              | inr (name, removed, r, lives, after) ↦ ground (
                arith,
                lives,
                or_default-home p.tenant_id body.scope.subject app.core.default_provider w.catalog
                    d.1.catalog name lives after.bindings_same,
              )
            ]
      ]
