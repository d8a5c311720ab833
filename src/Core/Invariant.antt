-- ===== src/Core/Invariant.antt =====
-- What every verb of src/memgw/core.py leaves as it was: the rows of other tenants.
use router_memory_services.Prelude.{
  String, Bool, refl, ap, inl, inr, true, false, Option, List, [], ◌∷◌, string_eq,
}
use router_memory_services.Types.{Scope, ProviderMemory}
use router_memory_services.Errors.{ok, Result-cases}
use router_memory_services.Catalog.Schema.{row_scope}
use router_memory_services.Catalog.Store.{Env, Catalog}
use router_memory_services.Catalog.Rows.{mark_deleted, mark_scope_deleted, resolve_gateway_id}
use router_memory_services.Catalog.Journal.{delete_journal}
use router_memory_services.Catalog.Keys.{IsKeyed}
use router_memory_services.Exec.{Exec}
use router_memory_services.Types.{Episode, reject}
use router_memory_services.Degrade.{assert_delete_supported}
use router_memory_services.Adapter.{Adapter}
use router_memory_services.Catalog.Bindings.{bind}
use router_memory_services.Catalog.Bindings
use router_memory_services.Catalog.Mapping.{map_index, record_many, record_one}
use router_memory_services.Catalog.MapState.{Quiet}
use router_memory_services.Catalog.Others.{
  KeepsOthers, map_index-KeepsOthers, bind-KeepsOthers, journal-KeepsOthers,
  mark_deleted-KeepsOthers, mark_scope_deleted-KeepsOthers, delete_journal-KeepsOthers,
  rebind-KeepsOthers,
}
use router_memory_services.Core.State.{Core, World, adapter, RebindStrategy, in_catalog}
use router_memory_services.Core.Internals.{records, items_of, prepare, call, row_of}
use router_memory_services.Core.Writes.{
  require, journal_if, ingest, upsert, update, delete, delete_scope,
}
use router_memory_services.Core.Writes
use router_memory_services.Core.Prepared.{prepare-state}
use router_memory_services.Core.ById.{call-catalog}
use router_memory_services.Core.Written.{write_of}
use router_memory_services.Core.Keeping.{
  Keeps, Keeps-same, Keeps-in_catalog, Keeps-lift, Keeps-bind,
}

module _ {P : Type 0} (env : Env) (tenant : String) (c0 : Catalog) (quiet : Quiet env) where
  Keeps-records :
      (name : String) (ms : List ProviderMemory) (scope : Scope)
      → Keeps {P = P} (KeepsOthers tenant c0) (records env tenant name ms scope)
  unfolding records record_many
  Keeps-records name [] scope = Keeps-lift (KeepsOthers tenant c0) (ok [])
  Keeps-records name (m ∷ ms) scope =
      let q = write_of tenant name (items_of (m ∷ ms)) scope in
      Keeps-bind (KeepsOthers tenant c0) (in_catalog (map_index env q)) _
        (Keeps-in_catalog (KeepsOthers tenant c0) (map_index env q)
          λ c k. map_index-KeepsOthers env c0 q c quiet k)
        (λ rows. Keeps-lift (KeepsOthers tenant c0) (ok _))

  Keeps-bind_subject :
      (subject name : String)
      → Keeps {P = P} (KeepsOthers tenant c0) (in_catalog (bind env tenant subject name))
  Keeps-bind_subject subject name =
      Keeps-in_catalog (KeepsOthers tenant c0) _
        λ c k. bind-KeepsOthers env c0 tenant c k subject name

  Keeps-journal_if :
      (enabled : Bool) (episode : Episode) (scope : Scope) (name : String) (natives : List String)
      → Keeps {P = P}
          (KeepsOthers tenant c0)
          (journal_if env enabled tenant episode scope name natives)
  unfolding journal_if
  Keeps-journal_if false episode scope name natives = Keeps-lift (KeepsOthers tenant c0) (ok tt)
  Keeps-journal_if true episode scope name natives =
      Keeps-bind (KeepsOthers tenant c0) _ _
        (Keeps-in_catalog (KeepsOthers tenant c0) _
          λ c k. journal-KeepsOthers env c0 tenant c k scope (env.dump_episode episode) _)
        (λ id. Keeps-lift (KeepsOthers tenant c0) (ok tt))

module _ {P : Type 0} (core : Core P) (tenant : String) (c0 : Catalog)
    (quiet : Quiet core.env) where
  Keeps-prepare :
      (scope : Scope) (asserted : Option String)
      → Keeps (KeepsOthers tenant c0) (prepare core tenant scope asserted)
  Keeps-prepare scope asserted =
      Keeps-same (KeepsOthers tenant c0) _
        λ w. ap (λ (v : World P). v.catalog) (prepare-state core tenant scope asserted w)

  Keeps-call :
      {A : Type 0} (a : Adapter P) (m : Exec P A) → Keeps (KeepsOthers tenant c0) (call a m)
  Keeps-call a m = Keeps-same (KeepsOthers tenant c0) _ λ w. call-catalog a m w

  Keeps-ingest :
      (episode : Episode) (scope : Scope) (provider : Option String)
      → Keeps (KeepsOthers tenant c0) (ingest core tenant episode scope provider)
  unfolding ingest
  Keeps-ingest episode scope provider =
      Keeps-bind (KeepsOthers tenant c0) _ _ (Keeps-prepare scope provider) λ x.
        Keeps-bind (KeepsOthers tenant c0) _ _ (Keeps-lift (KeepsOthers tenant c0) _) λ _.
          Keeps-bind (KeepsOthers tenant c0) _ _ (Keeps-call x.1 _) λ ms.
            Keeps-bind (KeepsOthers tenant c0) _ _
              (Keeps-records core.env tenant c0 quiet x.0 ms scope)
              λ rs.
                Keeps-bind (KeepsOthers tenant c0) _ _
                  (Keeps-bind_subject core.env tenant c0 quiet scope.subject x.0)
                  λ _.
                    Keeps-bind (KeepsOthers tenant c0) _ _
                      (Keeps-journal_if core.env tenant c0 quiet core.journal_enabled episode scope
                        x.0 _)
                      λ _. Keeps-lift (KeepsOthers tenant c0) (ok _)

  Keeps-upsert :
      (facts : List String) (scope : Scope) (provider : Option String)
      → Keeps (KeepsOthers tenant c0) (upsert core tenant facts scope provider)
  unfolding upsert
  Keeps-upsert facts scope provider =
      Keeps-bind (KeepsOthers tenant c0) _ _ (Keeps-lift (KeepsOthers tenant c0) _) λ _.
        Keeps-bind (KeepsOthers tenant c0) _ _ (Keeps-prepare scope provider) λ x.
          Keeps-bind (KeepsOthers tenant c0) _ _ (Keeps-lift (KeepsOthers tenant c0) _) λ _.
            Keeps-bind (KeepsOthers tenant c0) _ _ (Keeps-call x.1 _) λ ms.
              Keeps-bind (KeepsOthers tenant c0) _ _
                (Keeps-records core.env tenant c0 quiet x.0 ms scope)
                λ rs.
                  Keeps-bind (KeepsOthers tenant c0) _ _
                    (Keeps-bind_subject core.env tenant c0 quiet scope.subject x.0)
                    λ _. Keeps-lift (KeepsOthers tenant c0) (ok _)

  Keeps-row_of : (gid : String) → Keeps {P = P} (KeepsOthers tenant c0) (row_of tenant gid)
  unfolding row_of resolve_gateway_id
  Keeps-row_of gid = Keeps-same (KeepsOthers tenant c0) _ λ w. refl

  Keeps-record_one :
      (name native content : String) (scope : Scope)
      → Keeps {P = P}
          (KeepsOthers tenant c0)
          (in_catalog (record_one core.env tenant name native scope content))
  unfolding record_one record_many
  Keeps-record_one name native content scope =
      Keeps-in_catalog (KeepsOthers tenant c0)
        (record_one core.env tenant name native scope content)
        λ c k.
          let q = write_of tenant name ((native, content) ∷ []) scope in
          let kept = map_index-KeepsOthers core.env c0 q c quiet k in
          elim (Result-cases (map_index core.env q c).0) [
            | inl (e, p) ↦ rw (p) kept
            | inr (rows, p) ↦ rw (p) kept
          ]

  Keeps-update :
      (gid content : String) → Keeps (KeepsOthers tenant c0) (update core tenant gid content)
  unfolding update
  Keeps-update gid content = Keeps-bind (KeepsOthers tenant c0) _ _ (Keeps-row_of gid) λ row.
      Keeps-bind (KeepsOthers tenant c0) _ _
        (Keeps-lift (KeepsOthers tenant c0) (adapter core row.provider))
        λ found.
          Keeps-bind (KeepsOthers tenant c0) _ _
            (Keeps-lift (KeepsOthers tenant c0) (require found.capabilities.supports_update))
            λ _.
              Keeps-bind (KeepsOthers tenant c0) _ _
                (Keeps-call found (found.update row.native_id content))
                λ memory.
                  Keeps-bind (KeepsOthers tenant c0) _ _
                    (Keeps-lift (KeepsOthers tenant c0) (row_scope row))
                    λ scope.
                      Keeps-bind (KeepsOthers tenant c0) _ _
                        (Keeps-record_one row.provider memory.native_id content scope)
                        λ _. Keeps-lift (KeepsOthers tenant c0) (ok _)

  Keeps-delete : (gid : String) → Keeps (KeepsOthers tenant c0) (delete core tenant gid)
  unfolding delete
  Keeps-delete gid = Keeps-bind (KeepsOthers tenant c0) _ _ (Keeps-row_of gid) λ row.
      Keeps-bind (KeepsOthers tenant c0) _ _
        (Keeps-lift (KeepsOthers tenant c0) (adapter core row.provider))
        λ found.
          Keeps-bind (KeepsOthers tenant c0) _ _
            (Keeps-lift (KeepsOthers tenant c0)
              (assert_delete_supported found.capabilities reject false))
            λ _.
              Keeps-bind (KeepsOthers tenant c0) _ _ (Keeps-call found (found.delete row.native_id))
                λ _.
                  Keeps-bind (KeepsOthers tenant c0) _ _
                    (Keeps-in_catalog (KeepsOthers tenant c0) (mark_deleted core.env tenant gid)
                      λ c k. mark_deleted-KeepsOthers core.env c0 tenant c k gid)
                    λ _. Keeps-lift (KeepsOthers tenant c0) (ok _)

  Keeps-delete_scope :
      (scope : Scope) (provider : Option String)
      → Keeps (KeepsOthers tenant c0) (delete_scope core tenant scope provider)
  unfolding delete_scope delete_journal
  Keeps-delete_scope scope provider =
      Keeps-bind (KeepsOthers tenant c0) _ _ (Keeps-prepare scope provider) λ x.
        Keeps-bind (KeepsOthers tenant c0) _ _ (Keeps-lift (KeepsOthers tenant c0) _) λ _.
          Keeps-bind (KeepsOthers tenant c0) _ _ (Keeps-call x.1 _) λ n.
            Keeps-bind (KeepsOthers tenant c0) _ _
              (Keeps-in_catalog (KeepsOthers tenant c0)
                (mark_scope_deleted core.env tenant scope x.0)
                λ c k. mark_scope_deleted-KeepsOthers core.env c0 tenant c k scope x.0)
              λ _.
                Keeps-bind (KeepsOthers tenant c0) _ _
                  (Keeps-in_catalog (KeepsOthers tenant c0) (delete_journal tenant scope)
                    λ c k. delete_journal-KeepsOthers core.env c0 tenant c k scope)
                  λ _. Keeps-lift (KeepsOthers tenant c0) (ok n)

  Keeps-rebind :
      (subject provider : String) (strategy : RebindStrategy)
      → Keeps (KeepsOthers tenant c0) (Writes.rebind core tenant subject provider strategy)
  unfolding Writes.rebind
  Keeps-rebind subject provider strategy =
      Keeps-bind (KeepsOthers tenant c0) _ _
        (Keeps-lift (KeepsOthers tenant c0) (Writes.not_migrating core tenant strategy))
        λ _.
          Keeps-bind (KeepsOthers tenant c0) _ _
            (Keeps-lift (KeepsOthers tenant c0) (adapter core provider))
            λ _.
              Keeps-in_catalog (KeepsOthers tenant c0)
                (Bindings.rebind core.env tenant subject provider)
                λ c k. rebind-KeepsOthers core.env c0 tenant c k subject provider

module _ {P : Type 0} (core : Core P) (tenant : String) where
  -- While no other process commits, every verb that writes leaves what the catalog has of other
  -- tenants, in the index, the bindings and the journal, as it was, whatever the verb answers or
  -- raises; and if no two rows of the index had one gateway id, or one native id of a tenant at a
  -- provider, then none have afterwards.
  pub writes-KeepsOthers :
      (episode : Episode) (facts : List String) (scope : Scope) (provider : Option String)
      (gid content subject name : String) (strategy : RebindStrategy) (w : World P)
      → Quiet core.env
      → IsKeyed w.catalog.index
      → KeepsOthers tenant w.catalog (ingest core tenant episode scope provider w).1.catalog
        × KeepsOthers tenant w.catalog (upsert core tenant facts scope provider w).1.catalog
        × KeepsOthers tenant w.catalog (update core tenant gid content w).1.catalog
        × KeepsOthers tenant w.catalog (delete core tenant gid w).1.catalog
        × KeepsOthers tenant w.catalog (delete_scope core tenant scope provider w).1.catalog
        × KeepsOthers tenant w.catalog (Writes.rebind core tenant subject name strategy w).1.catalog
  writes-KeepsOthers episode facts scope provider gid content subject name strategy w quiet k =
      let c = w.catalog in
      let start : KeepsOthers tenant c c = record {
        keyed = k;
        index = refl;
        bindings = refl;
        episodes = refl;
      } in
      (
        (Keeps-ingest core tenant c quiet episode scope provider).keeps w start,
        (Keeps-upsert core tenant c quiet facts scope provider).keeps w start,
        (Keeps-update core tenant c quiet gid content).keeps w start,
        (Keeps-delete core tenant c quiet gid).keeps w start,
        (Keeps-delete_scope core tenant c quiet scope provider).keeps w start,
        (Keeps-rebind core tenant c quiet subject name strategy).keeps w start,
      )
