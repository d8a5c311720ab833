-- ===== src/Core/Tenancy.antt =====
-- The rule of src/memgw/core.py: every scope that reaches an adapter carries the credential's tenant,
-- and no dimension that the adapter does not declare.
use router_memory_services.Prelude.{
  ℕ, String, ◌≡◌, refl, ◌∙◌, true, Option, List, [], ◌∷◌, string_eq, option_eq, if◌then◌else◌,
  Option-cases, Bool-cases, inl, inr,
}
use router_memory_services.Errors.{Result, ok, err, other, Result-cases}
use router_memory_services.Exec.{Exec}
use router_memory_services.Types.{Scope, Episode, SearchQuery, ProviderMemory}
use router_memory_services.Degrade.{DegradeResult, resolve_mode}
use router_memory_services.Adapter.{Adapter}
use router_memory_services.Core.State.{Core, World}
use router_memory_services.Core.Internals.{call, failure}
use router_memory_services.Core.Writes.{ingest, upsert, delete_scope}
use router_memory_services.Core.Reads.{
  search, list_scope, search_end, lister, check_as_of, effective,
}
use router_memory_services.Core.Guard.{carries, guarded, guarded_core, continue-guarded}

module _ {P : Type 0} (tenant : String) (a : Adapter P) where
  guarded-capabilities : (guarded tenant a).capabilities ≡ a.capabilities
  unfolding guarded
  guarded-capabilities = refl

  call-guarded : {A : Type 0} (m : Exec P A) → call (guarded tenant a) m ≡ call a m
  unfolding guarded call failure
  call-guarded m = refl

  guard_lister :
      Result (Scope → ℕ → Exec P (List ProviderMemory))
      → Result (Scope → ℕ → Exec P (List ProviderMemory))
  guard_lister (err e) = err e
  guard_lister (ok list) = ok λ scope limit p.
      if carries tenant a.capabilities scope then list scope limit p else (err (other "leak"), p)

  lister-guarded :
      lister (guarded tenant a) (guarded tenant a).list_scope ≡ guard_lister (lister a a.list_scope)
  unfolding guarded lister guard_lister
  lister-guarded = elim (Option-cases a.list_scope) [
    | inl p ↦ rw (p)
    | inr (list, p) ↦ elim (Bool-cases a.capabilities.supports_list) [
      | inl q ↦ rw (p, q)
      | inr q ↦ rw (p, q)
    ]
  ]

  failure-guarded : {A : Type 0} → failure {A = A} (guarded tenant a) ≡ failure a
  unfolding guarded failure
  failure-guarded = refl

module _ {P : Type 0} (tenant : String) (a : Adapter P) (scope : Scope)
    (c : carries tenant a.capabilities scope ≡ true) where
  guarded-ingest :
      (episode : Episode) → (guarded tenant a).ingest episode scope ≡ a.ingest episode scope
  unfolding guarded
  guarded-ingest episode = λ i p. if c i then a.ingest episode scope p else (err (other "leak"), p)

  guarded-upsert :
      (facts : List String) → (guarded tenant a).upsert facts scope ≡ a.upsert facts scope
  unfolding guarded
  guarded-upsert facts = λ i p. if c i then a.upsert facts scope p else (err (other "leak"), p)

  guarded-search :
      (query : SearchQuery) → (guarded tenant a).search query scope ≡ a.search query scope
  unfolding guarded
  guarded-search query = λ i p. if c i then a.search query scope p else (err (other "leak"), p)

  guarded-delete_scope : (guarded tenant a).delete_scope scope ≡ a.delete_scope scope
  unfolding guarded
  guarded-delete_scope = λ i p. if c i then a.delete_scope scope p else (err (other "leak"), p)

module _ {P : Type 0} (tenant : String) (core : Core P) where
  ingest-guarded :
      (episode : Episode) (scope : Scope) (provider : Option String) (w : World P)
      → ingest (guarded_core tenant core) tenant episode scope provider w
        ≡ ingest core tenant episode scope provider w
  unfolding ingest
  ingest-guarded episode scope provider w =
      continue-guarded tenant core scope provider w _ _
        λ name a bound c. simp (guarded-capabilities, call-guarded, guarded-ingest tenant a bound c)

  upsert-guarded :
      (facts : List String) (scope : Scope) (provider : Option String) (w : World P)
      → upsert (guarded_core tenant core) tenant facts scope provider w
        ≡ upsert core tenant facts scope provider w
  unfolding upsert
  upsert-guarded [] scope provider w = refl
  upsert-guarded (fact ∷ facts) scope provider w =
      continue-guarded tenant core scope provider w _ _
        λ name a bound c. simp (guarded-capabilities, call-guarded, guarded-upsert tenant a bound c)

  delete_scope-guarded :
      (scope : Scope) (provider : Option String) (w : World P)
      → delete_scope (guarded_core tenant core) tenant scope provider w
        ≡ delete_scope core tenant scope provider w
  unfolding delete_scope
  delete_scope-guarded scope provider w =
      continue-guarded tenant core scope provider w _ _ λ name a bound c.
        simp (guarded-capabilities, call-guarded, guarded-delete_scope tenant a bound c)

  search_end-guarded :
      (name : String) (a : Adapter P) (query : SearchQuery) (decision : DegradeResult)
      (scope : Scope) (r : Result (List ProviderMemory))
      → search_end core.env tenant name (guarded tenant a) query decision scope r
        ≡ search_end core.env tenant name a query decision scope r
  unfolding search_end
  search_end-guarded name a query decision scope (ok memories) = refl
  search_end-guarded name a query decision scope (err e) = simp (failure-guarded)

  search-guarded :
      (query : SearchQuery) (scope : Scope) (provider : Option String) (w : World P)
      → search (guarded_core tenant core) tenant query scope provider w
        ≡ search core tenant query scope provider w
  unfolding search
  search-guarded query scope provider w =
      continue-guarded tenant core scope provider w _ _ λ name a bound c.
        elim (Result-cases (check_as_of query.as_of a.capabilities)) [
          | inl (e, p) ↦ simp (guarded-capabilities, p)
          | inr (u, p) ↦
              elim (Result-cases (resolve_mode query.mode a.capabilities query.on_unsupported)) [
                | inl (e, q) ↦ simp (guarded-capabilities, p, q)
                | inr (decision, q) ↦
                    let asked = effective query decision a.capabilities in
                    let found = guarded-search tenant a bound c asked in
                    simp (guarded-capabilities, p, q)
                      ((λ i.
                          search_end-guarded name a query decision scope
                            ((guarded tenant a).search asked bound w.store).0 i
                            (record w {
                              store = ((guarded tenant a).search asked bound w.store).1;
                            }))
                        ∙ (λ i.
                            search_end core.env tenant name a query decision scope
                              (found i w.store).0 (record w { store = (found i w.store).1 })))
              ]
        ]

  list_scope-guarded :
      (scope : Scope) (limit : ℕ) (provider : Option String) (w : World P)
      → list_scope (guarded_core tenant core) tenant scope limit provider w
        ≡ list_scope core tenant scope limit provider w
  unfolding list_scope guard_lister
  list_scope-guarded scope limit provider w =
      continue-guarded tenant core scope provider w _ _ λ name a bound c.
        elim (Result-cases (lister a a.list_scope)) [
          | inl (e, p) ↦ simp (lister-guarded, p)
          | inr (list, p) ↦ simp (lister-guarded, p, guarded-capabilities, call-guarded, c)
        ]

  -- Every scope that a verb hands to an adapter carries the credential's tenant, whatever tenant the
  -- caller's scope has, and only dimensions that the adapter declares: each verb over adapters that
  -- fail on any other scope is the verb.
  pub scope_verbs-guarded :
      (episode : Episode) (facts : List String) (query : SearchQuery) (limit : ℕ) (scope : Scope)
      (provider : Option String) (w : World P)
      → let over = guarded_core tenant core in
        (ingest over tenant episode scope provider w ≡ ingest core tenant episode scope provider w)
        × (upsert over tenant facts scope provider w ≡ upsert core tenant facts scope provider w)
        × (search over tenant query scope provider w ≡ search core tenant query scope provider w)
        × (list_scope over tenant scope limit provider w
            ≡ list_scope core tenant scope limit provider w)
        × (delete_scope over tenant scope provider w ≡ delete_scope core tenant scope provider w)
  scope_verbs-guarded episode facts query limit scope provider w = (
    ingest-guarded episode scope provider w,
    upsert-guarded facts scope provider w,
    search-guarded query scope provider w,
    list_scope-guarded scope limit provider w,
    delete_scope-guarded scope provider w,
  )
