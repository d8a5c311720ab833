-- ===== src/Core/Guard.antt =====
-- A core over adapters that refuse a scope without the credential's tenant, and `_prepare` over it.
use router_memory_services.Prelude.{
  ℕ, String, ◌≡◌, refl, Bool, true, ◌&&◌, Option, none, some, List, [], ◌∷◌, ◌==◌, string_eq,
  option_eq, arith, is_empty, map, if◌then◌else◌, Option-cases, inl, inr, beq_refl,
}
use router_memory_services.Dict.{Dict, lookup}
use router_memory_services.Errors.{Result, ok, err, other, Result-cases}
use router_memory_services.Exec.{Exec, continue}
use router_memory_services.Types.{Scope, ProviderMemory, reject, under}
use router_memory_services.Capabilities.{Capabilities}
use router_memory_services.Degrade.{assert_scope_supported, missing_dims}
use router_memory_services.Adapter.{Adapter}
use router_memory_services.Router.{resolve_provider}
use router_memory_services.Router.Resolution.{resolve_provider-home}
use router_memory_services.Core.State.{Core, World, adapter}
use router_memory_services.Core.Internals.{prepare}
use router_memory_services.Core.Prepared.{Prepared, prepare-Prepared, prepare-state}

-- The scope is stamped with the tenant, and the provider declares each of its dimensions.
abbrev pub carries : String → Capabilities → Scope → Bool
carries tenant caps scope = scope.tenant == some tenant && is_empty (missing_dims scope caps)

-- A lister that lists nothing where the scope does not carry the tenant.
abbrev pub guarded_list :
    {P : Type 0}
    → String
    → Capabilities
    → Option (Scope → ℕ → Exec P (List ProviderMemory))
    → Option (Scope → ℕ → Exec P (List ProviderMemory))
guarded_list tenant caps none = none
guarded_list tenant caps (some list) = some λ scope limit p.
    if carries tenant caps scope then list scope limit p else (err (other "leak"), p)

-- An adapter that does its work where the scope carries the tenant, and fails elsewhere.
unfoldable pub guarded : {P : Type 0} → String → Adapter P → Adapter P
guarded tenant a = record a {
  ingest = λ episode scope p.
      if carries tenant a.capabilities scope
      then a.ingest episode scope p
      else (err (other "leak"), p);
  upsert = λ facts scope p.
      if carries tenant a.capabilities scope
      then a.upsert facts scope p
      else (err (other "leak"), p);
  search = λ query scope p.
      if carries tenant a.capabilities scope
      then a.search query scope p
      else (err (other "leak"), p);
  list_scope = guarded_list tenant a.capabilities a.list_scope;
  delete_scope = λ scope p.
      if carries tenant a.capabilities scope
      then a.delete_scope scope p
      else (err (other "leak"), p);
}

module _ {P : Type 0} (tenant : String) where
  abbrev pub guarded_all : Dict String (Adapter P) → Dict String (Adapter P)
  guarded_all = map λ (entry : String × Adapter P). (entry.0, guarded tenant entry.1)

  -- The core over guarded adapters.
  abbrev pub guarded_core : Core P → Core P
  guarded_core core = record core { providers = guarded_all core.providers }

  guard_found : Option (Adapter P) → Option (Adapter P)
  guard_found none = none
  guard_found (some a) = some (guarded tenant a)

  lookup-guarded_all :
      (name : String) (providers : Dict String (Adapter P))
      → lookup name (guarded_all providers) ≡ guard_found (lookup name providers)
  unfolding lookup guard_found
  lookup-guarded_all name [] = refl
  lookup-guarded_all name ((k, a) ∷ providers) = ground (arith, lookup-guarded_all name providers)

  -- What `_prepare` hands to a verb, with the adapter guarded.
  abbrev guard_triple : String × Adapter P × Scope → String × Adapter P × Scope
  guard_triple (name, a, bound) = (name, guarded tenant a, bound)

  abbrev guard_result : Result (String × Adapter P × Scope) → Result (String × Adapter P × Scope)
  guard_result (ok t) = ok (guard_triple t)
  guard_result (err e) = err e

  prepare-guarded :
      (core : Core P) (scope : Scope) (asserted : Option String) (w : World P)
      → prepare (guarded_core core) tenant scope asserted w
        ≡ (guard_result (prepare core tenant scope asserted w).0, w)
  unfolding prepare adapter guard_found guarded
  prepare-guarded core scope asserted w =
      let keeps =
        (resolve_provider-home tenant scope.subject core.default_provider asserted w.catalog
          "").0 in
      elim (Result-cases
        (resolve_provider tenant scope.subject core.default_provider asserted w.catalog).0) [
          | inl (e, p) ↦ rw (p, keeps)
          | inr (name, p) ↦ elim (Option-cases (lookup name core.providers)) [
            | inl q ↦ rw (p, keeps, lookup-guarded_all name core.providers, q, guard_found)
            | inr (a, q) ↦
                elim (Result-cases
                  (assert_scope_supported (under tenant scope) a.capabilities reject)) [
                    | inl (e, r) ↦
                        rw (p, keeps, lookup-guarded_all name core.providers, q, guard_found, r)
                    | inr (u, r) ↦
                        rw (p, keeps, lookup-guarded_all name core.providers, q, guard_found, r)
                  ]
          ]
        ]

  -- What a prepared scope carries.
  Prepared-carries :
      (core : Core P) (scope : Scope) (w : World P) (name : String) (a : Adapter P) (bound : Scope)
      → Prepared core tenant scope w name a bound
      → carries tenant a.capabilities bound ≡ true
  unfolding assert_scope_supported under
  Prepared-carries core scope w name a bound h =
      ground (arith, h.is_under, h.is_supported, beq_refl tenant)

  -- A verb that starts by `_prepare` is the same over guarded adapters, if what follows is.
  pub continue-guarded {ℓ} :
      {A : Type ℓ} (core : Core P) (scope : Scope) (asserted : Option String) (w : World P)
      (f g : String × Adapter P × Scope → Exec (World P) A)
      → ((name : String) (a : Adapter P) (bound : Scope)
          → carries tenant a.capabilities bound ≡ true
          → g (name, guarded tenant a, bound) w ≡ f (name, a, bound) w)
      → continue
          (prepare (guarded_core core) tenant scope asserted w).0
          g
          (prepare (guarded_core core) tenant scope asserted w).1
        ≡ continue
            (prepare core tenant scope asserted w).0
            f
            (prepare core tenant scope asserted w).1
  continue-guarded core scope asserted w f g same =
      rw (prepare-guarded core scope asserted w, prepare-state core tenant scope asserted w)
        (ends (prepare core tenant scope asserted w).0 refl)
    where
      ends :
          (r : Result (String × Adapter P × Scope))
          → (prepare core tenant scope asserted w).0 ≡ r
          → continue (guard_result r) g w ≡ continue r f w
      ends (err e) p = refl
      ends (ok (name, a, bound)) p = same name a bound (
          Prepared-carries core scope w name a bound
            (prepare-Prepared core tenant scope asserted w name a bound p))
