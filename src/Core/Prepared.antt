-- ===== src/Core/Prepared.antt =====
-- `_prepare` of src/memgw/core.py: what every verb on a scope starts from.
use router_memory_services.Prelude.{String, ◌≡◌, ◌↔◌, ◌⊎◌, Option, none, some, string_eq, arith}
use router_memory_services.Dict.{lookup}
use router_memory_services.Errors.{ok}
use router_memory_services.Types.{Scope, reject, under, dim_eq}
use router_memory_services.Degrade.{assert_scope_supported}
use router_memory_services.Adapter.{Adapter}
use router_memory_services.Router.{resolve_provider}
use router_memory_services.Router.Resolution.{home, resolve_provider-home}
use router_memory_services.Core.State.{Core, World, adapter}
use router_memory_services.Core.Internals.{prepare}

-- What `_prepare` hands to a verb: the subject's home, its adapter, and the scope under the
-- credential's tenant, which the adapter supports.
pub record Prepared {P : Type 0} (core : Core P) (tenant : String) (scope : Scope) (w : World P)
    (name : String) (found : Adapter P) (bound : Scope) : Type 0 where
  pub is_home : home tenant scope.subject core.default_provider w.catalog ≡ some name
  pub is_found : lookup name core.providers ≡ some found
  pub is_under : bound ≡ under tenant scope
  pub is_supported : assert_scope_supported bound found.capabilities reject ≡ ok tt

module _ {P : Type 0} (core : Core P) (tenant : String) (scope : Scope) (asserted : Option String)
    (w : World P) where
  resolves :
      (name : String)
      → ((resolve_provider tenant scope.subject core.default_provider asserted w.catalog).0
          ≡ ok name)
        ↔ ((home tenant scope.subject core.default_provider w.catalog ≡ some name)
            × ((asserted ≡ none) ⊎ (asserted ≡ some name)))
  resolves name =
      (resolve_provider-home tenant scope.subject core.default_provider asserted w.catalog name).1

  keeps_catalog :
      (resolve_provider tenant scope.subject core.default_provider asserted w.catalog).1 ≡ w.catalog
  keeps_catalog =
      (resolve_provider-home tenant scope.subject core.default_provider asserted w.catalog "").0

  -- `_prepare` changes neither the catalog nor a provider.
  pub prepare-state : (prepare core tenant scope asserted w).1 ≡ w
  unfolding prepare
  prepare-state = ground (arith, keeps_catalog)

  -- What `_prepare` answers is the subject's home, the adapter of that name, and the scope under the
  -- credential's tenant, which the adapter's capabilities support.
  pub prepare-Prepared :
      (name : String) (found : Adapter P) (bound : Scope)
      → (prepare core tenant scope asserted w).0 ≡ ok (name, found, bound)
      → Prepared core tenant scope w name found bound
  unfolding prepare adapter
  prepare-Prepared name found bound h = record {
    is_home = ground (arith, (resolves name).0);
    is_found = ground arith;
    is_under = ground arith;
    is_supported = ground arith;
  }
