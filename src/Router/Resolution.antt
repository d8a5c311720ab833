-- ===== src/Router/Resolution.antt =====
-- What `resolve_provider` of src/memgw/router.py resolves to.
use router_memory_services.Prelude.{
  String, ◌≡◌, refl, ◌↔◌, ◌⊎◌, false, Option, none, some, ◌==◌, string_eq, eq_iff, arith, is_set,
  if◌then◌else◌,
}
use router_memory_services.Errors.{
  ok, err, gateway, with_code, raise, invalid_request, provider_mismatch,
}
use router_memory_services.Catalog.Store.{Catalog}
use router_memory_services.Catalog.Bindings.{bound_to}
use router_memory_services.Router.{resolve_provider}

-- The binding, else the default.
abbrev pub home : String → String → Option String → Catalog → Option String
home tenant subject default_provider c =
    if is_set (bound_to tenant subject c.bindings)
    then bound_to tenant subject c.bindings
    else default_provider

-- Resolving changes nothing, and a provider that the caller asserts never changes what is resolved:
-- the result is a name exactly when that is the subject's home and the caller asserts nothing else.
pub resolve_provider-home :
    (tenant subject : String) (default_provider asserted : Option String) (c : Catalog)
    (name : String)
    → ((resolve_provider tenant subject default_provider asserted c).1 ≡ c)
      × (((resolve_provider tenant subject default_provider asserted c).0 ≡ ok name) ↔ (
          (home tenant subject default_provider c ≡ some name)
          × ((asserted ≡ none) ⊎ (asserted ≡ some name))))
unfolding resolve_provider
resolve_provider-home tenant subject default_provider none c name =
    (refl, ((λ h. ground arith), (λ h. ground arith)))
resolve_provider-home tenant subject default_provider (some a) c name =
    (refl, ((λ h. ground (arith, eq_iff a name)), (λ h. ground (arith, eq_iff a name))))

-- A subject that is not bound, where there is no default, is refused with `no_provider_resolved`.
pub resolve_provider-no_home :
    (tenant subject : String) (default_provider asserted : Option String) (c : Catalog)
    → home tenant subject default_provider c ≡ none
    → (resolve_provider tenant subject default_provider asserted c).0
      ≡ err (gateway (with_code invalid_request "no_provider_resolved"))
unfolding resolve_provider
resolve_provider-no_home tenant subject default_provider asserted c h = ground arith

-- A caller that asserts another provider than the subject's home is refused with a mismatch.
pub resolve_provider-mismatch :
    (tenant subject : String) (default_provider : Option String) (a name : String) (c : Catalog)
    → home tenant subject default_provider c ≡ some name
    → (a == name) ≡ false
    → (resolve_provider tenant subject default_provider (some a) c).0 ≡ raise provider_mismatch
unfolding resolve_provider
resolve_provider-mismatch tenant subject default_provider a name c h d = ground arith
