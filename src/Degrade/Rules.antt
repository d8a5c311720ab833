-- ===== src/Degrade/Rules.antt =====
-- The rule of src/memgw/degrade.py: quality may be degraded; isolation and deletability may not.
use router_memory_services.Prelude.{
  String, ◌≡◌, ◌↔◌, ◌⊎◌, Bool, true, false, not, List, [], ◌∷◌, arith, elem, All, select, map,
  is_empty, if◌then◌else◌, some,
}
use router_memory_services.Dict.{lookup}
use router_memory_services.Errors.{ok, raise, unsupported_capability}
use router_memory_services.Types.{
  SearchMode, keyword, OnUnsupported, reject, degrade, Scope, Dim, dims, dim_eq, mode_eq,
}
use router_memory_services.Capabilities.{Capabilities}
use router_memory_services.Degrade.{
  DegradeResult, substitutions, resolve_mode, missing_dims, assert_scope_supported,
  assert_delete_supported,
}

-- What is served is always a mode of the provider. It is the mode that was asked for, with nothing
-- lost, unless the provider lacks that mode, the caller allowed a substitute, and the table of
-- substitutes names the served mode with what is lost.
pub resolve_mode-served :
    (m : SearchMode) (caps : Capabilities) (u : OnUnsupported) (d : DegradeResult)
    → resolve_mode m caps u ≡ ok d
    → (elem d.served caps.search_modes ≡ true)
      × (((d.degraded ≡ false) × (d.served ≡ m) × (d.lost ≡ []))
          ⊎ ((d.degraded ≡ true)
              × (u ≡ degrade)
              × (elem m caps.search_modes ≡ false)
              × (lookup m substitutions ≡ some (d.served, d.lost))))
unfolding resolve_mode
resolve_mode-served m caps u d h = ground arith

-- A search mode that the provider lacks is refused when the caller rejects substitutes, and a
-- keyword search is refused even when the caller allows them.
pub resolve_mode-refused :
    (m : SearchMode) (caps : Capabilities) (u : OnUnsupported)
    → elem m caps.search_modes ≡ false
    → (u ≡ reject) ⊎ (m ≡ keyword)
    → resolve_mode m caps u ≡ raise unsupported_capability
unfolding resolve_mode
resolve_mode-refused m caps u lacks why = ground arith

missing-none :
    (dims : List Dim) (kvs : List (Dim × String))
    → (select (λ d. not (elem d dims)) (map (λ (kv : Dim × String). kv.0) kvs) ≡ [])
      ↔ All (λ kv. elem kv.0 dims ≡ true) kvs
missing-none dims [] = (λ _. tt, λ _. ground arith)
missing-none dims (kv ∷ kvs) =
    let ih = missing-none dims kvs in (λ h. ground (arith, ih.0), λ h. ground (arith, ih.1 h.1))

-- A scope is let through, whatever the caller allows, exactly when the provider declares every
-- dimension that is set and the scope has no labels or the provider supports them.
pub assert_scope_supported_iff :
    (scope : Scope) (caps : Capabilities) (u : OnUnsupported)
    → (assert_scope_supported scope caps u ≡ ok tt) ↔ (
        All (λ kv. elem kv.0 caps.scope_dims ≡ true) (dims scope)
        × ((is_empty scope.labels ≡ true) ⊎ (caps.supports_labels ≡ true)))
unfolding assert_scope_supported missing_dims
assert_scope_supported_iff scope caps u =
    let dims_ok = missing-none caps.scope_dims (dims scope) in
    (λ h. (dims_ok.0 (ground arith), ground arith), λ h. ground (arith, dims_ok.1 h.0))

-- A deletion is let through, whatever the caller allows, exactly when the provider supports it.
pub assert_delete_supported_iff :
    (caps : Capabilities) (u : OnUnsupported) (by_scope : Bool)
    → (assert_delete_supported caps u by_scope ≡ ok tt)
      ↔ ((if by_scope then caps.supports_delete_by_scope else caps.supports_delete) ≡ true)
unfolding assert_delete_supported
assert_delete_supported_iff caps u by_scope = (λ h. ground arith, λ h. ground arith)
