-- ===== src/Degrade.antt =====
-- src/memgw/degrade.py: which shortfalls of a provider may lower the quality of an answer, and which
-- are refused.
pub mod Rules
use router_memory_services.Prelude.{
  String, Bool, true, false, not, ◌&&◌, Option, none, some, List, [], ◌∷◌, elem, select, is_empty,
  map, if◌then◌else◌,
}
use router_memory_services.Dict.{Dict, lookup}
use router_memory_services.Errors.{Result, ok, err, raise, unsupported_capability, ◌>>=◌, ◌>>◌}
use router_memory_services.Types.{
  SearchMode, semantic, graph, temporal, hybrid, OnUnsupported, reject, degrade, Scope, Dim, dims,
  mode_eq, dim_eq,
}
use router_memory_services.Capabilities.{Capabilities}

abbrev pub substitutions : Dict SearchMode (SearchMode × List String)
substitutions =
    (graph, (semantic, "graph_traversal" ∷ []))
    ∷ (temporal, (semantic, "fact_invalidation" ∷ []))
    ∷ (hybrid, (semantic, "keyword_match" ∷ []))
    ∷ []

pub record DegradeResult : Type 0 where
  pub served : SearchMode
  pub degraded : Bool
  pub lost : List String

unfoldable pub assert_as_of_supported : Capabilities → Result (Unit {0})
assert_as_of_supported caps =
    if elem temporal caps.search_modes then ok tt else raise unsupported_capability

-- The last branches of `resolve_mode`: the substitute that the table gives, if it is available.
unfoldable pub substitute_mode :
    Option (SearchMode × List String) → Capabilities → Result DegradeResult
substitute_mode none caps = raise unsupported_capability
substitute_mode (some (served, lost)) caps =
    if elem served caps.search_modes
    then ok (record { served = served; degraded = true; lost = lost })
    else raise unsupported_capability

abbrev pub is_reject : OnUnsupported → Bool
is_reject reject = true
is_reject degrade = false

unfoldable pub resolve_mode : SearchMode → Capabilities → OnUnsupported → Result DegradeResult
unfolding substitute_mode lookup
resolve_mode requested caps on_unsupported =
    if elem requested caps.search_modes
    then ok (record { served = requested; degraded = false; lost = [] })
    else if is_reject on_unsupported
    then raise unsupported_capability
    else substitute_mode (lookup requested substitutions) caps

-- The dimensions of a scope that the provider does not declare.
unfoldable pub missing_dims : Scope → Capabilities → List Dim
missing_dims scope caps =
    select (λ d. not (elem d caps.scope_dims)) (map (λ (kv : Dim × String). kv.0) (dims scope))

unfoldable pub assert_scope_supported : Scope → Capabilities → OnUnsupported → Result (Unit {0})
assert_scope_supported scope caps on_unsupported =
    if not (is_empty (missing_dims scope caps))
    then raise unsupported_capability
    else if not (is_empty scope.labels) && not caps.supports_labels
    then raise unsupported_capability
    else ok tt

unfoldable pub assert_delete_supported : Capabilities → OnUnsupported → Bool → Result (Unit {0})
assert_delete_supported caps on_unsupported by_scope =
    if not (if by_scope then caps.supports_delete_by_scope else caps.supports_delete)
    then raise unsupported_capability
    else ok tt
