-- ===== src/Types/ScopeLaws.antt =====
-- Laws of `Scope` in src/memgw/types.py: what its constructor accepts, and the tenant's stamp.
use router_memory_services.Prelude.{
  String, ◌≡◌, refl, Option, none, some, arith, is_set, strip_idem, if◌then◌else◌,
}
use router_memory_services.Dict.{Dict, lookup}
use router_memory_services.Errors.{ok}
use router_memory_services.Types.{
  Scope, build_scope, blank_is_none, dims, tenant_dim, subject_dim, agent_dim, session_dim, dim_eq,
}

-- A normalised optional text is not normalised further.
pub blank_is_none_idem : (v : Option String) → blank_is_none (blank_is_none v) ≡ blank_is_none v
unfolding blank_is_none
blank_is_none_idem none = refl
blank_is_none_idem (some v) = ground (arith, strip_idem v)

-- A scope that the constructor built is built again, unchanged, from its own fields.
pub build_scope-again :
    (subject : String) (agent session : Option String) (labels : Dict String String)
    (tenant : Option String) (scope : Scope)
    → build_scope subject agent session labels tenant ≡ ok scope
    → build_scope scope.subject scope.agent scope.session scope.labels scope.tenant ≡ ok scope
unfolding build_scope
build_scope-again subject agent session labels tenant scope h =
    ground (arith, blank_is_none_idem agent, blank_is_none_idem session)

-- `dims` names a dimension exactly when its text is set, and gives the text of the scope.
pub lookup-dims :
    (scope : Scope)
    → (lookup subject_dim (dims scope) ≡ some scope.subject)
      × (lookup tenant_dim (dims scope) ≡ (if is_set scope.tenant then scope.tenant else none))
      × (lookup agent_dim (dims scope) ≡ (if is_set scope.agent then scope.agent else none))
      × (lookup session_dim (dims scope) ≡ (if is_set scope.session then scope.session else none))
unfolding lookup dims
lookup-dims scope = ground arith
