-- ===== src/Router.antt =====
-- src/memgw/router.py: which provider serves an end-user.
pub mod Resolution
use router_memory_services.Prelude.{
  String, Bool, true, false, not, Option, none, some, ◌==◌, string_eq, is_set, if◌then◌else◌,
}
use router_memory_services.Errors.{
  Result, ok, err, gateway, with_code, raise, invalid_request, provider_mismatch,
}
use router_memory_services.Exec.{Exec, lift, continue, ◌>>=◌}
use router_memory_services.Catalog.Store.{Catalog}
use router_memory_services.Catalog.Bindings.{get_binding}

-- `asserted is not None and asserted != resolved`
abbrev pub disagrees : Option String → String → Bool
disagrees none resolved = false
disagrees (some asserted) resolved = not (asserted == resolved)

-- The checks on `resolved = bound or default_provider`.
unfoldable pub check_resolved : Option String → Option String → Result String
check_resolved none asserted = err (gateway (with_code invalid_request "no_provider_resolved"))
check_resolved (some resolved) asserted =
    if disagrees asserted resolved then raise provider_mismatch else ok resolved

unfoldable pub resolve_provider :
    String → String → Option String → Option String → Exec Catalog String
unfolding check_resolved get_binding
resolve_provider tenant subject default_provider asserted = do
  bound ← get_binding tenant subject
  lift (check_resolved (if is_set bound then bound else default_provider) asserted)
