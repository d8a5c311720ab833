-- ===== src/Observability.antt =====
-- src/memgw/observability.py: the audit trail. What is measured of the time of a verb is a parameter,
-- and so are the name and the code of an exception that is not the gateway's own.
pub mod Trails
use router_memory_services.Prelude.{ℕ, String, Option, none, some, List, [], ◌∷◌, ◌++◌, string_eq}
use router_memory_services.Dict.{Dict, merge}
use router_memory_services.Json.{Json, null, text}
use router_memory_services.Errors.{
  ErrorClass, internal_error, invalid_request, unauthenticated, tenant_mismatch, memory_not_found,
  provider_mismatch, unsupported_capability, provider_error, not_implemented, provider_unhealthy,
  Exn, gateway, integrity, validation, assertion, value_error, other, Result, ok, err,
}
use router_memory_services.Exec.{Exec}

pub data Level : Type 0 where
  info warning : Level

pub record Event : Type 0 where
  pub level : Level
  pub payload : Dict String Json

-- A state, `current_request_id`, and the records logged so far.
pub record Trail (W : Type 0) : Type 0 where
  pub world : W
  pub request_id : Option String
  pub events : List Event

-- type(exc).__name__ of the gateway's errors
unfoldable pub class_name : ErrorClass → String
class_name internal_error = "GatewayError"
class_name invalid_request = "InvalidRequest"
class_name unauthenticated = "Unauthenticated"
class_name tenant_mismatch = "TenantMismatch"
class_name memory_not_found = "MemoryNotFound"
class_name provider_mismatch = "ProviderMismatch"
class_name unsupported_capability = "UnsupportedCapability"
class_name provider_error = "ProviderError"
class_name not_implemented = "NotImplementedYet"
class_name provider_unhealthy = "ProviderUnhealthy"

abbrev pub text_or_none : Option String → Json
text_or_none none = null
text_or_none (some s) = text s

-- `perf_counter` before and after a verb, as the milliseconds between; the name and the code of an
-- exception from elsewhere.
pub record Meter (W : Type 0) : Type 0 where
  pub elapsed : W → W → Json
  pub type_name : Exn → String
  pub code_attr : Exn → Json

module _ {W : Type 0} (meter : Meter W) where
  -- The fields of the outcome that `observe` gives to `_emit`
  unfoldable pub failure : Exn → Dict String Json
  unfolding class_name
  failure (gateway e) =
      ("outcome", text "error") ∷ ("error", text (class_name e.kind)) ∷ ("code", text e.code) ∷ []
  failure e =
      ("outcome", text "error")
      ∷ ("error", text (meter.type_name e))
      ∷ ("code", meter.code_attr e)
      ∷ []

  abbrev pub level_of {ℓ} : {A : Type ℓ} → Result A → Level
  level_of (ok a) = info
  level_of (err e) = warning

  abbrev pub outcome_of {ℓ} : {A : Type ℓ} → Result A → Dict String Json
  outcome_of (ok a) = ("outcome", text "ok") ∷ []
  outcome_of (err e) = failure e

  -- `_emit`
  unfoldable pub emit :
      Level
      → String
      → String
      → Option String
      → Dict String Json
      → Json
      → Dict String Json
      → Trail W
      → Trail W
  unfolding merge failure
  emit level verb tenant subject extra ms outcome trail =
      let base : Dict String Json =
        ("verb", text verb)
        ∷ ("tenant", text tenant)
        ∷ ("subject", text_or_none subject)
        ∷ ("request_id", text_or_none trail.request_id)
        ∷ ("ms", ms)
        ∷ [] in
      record trail {
        events =
            trail.events
            ++ record { level = level; payload = merge (merge base extra) outcome } ∷ [];
      }

  -- `observe` around a body, which puts fields into the dictionary that it is given
  unfoldable pub observe {ℓ} :
      {A : Type ℓ}
      → String
      → String
      → Option String
      → Dict String Json
      → Exec (W × Dict String Json) A
      → Exec (Trail W) A
  unfolding emit
  observe verb tenant subject fields body trail =
      let done = body (trail.world, merge (("provider", null) ∷ []) fields) in
      (
        done.0,
        emit (level_of done.0) verb tenant subject done.1.1 (meter.elapsed trail.world done.1.0)
            (outcome_of done.0) (record trail { world = done.1.0 }),
      )
