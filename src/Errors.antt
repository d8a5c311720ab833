-- ===== src/Errors.antt =====
-- src/memgw/errors.py: the gateway's error vocabulary. An error is carried as its class, its code
-- and its HTTP status; the message and the details, which are texts for the caller, are left out.
-- Other Python exceptions that the modelled code can raise are constructors of `Exn`.
use router_memory_services.Prelude.{ℕ, String, Option, none, some, ◌≡◌, refl, ◌⊎◌, inl, inr}

pub data ErrorClass : Type 0 where
  internal_error invalid_request unauthenticated tenant_mismatch memory_not_found : ErrorClass
  provider_mismatch unsupported_capability provider_error not_implemented : ErrorClass
  provider_unhealthy : ErrorClass

-- The class attribute `code`.
unfoldable pub class_code : ErrorClass → String
class_code internal_error = "internal_error"
class_code invalid_request = "invalid_request"
class_code unauthenticated = "unauthenticated"
class_code tenant_mismatch = "tenant_mismatch"
class_code memory_not_found = "memory_not_found"
class_code provider_mismatch = "provider_mismatch"
class_code unsupported_capability = "unsupported_capability"
class_code provider_error = "provider_error"
class_code not_implemented = "not_implemented"
class_code provider_unhealthy = "provider_unhealthy"

-- The class attribute `status`.
unfoldable pub class_status : ErrorClass → ℕ
class_status internal_error = 500
class_status invalid_request = 400
class_status unauthenticated = 401
class_status tenant_mismatch = 403
class_status memory_not_found = 404
class_status provider_mismatch = 409
class_status unsupported_capability = 422
class_status provider_error = 424
class_status not_implemented = 501
class_status provider_unhealthy = 503

pub record GatewayError : Type 0 where
  pub kind : ErrorClass
  pub code : String
  pub status : ℕ

abbrev or_default {ℓ} : {A : Type ℓ} → Option A → A → A
or_default none d = d
or_default (some a) d = a

-- `GatewayError.__init__`: a code and a status given to the call override those of the class.
unfoldable pub make_error : ErrorClass → Option String → Option ℕ → GatewayError
unfolding class_code class_status
make_error kind code status = record {
  kind = kind;
  code = or_default code (class_code kind);
  status = or_default status (class_status kind);
}

-- `raise SomeError(message, details=…)`
abbrev pub plain : ErrorClass → GatewayError
plain kind = make_error kind none none

-- `raise SomeError(message, code=…)`
abbrev pub with_code : ErrorClass → String → GatewayError
with_code kind code = make_error kind (some code) none

-- `IntegrityError` of the database, pydantic's `ValidationError`, a failed `assert`, a `KeyError`,
-- a `ValueError` and whatever a provider's client raises.
pub data Exn : Type 0 where
  gateway : GatewayError → Exn
  integrity validation assertion value_error : Exn
  other : String → Exn

-- What a call gives: what it raises, or what it returns.
pub data Result {κ} (T : Type κ) : Type κ where
  err : Exn → Result T
  ok : T → Result T

infixl 5 ◌>>=◌ ◌>>◌
abbrev pub ◌>>=◌ {ℓ κ} : {A : Type ℓ} {B : Type κ} → Result A → (A → Result B) → Result B
err e >>= next = err e
ok a >>= next = next a

abbrev pub ◌>>◌ {ℓ} : {B : Type ℓ} → Result (Unit {0}) → Result B → Result B
m >> k = m >>= λ _. k

abbrev pub raise {ℓ} : {A : Type ℓ} → ErrorClass → Result A
raise kind = err (gateway (plain kind))

pub Result-cases {ℓ} :
    {A : Type ℓ} (r : Result A) → ((e : Exn) × (r ≡ err e)) ⊎ ((a : A) × (r ≡ ok a))
Result-cases (ok a) = inr (a, refl)
Result-cases (err e) = inl (e, refl)
