-- ===== src/Tests/OfSettings.antt =====
-- Runs of the models of src/memgw/settings.py, src/memgw/client.py and src/memgw/embedding.py.
use router_memory_services.Prelude.{
  ℕ, String, ◌≡◌, refl, Option, none, some, List, [], ◌∷◌, is_blank, is_empty, true, false, arith,
}
use router_memory_services.Dict.{Dict}
use router_memory_services.Json.{Json, text, arr, obj, cons, nil, end, field, null}
use router_memory_services.Errors.{
  Result, ok, err, other, gateway, plain, make_error, memory_not_found, internal_error,
}
use router_memory_services.Server.Auth.{Principal, authenticate, by_digest}
use router_memory_services.Settings.Parsing.{api_keys}
use router_memory_services.Settings.Loading.{Settings, from_env, settings_of}
use router_memory_services.Settings.Ready.{IsReady, from_env-IsReady}
use router_memory_services.Settings.Tenants.{api_keys-named}
use router_memory_services.Cli.Doctor.{Check, Host, doctor}
use router_memory_services.Cli.Reports.{doctor-IsReady, doctor-answers}
use router_memory_services.Client.Remote.{received, response_of, received-response_of}

abbrev int : String → Result ℕ
int s = ok 6333

abbrev env : Dict String String
env =
    ("MEMGW_PROVIDERS", "mem0, pgvector")
    ∷ ("MEMGW_API_KEYS", "k1:acme, k2")
    ∷ ("OPENAI_API_KEY", "sk")
    ∷ []

abbrev made : Settings ℕ
made = (elim (from_env int env) [ ok s ↦ s | err e ↦ settings_of [] [] "" none 0 ])

from_env-IsReady_example : IsReady made
unfolding from_env
from_env-IsReady_example = from_env-IsReady int env made refl

abbrev someone : Principal
someone = record { tenant_id = "default"; key_id = "k2" }

api_keys-named_example : is_blank "default" ≡ false
unfolding authenticate api_keys by_digest
api_keys-named_example = api_keys-named (λ s. s) "k1:acme, k2" (some "Bearer k2") someone refl

received-response_of_example :
    received (response_of (plain memory_not_found) "no such memory" end "…")
    ≡ err (gateway (record { kind = internal_error; code = "memory_not_found"; status = 404 }))
unfolding make_error
received-response_of_example =
    received-response_of (plain memory_not_found) "no such memory" end "…" refl

abbrev reply : String → Option Json
reply s = some (obj (field "facts" (arr (cons (text " likes tea ") (cons null nil))) end))

-- A machine where everything answers, but no qdrant listens, and the provider's probe fails.
abbrev machine : Host (Unit {0}) ℕ ℕ ℕ
machine = record {
  int = int;
  open_catalog = λ url w. (ok 1, w);
  init = λ c w. (ok tt, w);
  schema_state = λ c w. (ok (record { current = some "0001"; head = some "0001" }), w);
  upgrade = λ c w. (ok tt, w);
  close = λ c w. (ok tt, w);
  connect = λ host port w. (err (other "refused"), w);
  is_os_error = λ e. true;
  build = λ name s w. (ok 7, w);
  self_test = λ a. some λ w. (err (other "quota"), w);
}

doctor-answers_example : (report : List Check) × ((doctor machine env true none tt).0 ≡ ok report)
unfolding from_env
doctor-answers_example =
    doctor-answers machine env true none tt (λ raw x e. absurd (ground arith)) (λ c v. refl)
      (λ s v x q e. refl)

-- The same keys, for pgvector alone.
abbrev plain_env : Dict String String
plain_env = ("MEMGW_API_KEYS", "k1:acme") ∷ ("OPENAI_API_KEY", "sk") ∷ []

abbrev report_of : Result (List Check) → List Check
report_of (ok report) = report
report_of (err e) = []

doctor-IsReady_example :
    (s : Settings ℕ) × (from_env int plain_env ≡ ok s) × IsReady s × (is_empty s.keys ≡ false)
unfolding doctor
doctor-IsReady_example =
    doctor-IsReady machine plain_env false none tt
      (report_of (doctor machine plain_env false none tt).0) refl refl
