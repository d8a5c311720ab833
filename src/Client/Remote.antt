-- ===== src/Client/Remote.antt =====
-- The requests of src/memgw/client.py, and the bodies of the errors that src/memgw/errors.py makes for
-- them. httpx sends a request and reads the answer's JSON: both are parameters.
use router_memory_services.Prelude.{
  ℕ, String, ◌≡◌, refl, true, Option, none, some, ◌||◌, nat_beq, leb, is_blank, if◌then◌else◌,
}
use router_memory_services.Json.{Json, null, flag, num, text, arr, obj, Fields, end, field}
use router_memory_services.Errors.{
  Result, ok, err, gateway, other, GatewayError, internal_error, make_error,
}
use router_memory_services.Exec.{Exec}
use router_memory_services.Embedding.{get_field}

-- What `_request` reads of a response; `json` is nothing where its text is no JSON.
pub record Response : Type 0 where
  pub status_code : ℕ
  pub content : String
  pub json : Option Json

-- `GatewayError.to_body`, with the message and the details of the error
unfoldable pub to_body : GatewayError → String → Fields → Json
to_body e message details = obj (
    field "error"
      (obj (
        field "code" (text e.code)
          (field "message" (text message) (field "details" (obj details) end))))
      end)

-- response.json()["error"]
abbrev pub error_of : Option Json → Option Json
error_of none = none
error_of (some (obj fields)) = get_field "error" fields
error_of (some null) = none
error_of (some (flag b)) = none
error_of (some (num x)) = none
error_of (some (text s)) = none
error_of (some (arr items)) = none

-- payload.get("code"); a code that is no text is not distinguished from a missing one.
abbrev pub code_of : Option Json → Option String
code_of (some (text code)) = some code
code_of none = none
code_of (some null) = none
code_of (some (flag b)) = none
code_of (some (num x)) = none
code_of (some (arr items)) = none
code_of (some (obj fields)) = none

abbrev no_attribute {ℓ} : {A : Type ℓ} → Result A
no_attribute = err (other "AttributeError")

-- `_to_error`, by what stands under "error"; only a dictionary has a `get`.
unfoldable pub rebuilt : ℕ → Option Json → Result GatewayError
unfolding get_field make_error
rebuilt status none = ok (make_error internal_error none (some status))
rebuilt status (some (obj payload)) =
    ok (make_error internal_error (code_of (get_field "code" payload)) (some status))
rebuilt status (some null) = err (other "AttributeError")
rebuilt status (some (flag b)) = err (other "AttributeError")
rebuilt status (some (num x)) = err (other "AttributeError")
rebuilt status (some (text s)) = err (other "AttributeError")
rebuilt status (some (arr items)) = err (other "AttributeError")

unfoldable pub to_error : Response → Result GatewayError
unfolding rebuilt get_field
to_error response = rebuilt response.status_code (error_of response.json)

abbrev pub raised {ℓ} : {A : Type ℓ} → Result GatewayError → Result A
raised (ok e) = err (gateway e)
raised (err x) = err x

abbrev pub parsed : Option Json → Result (Option Json)
parsed none = err (other "JSONDecodeError")
parsed (some json) = ok (some json)

-- What `_request` makes of a response
unfoldable pub received : Response → Result (Option Json)
unfolding to_error
received response =
    if leb 400 response.status_code
    then raised (to_error response)
    else if nat_beq response.status_code 204 || is_blank response.content
    then ok none
    else parsed response.json

-- `_request`
unfoldable pub request :
    {P : Type 0}
    → (String → String → Option Json → Exec P Response)
    → String
    → String
    → Option Json
    → Exec P (Option Json)
unfolding received
request send method path body s =
    let outcome = send method path body s in
    (elim outcome.0 [ ok r ↦ received r | err e ↦ err e ], outcome.1)

-- The response that a gateway gives for an error, as its exception handler does.
abbrev pub response_of : GatewayError → String → Fields → String → Response
unfolding to_body
response_of e message details content = record {
  status_code = e.status;
  content = content;
  json = some (to_body e message details);
}

-- An error of the gateway that reaches a client as a response is raised there with its code and its
-- status, if the status is 400 or above; but its class is the base class, whichever it was.
pub received-response_of :
    (e : GatewayError) (message : String) (details : Fields) (content : String)
    → leb 400 e.status ≡ true
    → received (response_of e message details content)
      ≡ err (gateway (record { kind = internal_error; code = e.code; status = e.status }))
unfolding received to_error rebuilt to_body make_error get_field
received-response_of e message details content h = rw h refl
