-- ===== src/Server/App.antt =====
-- src/memgw/server/app.py: the handlers of exceptions and the middleware of `create_app`. The texts and
-- the details of an error, and what pydantic reports of an invalid body, are parameters.
use router_memory_services.Prelude.{
  ℕ, String, Option, none, some, List, [], ◌∷◌, ◌==◌, ◌||◌, string_eq, is_set, if◌then◌else◌,
}
use router_memory_services.Dict.{Dict, insert}
use router_memory_services.Json.{Json, arr, obj, Items, nil, cons, Fields, end, field}
use router_memory_services.Errors.{
  Result, ok, err, GatewayError, gateway, integrity, validation, assertion, value_error, other,
  plain, invalid_request,
}
use router_memory_services.Exec.{Exec}
use router_memory_services.Ids.{Ids, new_id}
use router_memory_services.Client.Remote.{to_body}
use router_memory_services.Observability.{Trail}

-- `JSONResponse`
pub record Reply : Type 0 where
  pub status_code : ℕ
  pub body : Json
  pub headers : Dict String String

-- What a handler reads of an exception; the clock and the random source, and the globals of `new_id`
-- in the state.
pub record Site (W : Type 0) : Type 0 where
  pub message : GatewayError → String
  pub details : GatewayError → Fields
  pub errors : List Fields
  pub clock : W → ℕ
  pub random : W → ℕ
  pub ids : W → Ids
  pub with_ids : Ids → W → W

abbrev pub json_response : GatewayError → String → Fields → Reply
json_response e message details = record {
  status_code = e.status;
  body = to_body e message details;
  headers = [];
}

-- {key: value for key, value in error.items() if key not in ("ctx", "url")}
unfoldable pub without_internals : Fields → Fields
without_internals end = end
without_internals (field key value rest) =
    let kept = without_internals rest in
    if (key == "ctx") || (key == "url") then kept else field key value kept

unfoldable pub reported : List Fields → Items
unfolding without_internals
reported [] = nil
reported (error ∷ errors) = cons (obj (without_internals error)) (reported errors)

module _ {W : Type 0} (site : Site W) where
  -- `_as_invalid_request`
  unfoldable pub as_invalid_request : Reply
  unfolding reported
  as_invalid_request =
      json_response (plain invalid_request) "request body is not valid"
        (field "errors" (arr (reported site.errors)) end)

  -- The handlers of exceptions; any other exception is raised further.
  unfoldable pub handled : Result Reply → Result Reply
  unfolding as_invalid_request to_body
  handled (ok reply) = ok reply
  handled (err (gateway e)) = ok (json_response e (site.message e) (site.details e))
  handled (err validation) = ok as_invalid_request
  handled (err integrity) = err integrity
  handled (err assertion) = err assertion
  handled (err value_error) = err value_error
  handled (err (other cause)) = err (other cause)

  -- incoming or new_id("req")
  unfoldable pub request_id_of : Option String → W → String × W
  unfolding new_id
  request_id_of none w =
      let (id, ids) = new_id "req" (site.clock w) (site.random w) (site.ids w) in
      (id, site.with_ids ids w)
  request_id_of (some incoming) w =
      if is_set (some incoming)
      then (incoming, w)
      else (let (id, ids) = new_id "req" (site.clock w) (site.random w) (site.ids w) in
          (id, site.with_ids ids w))

  -- response.headers["x-request-id"] = request_id
  abbrev pub echoed : String → Result Reply → Result Reply
  echoed id (ok reply) = ok (record reply { headers = insert "x-request-id" id reply.headers })
  echoed id (err e) = err e

  -- `_request_id` around the handlers of exceptions and a route
  unfoldable pub served : Option String → Exec (Trail W) Reply → Exec (Trail W) Reply
  unfolding request_id_of handled insert
  served incoming route trail =
      let (id, w) = request_id_of incoming trail.world in
      let done = route (record trail { world = w; request_id = some id }) in
      (echoed id (handled done.0), record done.1 { request_id = trail.request_id })
