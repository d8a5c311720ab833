-- ===== src/Server/Audit.antt =====
-- That a request, its reply and its event in the audit trail bear one id (src/memgw/server/app.py and
-- src/memgw/observability.py).
use router_memory_services.Prelude.{
  ℕ, String, ◌≡◌, refl, Option, none, some, [], ◌∷◌, ◌++◌, string_eq, ap,
}
use router_memory_services.Dict.{Dict, lookup, merge, lookup-insert_self}
use router_memory_services.Json.{Json, null}
use router_memory_services.Errors.{
  Result, make_error, class_status, ok, err, gateway, integrity, validation, assertion, value_error,
  other,
}
use router_memory_services.Exec.{Exec}
use router_memory_services.Observability.{Event, Trail, Meter, observe}
use router_memory_services.Observability.Trails.{Says, observe-logs}
use router_memory_services.Server.App.{
  Reply, Site, json_response, as_invalid_request, handled, request_id_of, echoed, served,
}

abbrev pub IsMarked : String → ℕ → Result Reply → Type 0
IsMarked id status out =
    (reply : Reply) × (out ≡ ok reply)
    × (reply.status_code ≡ status)
    × (lookup "x-request-id" reply.headers ≡ some id)

-- How a verb's outcome is answered: with the status of what it gives or of its error, and with the id;
-- an exception of another kind is raised further.
abbrev pub IsAnswered : {A : Type 0} → (A → Reply) → String → Result A → Result Reply → Type 0
IsAnswered render id (ok a) out = IsMarked id (render a).status_code out
IsAnswered render id (err (gateway e)) out = IsMarked id e.status out
IsAnswered render id (err validation) out = IsMarked id 400 out
IsAnswered render id (err integrity) out = out ≡ err integrity
IsAnswered render id (err assertion) out = out ≡ err assertion
IsAnswered render id (err value_error) out = out ≡ err value_error
IsAnswered render id (err (other cause)) out = out ≡ err (other cause)

module _ {W : Type 0} (site : Site W) {A : Type 0} (render : A → Reply) where
  abbrev pub rendered : Result A → Result Reply
  rendered (ok a) = ok (render a)
  rendered (err e) = err e

  -- A route that runs one verb and puts what it gives into a reply
  abbrev pub route : Exec (Trail W) A → Exec (Trail W) Reply
  route verb trail = let done = verb trail in (rendered done.0, done.1)

  marked : (id : String) (reply : Reply) → IsMarked id reply.status_code (echoed site id (ok reply))
  marked id reply = (_, refl, refl, lookup-insert_self "x-request-id" id reply.headers)

  handled-IsAnswered :
      (id : String) (r : Result A)
      → IsAnswered render id r (echoed site id (handled site (rendered r)))
  unfolding handled as_invalid_request make_error class_status
  handled-IsAnswered id (ok a) = marked id (render a)
  handled-IsAnswered id (err (gateway e)) =
      marked id (json_response e (site.message e) (site.details e))
  handled-IsAnswered id (err validation) = marked id (as_invalid_request site)
  handled-IsAnswered id (err integrity) = refl
  handled-IsAnswered id (err assertion) = refl
  handled-IsAnswered id (err value_error) = refl
  handled-IsAnswered id (err (other cause)) = refl

module _ {W : Type 0} (site : Site W) (meter : Meter W) {A : Type 0} (render : A → Reply)
    (verb tenant : String) (subject : Option String) (fields : Dict String Json)
    (body : Exec (W × Dict String Json) A) (incoming : Option String) (trail : Trail W) where
  -- The id of the request, and what the body of the verb does
  abbrev pub id : String
  id = (request_id_of site incoming trail.world).0

  abbrev pub done : Result A × (W × Dict String Json)
  done = body ((request_id_of site incoming trail.world).1, merge (("provider", null) ∷ []) fields)

  abbrev pub out : Result Reply × Trail W
  out =
      served site incoming (route site render (observe meter verb tenant subject fields body)) trail

  -- A request whose route runs one verb logs one event, which has the request's id and the outcome,
  -- leaves the id of the context as it was, and gets a reply with that id and the status of the
  -- outcome; if the exception is one that has no handler, it is raised. The verb must not log a field
  -- "request_id" of its own.
  pub served-IsAnswered :
      lookup "request_id" done.1.1 ≡ none
      → (event : Event) × (out.1
          ≡ record trail { world = done.1.0; events = trail.events ++ event ∷ [] })
        × Says meter event (some id) done.0
        × IsAnswered render id done.0 out.0
  unfolding served
  served-IsAnswered absent =
      let start : Trail W = record {
        world = (request_id_of site incoming trail.world).1;
        request_id = some id;
        events = trail.events;
      } in
      let (event, p, says) = observe-logs meter verb tenant subject fields body start absent in
      (
        event,
        (λ i. record trail { world = (p i).1.world; events = (p i).1.events }),
        says,
        rw (ap (λ (x : Result A × Trail W). x.0) p) (handled-IsAnswered site render id done.0),
      )
