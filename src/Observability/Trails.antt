-- ===== src/Observability/Trails.antt =====
-- What `observe` of src/memgw/observability.py leaves in the trail.
use router_memory_services.Prelude.{String, ◌≡◌, refl, Option, none, some, [], ◌∷◌, ◌++◌, string_eq}
use router_memory_services.Dict.{Dict, lookup, merge, lookup-merge}
use router_memory_services.Json.{Json, null, text}
use router_memory_services.Errors.{gateway, Result, ok, err}
use router_memory_services.Exec.{Exec}
use router_memory_services.Observability.{
  Event, Trail, Meter, text_or_none, outcome_of, failure, level_of, emit, observe,
}

module _ {W : Type 0} (meter : Meter W) where
  abbrev pub outcome_name {ℓ} : {A : Type ℓ} → Result A → String
  outcome_name (ok a) = "ok"
  outcome_name (err e) = "error"

  outcome_of-request_id {ℓ} :
      {A : Type ℓ} (r : Result A) → lookup "request_id" (outcome_of meter r) ≡ none
  unfolding lookup failure
  outcome_of-request_id (ok a) = refl
  outcome_of-request_id (err (gateway e)) = refl
  outcome_of-request_id (err e) = refl

  outcome_of-outcome {ℓ} :
      {A : Type ℓ} (r : Result A)
      → lookup "outcome" (outcome_of meter r) ≡ some (text (outcome_name r))
  unfolding lookup failure
  outcome_of-outcome (ok a) = refl
  outcome_of-outcome (err (gateway e)) = refl
  outcome_of-outcome (err e) = refl

  -- What the base says of a key, where neither the verb nor the outcome has it.
  merge-lookup :
      (base extra outcome : Dict String Json) (j : String)
      → lookup j outcome ≡ none
      → lookup j extra ≡ none
      → lookup j (merge (merge base extra) outcome) ≡ lookup j base
  merge-lookup base extra outcome j p q =
      rw (lookup-merge j (merge base extra) outcome, p, lookup-merge j base extra, q) refl

  -- What one event says of a call.
  abbrev pub Says {ℓ} : {A : Type ℓ} → Event → Option String → Result A → Type 0
  Says event id r =
      (event.level ≡ level_of meter r)
      × (lookup "request_id" event.payload ≡ some (text_or_none id))
      × (lookup "outcome" event.payload ≡ some (text (outcome_name r)))

  -- One event for a verb, whether it answers or raises, with the trail's request id.
  pub observe-logs {ℓ} :
      {A : Type ℓ} (verb tenant : String) (subject : Option String) (fields : Dict String Json)
      (body : Exec (W × Dict String Json) A) (trail : Trail W)
      → let done = body (trail.world, merge (("provider", null) ∷ []) fields) in
        lookup "request_id" done.1.1 ≡ none
        → (event : Event) × (observe meter verb tenant subject fields body trail
            ≡ (done.0, record trail { world = done.1.0; events = trail.events ++ event ∷ [] }))
          × Says event trail.request_id done.0
  unfolding observe emit lookup
  observe-logs verb tenant subject fields body trail absent =
      let done = body (trail.world, merge (("provider", null) ∷ []) fields) in
      (
        _,
        refl,
        (
          refl,
          merge-lookup _ done.1.1 (outcome_of meter done.0) "request_id"
              (outcome_of-request_id done.0) absent,
          rw
              (
                lookup-merge "outcome" (merge _ done.1.1) (outcome_of meter done.0),
                outcome_of-outcome done.0,
              )
              refl,
        ),
      )
