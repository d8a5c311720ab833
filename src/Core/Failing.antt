-- ===== src/Core/Failing.antt =====
-- How `search` of src/memgw/core.py fails, and what a write leaves behind when its provider fails.
use router_memory_services.Prelude.{
  String, ◌≡◌, refl, ap, ◌∙◌, ◌⊎◌, inl, inr, Bool, true, false, Option, none, [], arith, Bool-cases,
  if◌then◌else◌,
}
use router_memory_services.Errors.{
  GatewayError, Result, ErrorClass, internal_error, invalid_request, unauthenticated,
  tenant_mismatch, memory_not_found, provider_mismatch, unsupported_capability, not_implemented,
  Exn, ok, err, gateway, integrity, validation, assertion, value_error, other, raise, plain,
  provider_unhealthy, provider_error,
}
use router_memory_services.Exec.{Exec}
use router_memory_services.Types.{Scope, Episode, SearchQuery, HealthStatus}
use router_memory_services.Degrade.{DegradeResult, resolve_mode}
use router_memory_services.Adapter.{Adapter}
use router_memory_services.Core.State.{Core, World, SearchResult}
use router_memory_services.Core.Internals.{prepare, call, failure, is_down}
use router_memory_services.Core.Writes.{ingest, require}
use router_memory_services.Core.Reads.{
  search, search_end, check_as_of, is_refused, is_refusal, effective,
}
use router_memory_services.Core.Prepared.{prepare-state}

-- What the gateway takes for a refusal of the request and not for an outage
abbrev pub IsRefusal : Exn → Type 0
IsRefusal e =
    (g : GatewayError) × (e ≡ gateway g)
    × ((g.kind ≡ unsupported_capability) ⊎ (g.kind ≡ invalid_request))

-- A health check that raises, or says that the provider is not well; and one that says it is.
abbrev pub IsDown : Result HealthStatus → Type 0
IsDown r =
    ((x : Exn) × (r ≡ err x)) ⊎ ((health : HealthStatus) × (r ≡ ok health) × (health.ok ≡ false))

abbrev pub IsUp : Result HealthStatus → Type 0
IsUp r = (health : HealthStatus) × (r ≡ ok health) × (health.ok ≡ true)

abbrev pub no_answer : String → SearchResult
no_answer name = record {
  results = [];
  provider = name;
  degraded = false;
  requested = none;
  served = none;
  lost = [];
  provider_unavailable = true;
}

is_refusal-kind :
    (k : ErrorClass) → is_refusal k ≡ true → (k ≡ unsupported_capability) ⊎ (k ≡ invalid_request)
is_refusal-kind internal_error h = absurd (ground arith)
is_refusal-kind invalid_request h = inr refl
is_refusal-kind unauthenticated h = absurd (ground arith)
is_refusal-kind tenant_mismatch h = absurd (ground arith)
is_refusal-kind memory_not_found h = absurd (ground arith)
is_refusal-kind provider_mismatch h = absurd (ground arith)
is_refusal-kind unsupported_capability h = inl refl
is_refusal-kind provider_error h = absurd (ground arith)
is_refusal-kind not_implemented h = absurd (ground arith)
is_refusal-kind provider_unhealthy h = absurd (ground arith)

IsRefusal-is_refused : (e : Exn) → IsRefusal e → is_refused e ≡ true
IsRefusal-is_refused e (g, p, inl k) = rw p (ap is_refusal k)
IsRefusal-is_refused e (g, p, inr k) = rw p (ap is_refusal k)

is_refused-IsRefusal : (e : Exn) → is_refused e ≡ true → IsRefusal e
is_refused-IsRefusal (gateway g) h = (g, refl, is_refusal-kind g.kind h)
is_refused-IsRefusal integrity h = absurd (ground arith)
is_refused-IsRefusal validation h = absurd (ground arith)
is_refused-IsRefusal assertion h = absurd (ground arith)
is_refused-IsRefusal value_error h = absurd (ground arith)
is_refused-IsRefusal (other cause) h = absurd (ground arith)

-- What a search gives whose provider raises, by the three tests
abbrev outcome : String → Exn → Bool → Bool → Bool → Result SearchResult
outcome name e refused fail_open down =
    if refused
    then err e
    else if fail_open
    then ok (no_answer name)
    else if down
    then raise provider_unhealthy
    else raise provider_error

refused-cases :
    (e : Exn) → (IsRefusal e × (is_refused e ≡ true)) ⊎ ((¬ IsRefusal e) × (is_refused e ≡ false))
refused-cases e = elim (Bool-cases (is_refused e)) [
  | inl h ↦ inl (is_refused-IsRefusal e h, h)
  | inr h ↦ inr (λ own. absurd (ground (arith, IsRefusal-is_refused e own, h)), h)
]

health-cases :
    (r : Result HealthStatus) → (IsDown r × (is_down r ≡ true)) ⊎ (IsUp r × (is_down r ≡ false))
health-cases (err x) = inl (inl (x, refl), refl)
health-cases (ok health) = elim (Bool-cases health.ok) [
  | inl h ↦ inr ((health, refl, h), ground (arith, h))
  | inr h ↦ inl (inr (health, refl, h), ground (arith, h))
]

module _ {P : Type 0} (core : Core P) (tenant : String) (query : SearchQuery) (scope : Scope)
    (asserted : Option String) (w : World P) where
  -- What the gateway itself refuses is raised before the provider is asked, whether the query fails
  -- open or not: a scope that cannot be prepared, a point in time that the provider cannot answer
  -- for, and a mode that can be neither served nor replaced. Nothing changes.
  pub search-refused :
      (e : Exn)
      → ((prepare core tenant scope asserted w).0 ≡ err e)
        ⊎ ((name : String) × (a : Adapter P) × (bound : Scope) × ((prepare core tenant scope
                asserted w).0
              ≡ ok (name, a, bound))
            × ((check_as_of query.as_of a.capabilities ≡ err e)
                ⊎ ((check_as_of query.as_of a.capabilities ≡ ok tt)
                    × (resolve_mode query.mode a.capabilities query.on_unsupported ≡ err e))))
      → search core tenant query scope asserted w ≡ (err e, w)
  unfolding search
  search-refused e (inl p) = rw (p, prepare-state core tenant scope asserted w)
  search-refused e (inr (name, a, bound, p, inl q)) =
      rw (p, prepare-state core tenant scope asserted w, q)
  search-refused e (inr (name, a, bound, p, inr (q, r))) =
      rw (p, prepare-state core tenant scope asserted w, q, r)

  -- When a search is let through to the provider and the provider raises, the refusals
  -- `UnsupportedCapability` and `InvalidRequest` are raised whether the query fails open or not; any
  -- other exception gives no results and says that the provider is unavailable if the query fails
  -- open, and else raises `ProviderUnhealthy` if the health check raises or is not ok, and
  -- `ProviderError` if it is ok. The catalog is unchanged.
  pub search-provider_raises :
      (name : String) (a : Adapter P) (bound : Scope) (decision : DegradeResult) (e : Exn)
      → (prepare core tenant scope asserted w).0 ≡ ok (name, a, bound)
      → check_as_of query.as_of a.capabilities ≡ ok tt
      → resolve_mode query.mode a.capabilities query.on_unsupported ≡ ok decision
      → (a.search (effective query decision a.capabilities) bound w.store).0 ≡ err e
      → let health =
          (a.health (a.search (effective query decision a.capabilities) bound w.store).1).0 in
        let out = search core tenant query scope asserted w in
        ((IsRefusal e × (out.0 ≡ err e))
          ⊎ ((¬ IsRefusal e) × (query.fail_open ≡ true) × (out.0 ≡ ok (no_answer name)))
          ⊎ ((¬ IsRefusal e)
              × (query.fail_open ≡ false)
              × IsDown health
              × (out.0 ≡ raise provider_unhealthy))
          ⊎ ((¬ IsRefusal e)
              × (query.fail_open ≡ false)
              × IsUp health
              × (out.0 ≡ raise provider_error)))
        × (out.1.catalog ≡ w.catalog)
  unfolding search search_end failure
  search-provider_raises name a bound decision e p q r s =
      let after = (a.search (effective query decision a.capabilities) bound w.store).1 in
      let state = prepare-state core tenant scope asserted w in
      let ends : (search core tenant query scope asserted w).0
          ≡ outcome name e (is_refused e) query.fail_open (is_down (a.health after).0) =
        rw (p, state, q, r, s) (ground arith) in
      (
        elim (refused-cases e) [
          | inl (own, f) ↦ inl (
            own,
            ends ∙ ap (λ b. outcome name e b query.fail_open (is_down (a.health after).0)) f,
          )
          | inr (outage, f) ↦
              let fails =
                ends ∙ ap (λ b. outcome name e b query.fail_open (is_down (a.health after).0)) f in
              elim (Bool-cases query.fail_open) [
                | inl o ↦ inr (
                    inl (
                      outage,
                      o,
                      fails ∙ ap (λ b. outcome name e false b (is_down (a.health after).0)) o,
                    ))
                | inr o ↦
                    let closed =
                      fails ∙ ap (λ b. outcome name e false b (is_down (a.health after).0)) o in
                    elim (health-cases (a.health after).0) [
                      | inl (down, d) ↦
                          inr (
                            inr (inl (outage, o, down, closed ∙ ap (outcome name e false false) d)))
                      | inr (up, d) ↦
                          inr
                            (inr (inr (outage, o, up, closed ∙ ap (outcome name e false false) d)))
                    ]
              ]
        ],
        rw (p, state, q, r, s) (ground arith),
      )

abbrev pub is_gateway : Exn → Bool
is_gateway (gateway e) = true
is_gateway _ = false

-- What a failure of the provider becomes for the caller of a write.
abbrev pub reported : Exn → Bool → Exn
reported e down =
    if is_gateway e
    then e
    else gateway (plain (if down then provider_unhealthy else provider_error))

module _ {P : Type 0} where
  call-raises {ℓ} :
      {A : Type ℓ} (a : Adapter P) (m : Exec P A) (w : World P) (e : Exn)
      → (m w.store).0 ≡ err e
      → ((call a m w).0 ≡ err (reported e (is_down (a.health (m w.store).1).0)))
        × ((call a m w).1.catalog ≡ w.catalog)
  unfolding call failure
  call-raises a m w (gateway g) h = (rw (h), rw (h))
  call-raises a m w integrity h = (rw (h) (ground arith), rw (h))
  call-raises a m w validation h = (rw (h) (ground arith), rw (h))
  call-raises a m w assertion h = (rw (h) (ground arith), rw (h))
  call-raises a m w value_error h = (rw (h) (ground arith), rw (h))
  call-raises a m w (other cause) h = (rw (h) (ground arith), rw (h))

module _ {P : Type 0} (core : Core P) (tenant : String) (scope : Scope) (asserted : Option String)
    (w : World P) (name : String) (a : Adapter P) (bound : Scope) (e : Exn) where
  -- A write never fails open: when an `ingest` is let through to the provider and the provider raises, the call raises, with the
  -- provider's error if that is one of the gateway's and else with one that says by the health check
  -- whether the provider is down; and nothing is recorded, bound or journaled.
  pub ingest-provider_raises :
      (episode : Episode)
      → (prepare core tenant scope asserted w).0 ≡ ok (name, a, bound)
      → a.capabilities.supports_ingest ≡ true
      → (a.ingest episode bound w.store).0 ≡ err e
      → ((ingest core tenant episode scope asserted w).0
          ≡ err (reported e (is_down (a.health (a.ingest episode bound w.store).1).0)))
        × ((ingest core tenant episode scope asserted w).1.catalog ≡ w.catalog)
  unfolding ingest
  ingest-provider_raises episode p supported h =
      let granted : require a.capabilities.supports_ingest ≡ ok tt = ground arith in
      let failed = call-raises a (a.ingest episode bound) w e h in
      (
        rw (p, prepare-state core tenant scope asserted w, granted, failed.0),
        rw (p, prepare-state core tenant scope asserted w, granted, failed.0) (failed.1),
      )
