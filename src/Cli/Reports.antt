-- ===== src/Cli/Reports.antt =====
-- What a report of src/memgw/cli.py says, and that there is one.
use router_memory_services.Prelude.{
  String, ◌≡◌, refl, sym, ◌∙◌, Bool, true, false, not, Option, List, [], ◌∷◌, ◌++◌, string_eq, elem,
  is_empty, arith, Bool-cases, Option-cases, inl, inr, if◌then◌else◌,
}
use router_memory_services.Dict.{Dict, lookup}
use router_memory_services.Errors.{
  Exn, Result, ok, err, value_error, gateway, integrity, validation, assertion, other, Result-cases,
}
use router_memory_services.Exec.{pure}
use router_memory_services.Settings.Loading.{Settings, from_env}
use router_memory_services.Settings.Ready.{IsReady, from_env-IsReady}
use router_memory_services.Settings.Refused.{from_env-value_error}
use router_memory_services.Cli.Doctor.{
  Check, check, is_ok, Host, schema_check, check_opened, check_catalog, check_mem0, probe_built,
  probed, adapter_of, probe_providers, examine, by_settings, doctor, check_zep,
  warn_about_experimental, flagged_off,
}

module _ {W N C A : Type 0} (h : Host W N C A) (e : Dict String String) (probe : Bool)
    (adapters : Option (Dict String A)) where
  abbrev telemetry : List Check
  telemetry = check "mem0_telemetry" (flagged_off (lookup "MEM0_TELEMETRY" e)) ∷ []

  -- The report, by what the catalog, mem0's store and the probes give
  abbrev full : Settings N → List Check → List Check → List Check → List Check
  full s c m r =
      check "settings" true ∷ check "api_keys" (not (is_empty s.keys)) ∷ c
      ++ m
      ++ check_zep h s
      ++ warn_about_experimental s
      ++ r

  examine-checks :
      (s : Settings N) (w : W) (report : List Check)
      → (examine h e probe adapters s w).0 ≡ ok report
      → is_ok report ≡ true
      → is_empty s.keys ≡ false
  unfolding examine
  examine-checks s w report p t =
      let catalog = check_catalog h s w in
      let mem0 = check_mem0 h e s catalog.1 in
      let probes : Result (List Check) × W =
        (if probe then probe_providers h adapters s s.providers else pure []) mem0.1 in
      elim (Result-cases catalog.0) [
        | inl (x, a) ↦ absurd (ground (arith, a, p))
        | inr (c, a) ↦ elim (Result-cases mem0.0) [
          | inl (x, b) ↦ absurd (ground (arith, a, b, p))
          | inr (m, b) ↦ elim (Result-cases probes.0) [
            | inl (x, d) ↦ absurd (ground (arith, a, b, d, p))
            | inr (r, d) ↦
                let ends : (examine h e probe adapters s w).0 ≡ ok (full s c m r) =
                  rw (a, b, d) refl in
                ground (arith, sym ends ∙ p, t)
          ]
        ]
      ]

  refused :
      (x : Exn) (w : W) (report : List Check)
      → (by_settings h e probe adapters (err x) w).0 ≡ ok report
      → is_ok report ≡ false
  refused value_error w report p = ground (arith, p)
  refused (gateway x) w report p = absurd (ground (arith, p))
  refused integrity w report p = absurd (ground (arith, p))
  refused validation w report p = ground (arith, p)
  refused assertion w report p = absurd (ground (arith, p))
  refused (other cause) w report p = absurd (ground (arith, p))

  -- A report without a failure is one of a configuration that is ready, with a key at least, so that
  -- `serve` starts on no other.
  pub doctor-IsReady :
      (w : W) (report : List Check)
      → (doctor h e probe adapters w).0 ≡ ok report
      → is_ok report ≡ true
      → (s : Settings N) × (from_env h.int e ≡ ok s) × IsReady s × (is_empty s.keys ≡ false)
  unfolding doctor
  doctor-IsReady w report p t = elim (Result-cases (from_env h.int e)) [
    | inl (x, q) ↦ absurd (
        ground (
          arith,
          refused x w report ((λ i. (by_settings h e probe adapters (sym q i) w).0) ∙ p),
          t,
        ))
    | inr (s, q) ↦ (
      s,
      q,
      from_env-IsReady h.int e s q,
      examine-checks s w report ((λ i. (by_settings h e probe adapters (sym q i) w).0) ∙ p) t,
    )
  ]

  probe_built-answers :
      (name : String) (built : Result A) (w : W)
      → (checks : List Check) × ((probe_built h name built w).0 ≡ ok checks)
  probe_built-answers name (err x) w = (probed h name (err x) ∷ [], refl)
  probe_built-answers name (ok adapter) w = elim (Option-cases (h.self_test adapter)) [
    | inl p ↦ ([], rw (probe_built, p) refl)
    | inr (test, p) ↦ (probed h name (test w).0 ∷ [], rw (probe_built, p) refl)
  ]

  probe_providers-answers :
      (s : Settings N) (names : List String) (w : W)
      → (checks : List Check) × ((probe_providers h adapters s names w).0 ≡ ok checks)
  unfolding probe_providers
  probe_providers-answers s [] w = ([], refl)
  probe_providers-answers s (name ∷ names) w =
      let built = adapter_of h adapters s name w in
      let (checks, p) = probe_built-answers name built.0 built.1 in
      let (rest, q) = probe_providers-answers s names (probe_built h name built.0 built.1).1 in
      (checks ++ rest, rw (p, q) refl)

  probes-answers :
      (asked : Bool) (s : Settings N) (w : W)
      → (checks : List Check) × (((if asked
              then probe_providers h adapters s s.providers
              else pure [])
            w).0
          ≡ ok checks)
  probes-answers true s w = probe_providers-answers s s.providers w
  probes-answers false s w = ([], refl)

  check_mem0-answers :
      (s : Settings N) (w : W)
      → ((x : Exn) → (h.connect s.qdrant_host s.qdrant_port w).0 ≡ err x → h.is_os_error x ≡ true)
      → (checks : List Check) × ((check_mem0 h e s w).0 ≡ ok checks)
  check_mem0-answers s w quiet = elim (Bool-cases (elem "mem0" s.providers)) [
    | inr p ↦ ([], rw (check_mem0, p) refl)
    | inl p ↦ elim (Result-cases (h.connect s.qdrant_host s.qdrant_port w).0) [
      | inr (u, q) ↦ (check "qdrant" true ∷ telemetry, rw (check_mem0, p, q) refl)
      | inl (x, q) ↦ (check "qdrant" false ∷ telemetry, rw (check_mem0, p, q, quiet x q) refl)
    ]
  ]

  module _ (closes : (c : C) (v : W) → (h.close c v).0 ≡ ok tt) where
    check_opened-answers :
        (opened : Result C) (w : W)
        → (checks : List Check) × ((check_opened h opened w).0 ≡ ok checks)
    check_opened-answers (err x) w = (check "catalog" false ∷ [], refl)
    check_opened-answers (ok c) w = elim (Result-cases (h.init c w).0) [
      | inl (x, p) ↦
          (check "catalog" false ∷ [], rw (check_opened, p, closes c (h.init c w).1) refl)
      | inr (u, p) ↦
          let state = h.schema_state c (h.init c w).1 in
          (
            check "catalog" true ∷ schema_check h state.0 ∷ [],
            rw (check_opened, p, closes c state.1) refl,
          )
    ]

    examine-answers :
        (s : Settings N) (w : W)
        → ((v : W) (x : Exn)
            → (h.connect s.qdrant_host s.qdrant_port v).0 ≡ err x
            → h.is_os_error x ≡ true)
        → (report : List Check) × ((examine h e probe adapters s w).0 ≡ ok report)
    unfolding examine
    examine-answers s w quiet =
        let catalog = check_catalog h s w in
        let opened = h.open_catalog s.catalog_url w in
        let (c, a) = check_opened-answers opened.0 opened.1 in
        let mem0 = check_mem0 h e s catalog.1 in
        let (m, b) = check_mem0-answers s catalog.1 (quiet catalog.1) in
        let (r, d) = probes-answers probe s mem0.1 in (full s c m r, rw (a, b, d) refl)

  -- `doctor` gives a report, whatever the environment has and whatever the catalog and the providers
  -- raise, if `int` raises nothing but a ValueError, closing a catalog raises nothing, and a
  -- connection to the configured qdrant that fails raises an OSError.
  pub doctor-answers :
      (w : W)
      → ((raw : String) (x : Exn) → h.int raw ≡ err x → x ≡ value_error)
      → ((c : C) (v : W) → (h.close c v).0 ≡ ok tt)
      → ((s : Settings N) (v : W) (x : Exn)
          → from_env h.int e ≡ ok s
          → (h.connect s.qdrant_host s.qdrant_port v).0 ≡ err x
          → h.is_os_error x ≡ true)
      → (report : List Check) × ((doctor h e probe adapters w).0 ≡ ok report)
  unfolding doctor
  doctor-answers w only_value closes quiet = elim (Result-cases (from_env h.int e)) [
    | inl (x, q) ↦
        (check "settings" false ∷ [], rw (q, from_env-value_error h.int only_value e x q) refl)
    | inr (s, q) ↦
        let (report, p) = examine-answers closes s w (λ v x. quiet s v x q) in (report, rw q p)
  ]
