-- ===== src/Cli/Doctor.antt =====
-- `doctor` and `_migrate` of src/memgw/cli.py. A check is its name and its outcome; its detail is a
-- text for a reader. The catalog, the network and the providers are parameters.
use Prim.Native.String.{◌++◌ as append}
use router_memory_services.Prelude.{
  ℕ, String, Bool, true, false, not, Option, none, some, List, [], ◌∷◌, ◌++◌, string_eq, elem, all,
  is_empty, is_set, select, strip, if◌then◌else◌,
}
use router_memory_services.Dict.{Dict, lookup}
use router_memory_services.Errors.{
  Exn, Result, ok, err, value_error, gateway, integrity, validation, assertion, other,
}
use router_memory_services.Exec.{Exec, pure, lift, ◌>>=◌}
use router_memory_services.Types.{HealthStatus}
use router_memory_services.Catalog.Lifecycle.{SchemaState, up_to_date}
use router_memory_services.Server.Auth.{lower}
use router_memory_services.Settings.Parsing.{or_empty}
use router_memory_services.Settings.Loading.{Settings, experimental, from_env}

pub record Check : Type 0 where
  pub name : String
  pub passed : Bool

abbrev pub check : String → Bool → Check
check name passed = record { name = name; passed = passed }

-- `Report.ok`
abbrev pub is_ok : List Check → Bool
is_ok = all λ c. c.passed

-- Python's `int`; the constructor of `Catalog`, and what its methods do; `create_connection`, and
-- whether an exception is an OSError; `build_adapter`, and the `self_test` that an adapter may have.
pub record Host (W N C A : Type 0) : Type 0 where
  pub int : String → Result N
  pub open_catalog : String → Exec W C
  pub init : C → Exec W (Unit {0})
  pub schema_state : C → Exec W SchemaState
  pub upgrade : C → Exec W (Unit {0})
  pub close : C → Exec W (Unit {0})
  pub connect : String → N → Exec W (Unit {0})
  pub is_os_error : Exn → Bool
  pub build : String → Settings N → Exec W A
  pub self_test : A → Option (Exec W HealthStatus)

-- `_flagged_off`
unfoldable pub flagged_off : Option String → Bool
unfolding strip lower
flagged_off raw = elem (lower (strip (or_empty raw))) ("0" ∷ "false" ∷ "no" ∷ "off" ∷ [])

-- `_warn_about_experimental`
abbrev pub warn_about_experimental : {N : Type 0} → Settings N → List Check
warn_about_experimental s =
    if is_empty (select (λ p. elem p experimental) s.providers)
    then []
    else check "experimental" true ∷ []

module _ {W N C A : Type 0} (h : Host W N C A) where
  abbrev pub schema_check : Result SchemaState → Check
  schema_check (ok state) = check "schema" (up_to_date state)
  schema_check (err e) = check "schema" false

  -- An outcome, after `await catalog.close()`, which may raise in its stead
  abbrev pub closed : {B : Type 0} → Result (Unit {0}) → Result B → Result B
  closed (ok u) outcome = outcome
  closed (err e) outcome = err e

  abbrev pub closing : {B : Type 0} → C → Result B → Exec W B
  closing c outcome w = let end = h.close c w in (closed end.0 outcome, end.1)

  -- `_check_catalog`
  abbrev pub check_opened : Result C → Exec W (List Check)
  check_opened (err e) w = (ok (check "catalog" false ∷ []), w)
  check_opened (ok c) w =
      let started = h.init c w in
      let state = h.schema_state c started.1 in
      elim started.0 [
        | err e ↦ closing c (ok (check "catalog" false ∷ [])) started.1
        | ok u ↦ closing c (ok (check "catalog" true ∷ schema_check state.0 ∷ [])) state.1
      ]

  abbrev pub check_catalog : Settings N → Exec W (List Check)
  check_catalog s w = let opened = h.open_catalog s.catalog_url w in check_opened opened.0 opened.1

  -- `_check_qdrant`
  abbrev pub connected : Result (Unit {0}) → Result (List Check)
  connected (ok u) = ok (check "qdrant" true ∷ [])
  connected (err e) = if h.is_os_error e then ok (check "qdrant" false ∷ []) else err e

  abbrev pub check_qdrant : Settings N → Exec W (List Check)
  check_qdrant s w =
      let outcome = h.connect s.qdrant_host s.qdrant_port w in (connected outcome.0, outcome.1)

  -- The checks of a configuration with mem0
  abbrev pub check_mem0 : Dict String String → Settings N → Exec W (List Check)
  check_mem0 e s = if not (elem "mem0" s.providers) then pure [] else do
    checks ← check_qdrant s
    pure (checks ++ check "mem0_telemetry" (flagged_off (lookup "MEM0_TELEMETRY" e)) ∷ [])

  abbrev pub check_zep : Settings N → List Check
  check_zep s = if elem "zep" s.providers then check "zep_key" (is_set s.zep_api_key) ∷ [] else []

  abbrev pub probed : String → Result HealthStatus → Check
  probed name (ok status) = check (append name "_pipeline") status.ok
  probed name (err e) = check (append name "_pipeline") false

  -- What is reported of a provider that was built
  abbrev pub probe_built : String → Result A → Exec W (List Check)
  probe_built name (err e) w = (ok (check (append name "_pipeline") false ∷ []), w)
  probe_built name (ok adapter) w = elim (h.self_test adapter) [
    | none ↦ (ok [], w)
    | some test ↦ (ok (probed name (test w).0 ∷ []), (test w).1)
  ]

  -- adapters[name], or a new adapter
  abbrev pub adapter_of : Option (Dict String A) → Settings N → String → Exec W A
  adapter_of none s name = h.build name s
  adapter_of (some adapters) s name = elim (lookup name adapters) [
    | none ↦ lift (err (other "KeyError"))
    | some a ↦ lift (ok a)
  ]

  -- The loop of `_probe_providers`
  unfoldable pub probe_providers :
      Option (Dict String A) → Settings N → List String → Exec W (List Check)
  probe_providers adapters s [] = pure []
  probe_providers adapters s (name ∷ names) = do
    checks ← λ w. let built = adapter_of adapters s name w in probe_built name built.0 built.1
    rest ← probe_providers adapters s names
    pure (checks ++ rest)

  -- What `doctor` asks of a configuration that loads
  unfoldable pub examine :
      Dict String String → Bool → Option (Dict String A) → Settings N → Exec W (List Check)
  unfolding flagged_off probe_providers lookup
  examine e probe adapters s = do
    catalog ← check_catalog s
    mem0 ← check_mem0 e s
    probes ← if probe then probe_providers adapters s s.providers else pure []
    pure (
        check "settings" true ∷ check "api_keys" (not (is_empty s.keys)) ∷ catalog
        ++ mem0
        ++ check_zep s
        ++ warn_about_experimental s
        ++ probes)

  abbrev pub by_settings :
      Dict String String → Bool → Option (Dict String A) → Result (Settings N) → Exec W (List Check)
  by_settings e probe adapters (ok s) = examine e probe adapters s
  by_settings e probe adapters (err value_error) = pure (check "settings" false ∷ [])
  by_settings e probe adapters (err (gateway x)) = lift (err (gateway x))
  by_settings e probe adapters (err integrity) = lift (err integrity)
  by_settings e probe adapters (err validation) = pure (check "settings" false ∷ [])
  by_settings e probe adapters (err assertion) = lift (err assertion)
  by_settings e probe adapters (err (other cause)) = lift (err (other cause))

  unfoldable pub doctor : Dict String String → Bool → Option (Dict String A) → Exec W (List Check)
  unfolding examine from_env
  doctor e probe adapters = by_settings e probe adapters (from_env h.int e)

  unfoldable pub preflight : Dict String String → Exec W (List Check)
  unfolding doctor
  preflight e = doctor e false none

  -- The `try` of `_migrate`: the exit code
  abbrev pub code_of : SchemaState → ℕ
  code_of after = if up_to_date after then 0 else 1

  unfoldable pub migrate_opened : C → Exec W ℕ
  migrate_opened c = do
    before ← h.schema_state c
    if up_to_date before
        then pure 0
        else do _ ← h.upgrade c; after ← h.schema_state c; pure (code_of after)

  abbrev pub or_one : Result ℕ → ℕ
  or_one (ok code) = code
  or_one (err e) = 1

  abbrev pub migrate_by : Result C → Exec W ℕ
  migrate_by (err e) w = (ok 1, w)
  migrate_by (ok c) w =
      let outcome = migrate_opened c w in closing c (ok (or_one outcome.0)) outcome.1

  -- `_migrate`
  unfoldable pub migrate : Dict String String → Exec W ℕ
  unfolding migrate_opened from_env
  migrate e = do
    s ← lift (from_env h.int e)
    λ w. let opened = h.open_catalog s.catalog_url w in migrate_by opened.0 opened.1
