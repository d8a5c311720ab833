-- ===== src/Adapters/Zep/Probe.antt =====
-- `self_test` of src/memgw/adapters/zep.py. The clock is a parameter: whether the deadline has passed
-- at each test of the loop. `sleep` is left out.
use Prim.Native.String.{◌++◌ as append}
use router_memory_services.Prelude.{
  ℕ, zero, suc, ◌+◌, ◌<◌, String, ◌≡◌, ap, refl, ◌∙◌, Bool, true, false, not, Option, none, some,
  List, [], ◌∷◌, ◌==◌, string_eq, elem, select, arith, Bool-cases, inl, inr, if◌then◌else◌,
}
use router_memory_services.Json.{Json}
use router_memory_services.Errors.{Result, ok, err, other}
use router_memory_services.Types.{Scope, ProviderMemory, HealthStatus}
use router_memory_services.Adapters.Mem0.Items.{Reader, truthy}
use router_memory_services.Adapters.Zep.Edges.{zep_user_id, attr}
use router_memory_services.Adapters.Zep.Calls.{Client, Zep, at_service, add, forget}

-- The scope of a probe, by what `uuid4` gives
abbrev pub probe_of : String → Scope
probe_of hex = record {
  subject = append "__memgw_probe_" (append hex "__");
  agent = none;
  session = none;
  labels = [];
  tenant = none;
}

abbrev pub report : Bool → String → HealthStatus
report healthy detail = record { ok = healthy; detail = some detail }

-- written[0].native_id
abbrev pub first_id : List ProviderMemory → Result String
first_id [] = err (other "IndexError")
first_id (memory ∷ rest) = ok memory.native_id

module _ {P : Type 0} (c : Client P) (r : Reader) (late : ℕ → Bool) where
  -- `_processed`
  abbrev pub is_processed : Result Json → Bool
  is_processed (ok episode) = truthy r (attr episode "processed")
  is_processed (err e) = false

  -- The loop, on fuel, from its test number `k`; nothing where the fuel is out
  unfoldable pub wait : ℕ → ℕ → String → Zep P → Option HealthStatus × Zep P
  wait zero k id z = (none, z)
  wait (suc fuel) k id z =
      let outcome = at_service c (c.get_episode id) z in
      let next = wait fuel (suc k) id outcome.1 in
      if late k
      then (some (report false "stayed processed=false"), z)
      else if is_processed outcome.0
      then (some (report true "wrote an episode and Zep processed it"), outcome.1)
      else next

  -- The `try`, by what was written
  unfoldable pub attempt : ℕ → Result String → Zep P → Option HealthStatus × Zep P
  unfolding wait
  attempt fuel (err e) z = (some (report false (c.cause e)), z)
  attempt fuel (ok id) z = wait fuel 0 id z

  abbrev pub id_written : Result (List ProviderMemory) → Result String
  id_written (ok memories) = first_id memories
  id_written (err e) = err e

  -- The `finally`
  abbrev pub clean_up : String → Option HealthStatus × Zep P → Option HealthStatus × Zep P
  clean_up user (status, z) = (status, (forget c r user (at_service c (c.delete_user user) z).1).1)

  unfoldable pub self_test : ℕ → String → Zep P → Option HealthStatus × Zep P
  unfolding attempt zep_user_id add
  self_test fuel hex z =
      let probe = probe_of hex in
      let written = add c r "memgw probe: the sky is green on Tuesdays." probe z in
      clean_up (zep_user_id probe) (attempt fuel (id_written written.0) written.1)

  wait-answers :
      (n k m fuel : ℕ) (id : String) (z : Zep P)
      → m ≡ k + n
      → late m ≡ true
      → n < fuel
      → (status : HealthStatus) × ((wait fuel k id z).0 ≡ some status)
  unfolding wait
  wait-answers n k m zero id z a h b = absurd (omega (arith, b))
  wait-answers zero k m (suc fuel) id z a h b =
      let same : k ≡ m = omega (arith, a) in
      (report false "stayed processed=false", rw (ap late same ∙ h) refl)
  wait-answers (suc n) k m (suc fuel) id z a h b = elim (Bool-cases (late k)) [
    | inl e ↦ (report false "stayed processed=false", rw e refl)
    | inr e ↦
        let outcome = at_service c (c.get_episode id) z in
        elim (Bool-cases (is_processed outcome.0)) [
          | inl p ↦ (report true "wrote an episode and Zep processed it", rw (e, p) refl)
          | inr p ↦
              let (status, q) =
                wait-answers n (suc k) m fuel id outcome.1 (omega (arith, a)) h
                  (omega (arith, b)) in
              (status, rw (e, p) q)
        ]
  ]

  attempt-answers :
      (n fuel : ℕ) (written : Result String) (z : Zep P)
      → late n ≡ true
      → n < fuel
      → (status : HealthStatus) × ((attempt fuel written z).0 ≡ some status)
  unfolding attempt
  attempt-answers n fuel (err e) z h b = (report false (c.cause e), refl)
  attempt-answers n fuel (ok id) z h b = wait-answers n 0 n fuel id z (omega arith) h b

  forgotten :
      (user : String) (known : List String)
      → elem user (select (λ u. not (u == user)) known) ≡ false
  forgotten user [] = refl
  forgotten user (u ∷ known) = ground (arith, forgotten user known)

  -- If the deadline has passed at some test of the loop, and the fuel is enough for that many tests,
  -- the probe gives a status, whatever the service answers or raises, and its user is no longer among
  -- the known ones.
  pub self_test-reports :
      (n fuel : ℕ) (hex : String) (z : Zep P)
      → late n ≡ true
      → n < fuel
      → ((status : HealthStatus) × ((self_test fuel hex z).0 ≡ some status))
        × (elem (zep_user_id (probe_of hex)) (self_test fuel hex z).1.known ≡ false)
  unfolding self_test attempt
  self_test-reports n fuel hex z h b =
      let probe = probe_of hex in
      let written = add c r "memgw probe: the sky is green on Tuesdays." probe z in
      let tried = attempt fuel (id_written written.0) written.1 in
      (
        attempt-answers n fuel (id_written written.0) written.1 h b,
        forgotten (zep_user_id probe)
            (at_service c (c.delete_user (zep_user_id probe)) tried.1).1.known,
      )
