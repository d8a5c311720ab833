-- ===== src/Settings/Ready.antt =====
-- The configurations that src/memgw/settings.py accepts.
use router_memory_services.Prelude.{
  String, ◌≡◌, refl, sym, subst, ◌∙◌, true, false, not, some, List, [], ◌∷◌, string_eq, elem,
  select, select-none, is_empty, is_empty-nil, is_set, arith, All, All-map_imp, Bool-cases,
  Option-cases, inl, inr,
}
use router_memory_services.Dict.{Dict, lookup}
use router_memory_services.Errors.{Result, ok, err, Result-cases}
use router_memory_services.Settings.Parsing.{csv, int_or_none}
use router_memory_services.Settings.Loading.{
  Settings, known_providers, required_keys, get_or, first_or, credential, settings_of,
  check_credentials, check_providers, from_env,
}

-- A provider whose credential is set
abbrev pub HasCredential : {N : Type 0} → Settings N → String → Type 0
HasCredential s provider =
    (var : String) × (lookup provider required_keys ≡ some var) × (is_set (credential s var) ≡ true)

-- A configuration that a gateway can start from: some provider, each of them known and with its
-- credential, the default among them.
pub record IsReady {N : Type 0} (s : Settings N) : Type 0 where
  pub some_provider : is_empty s.providers ≡ false
  pub all_known : All (λ p. elem p known_providers ≡ true) s.providers
  pub default_listed : elem s.default_provider s.providers ≡ true
  pub all_credentials : All (HasCredential s) s.providers

module _ {N : Type 0} where
  check_credentials-HasCredential :
      (s : Settings N) (providers : List String)
      → check_credentials s providers ≡ ok tt
      → All (HasCredential s) providers
  unfolding check_credentials
  check_credentials-HasCredential s [] e = tt
  check_credentials-HasCredential s (provider ∷ providers) e =
      elim (Option-cases (lookup provider required_keys)) [
        | inl p ↦ absurd (ground (arith, p, e))
        | inr (var, p) ↦ elim (Bool-cases (is_set (credential s var))) [
          | inr q ↦ absurd (ground (arith, p, q, e))
          | inl q ↦
              ((var, p, q), check_credentials-HasCredential s providers (ground (arith, p, q, e)))
        ]
      ]

pub check_providers-known :
    (providers : List String)
    → check_providers providers ≡ ok tt
    → (is_empty providers ≡ false) × All (λ p. elem p known_providers ≡ true) providers
unfolding check_providers
check_providers-known providers e =
    let unknown = select (λ p. not (elem p known_providers)) providers in
    elim (Bool-cases (is_empty unknown)) [
      | inr q ↦ absurd (ground (arith, q, e))
      | inl q ↦ (
        ground (arith, q, e),
        All-map_imp (λ p h. ground (arith, h)) providers
            (select-none (λ p. not (elem p known_providers)) providers (is_empty-nil unknown q)),
      )
    ]

-- Every configuration that the environment gives without an error is ready: it has a provider, only
-- known ones, each with the credential that it needs, and its default provider is among them.
pub from_env-IsReady :
    {N : Type 0} (int : String → Result N) (e : Dict String String) (s : Settings N)
    → from_env int e ≡ ok s
    → IsReady s
unfolding from_env settings_of
from_env-IsReady {N} int e s h =
    let providers = csv (get_or "MEMGW_PROVIDERS" "pgvector" e) in
    let default = get_or "MEMGW_DEFAULT_PROVIDER" (first_or "" providers) e in
    elim (Result-cases (check_providers providers)) [
      | inl (x, p) ↦ absurd (ground (arith, p, h))
      | inr (u, p) ↦ elim (Bool-cases (elem default providers)) [
        | inr q ↦ absurd (ground (arith, p, q, h))
        | inl q ↦ elim (Result-cases (int_or_none int (lookup "MEMGW_EMBEDDING_DIMENSION" e))) [
          | inl (x, a) ↦ absurd (ground (arith, p, q, a, h))
          | inr (dimension, a) ↦ elim (Result-cases (int (get_or "MEMGW_QDRANT_PORT" "6333" e))) [
            | inl (x, b) ↦ absurd (ground (arith, p, q, a, b, h))
            | inr (port, b) ↦
                let made = settings_of e providers default dimension port in
                elim (Result-cases (check_credentials made providers)) [
                  | inl (x, c) ↦
                      let ends : from_env int e ≡ err x = rw (p, q, a, b, c) refl in
                      absurd (ground (arith, ends, h))
                  | inr (v, c) ↦
                      let ends : from_env int e ≡ ok made = rw (p, q, a, b, c) refl in
                      let same : ◌≡◌ {A = Result (Settings N)} (ok made) (ok s) = sym ends ∙ h in
                      let as_given : made ≡ s = ground (arith, same) in
                      subst IsReady as_given (record {
                        some_provider = (check_providers-known providers p).0;
                        all_known = (check_providers-known providers p).1;
                        default_listed = q;
                        all_credentials = check_credentials-HasCredential made providers c;
                      })
                ]
          ]
        ]
      ]
    ]
