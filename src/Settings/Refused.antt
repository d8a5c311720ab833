-- ===== src/Settings/Refused.antt =====
-- How `from_env` of src/memgw/settings.py refuses a configuration.
use router_memory_services.Prelude.{
  String, ◌≡◌, refl, true, Option, none, some, List, [], ◌∷◌, string_eq, eq_iff, elem, is_set,
  is_blank, strip, arith, All, Bool-cases, Option-cases, inl, inr,
}
use router_memory_services.Dict.{Dict, lookup}
use router_memory_services.Errors.{Exn, Result, ok, err, value_error, Result-cases}
use router_memory_services.Settings.Parsing.{csv, int_or_none}
use router_memory_services.Settings.Loading.{
  Settings, known_providers, required_keys, get_or, first_or, credential, settings_of,
  check_credentials, check_providers, from_env,
}
use router_memory_services.Settings.Ready.{check_providers-known}

-- Every known provider has a credential that it requires, so that the lookup has no KeyError.
known-required :
    (p : String)
    → elem p known_providers ≡ true
    → (var : String) × (lookup p required_keys ≡ some var)
unfolding lookup
known-required p h = elim (Option-cases (lookup p required_keys)) [
  | inr (var, e) ↦ (var, e)
  | inl e ↦ absurd (
      ground (
        arith,
        h,
        e,
        eq_iff p "pgvector",
        eq_iff p "mem0",
        eq_iff p "zep",
        eq_iff "pgvector" p,
        eq_iff "mem0" p,
        eq_iff "zep" p,
      ))
]

check_credentials-value_error :
    {N : Type 0} (s : Settings N) (providers : List String) (x : Exn)
    → All (λ p. elem p known_providers ≡ true) providers
    → check_credentials s providers ≡ err x
    → x ≡ value_error
unfolding check_credentials
check_credentials-value_error s [] x known e = absurd (ground arith)
check_credentials-value_error s (provider ∷ providers) x known e =
    let (var, p) = known-required provider known.0 in
    elim (Bool-cases (is_set (credential s var))) [
      | inr q ↦ ground (arith, p, q, e)
      | inl q ↦ check_credentials-value_error s providers x known.1 (ground (arith, p, q, e))
    ]

check_providers-value_error :
    (providers : List String) (x : Exn) → check_providers providers ≡ err x → x ≡ value_error
unfolding check_providers
check_providers-value_error providers x e = ground (arith, e)

module _ {N : Type 0} (int : String → Result N)
    (only_value : (raw : String) (x : Exn) → int raw ≡ err x → x ≡ value_error) where
  int_or_none-value_error :
      (raw : Option String) (x : Exn) → int_or_none int raw ≡ err x → x ≡ value_error
  unfolding int_or_none
  int_or_none-value_error none x e = absurd (ground arith)
  int_or_none-value_error (some raw) x e = elim (Bool-cases (is_blank (strip raw))) [
    | inl p ↦ absurd (ground (arith, p, e))
    | inr p ↦ elim (Result-cases (int raw)) [
      | inl (y, q) ↦ ground (arith, p, q, e, only_value raw y q)
      | inr (n, q) ↦ absurd (ground (arith, p, q, e))
    ]
  ]

  -- A configuration that is refused is refused with a ValueError, if `int` raises nothing else.
  pub from_env-value_error :
      (e : Dict String String) (x : Exn) → from_env int e ≡ err x → x ≡ value_error
  unfolding from_env settings_of
  from_env-value_error e x h =
      let providers = csv (get_or "MEMGW_PROVIDERS" "pgvector" e) in
      let default = get_or "MEMGW_DEFAULT_PROVIDER" (first_or "" providers) e in
      elim (Result-cases (check_providers providers)) [
        | inl (y, p) ↦ ground (arith, p, h, check_providers-value_error providers y p)
        | inr (u, p) ↦ elim (Bool-cases (elem default providers)) [
          | inr q ↦ ground (arith, p, q, h)
          | inl q ↦ elim (Result-cases (int_or_none int (lookup "MEMGW_EMBEDDING_DIMENSION" e))) [
            | inl (y, a) ↦ ground (
              arith,
              p,
              q,
              a,
              h,
              int_or_none-value_error (lookup "MEMGW_EMBEDDING_DIMENSION" e) y a,
            )
            | inr (dimension, a) ↦ elim (Result-cases (int (get_or "MEMGW_QDRANT_PORT" "6333" e))) [
              | inl (y, b) ↦
                  ground
                    (arith, p, q, a, b, h, only_value (get_or "MEMGW_QDRANT_PORT" "6333" e) y b)
              | inr (port, b) ↦
                  let made = settings_of e providers default dimension port in
                  elim (Result-cases (check_credentials made providers)) [
                    | inl (y, c) ↦
                        let ends : from_env int e ≡ err y = rw (p, q, a, b, c) refl in
                        let refused =
                          check_credentials-value_error made providers y
                            (check_providers-known providers p).1 c in
                        ground (arith, ends, h, refused)
                    | inr (v, c) ↦
                        let ends : from_env int e ≡ ok made = rw (p, q, a, b, c) refl in
                        absurd (ground (arith, ends, h))
                  ]
            ]
          ]
        ]
      ]
