-- ===== src/Settings/Tenants.antt =====
-- The tenants of the keys that src/memgw/settings.py reads.
use router_memory_services.Prelude.{
  String, ◌≡◌, refl, sym, ◌∙◌, false, not, ◌||◌, Option, none, some, List, [], ◌∷◌, ◌==◌, string_eq,
  is_blank, strip, arith, All, All-map, Bool-cases, inl, inr, map, if◌then◌else◌,
}
use router_memory_services.Dict.{Dict, insert, update_all}
use router_memory_services.Errors.{ok}
use router_memory_services.Settings.Parsing.{
  csv, partition_colon, tenant_or_default, add_keys, api_keys,
}
use router_memory_services.Server.Auth.{
  Principal, by_digest, compare_all, principal_of, check_token, authenticate, partition, lower,
}

-- Every tenant is named.
abbrev AllNamed : Dict String String → Type 0
AllNamed = All λ entry. is_blank entry.1 ≡ false

tenant_or_default-named : (tenant : String) → is_blank (tenant_or_default tenant) ≡ false
unfolding tenant_or_default
tenant_or_default-named tenant = elim (Bool-cases (is_blank (strip tenant))) [
  | inl e ↦ rw e refl
  | inr e ↦ rw e e
]

insert-AllNamed :
    (key tenant : String) (d : Dict String String)
    → is_blank tenant ≡ false
    → AllNamed d
    → AllNamed (insert key tenant d)
unfolding insert
insert-AllNamed key tenant [] t h = (t, tt)
insert-AllNamed key tenant ((k, v) ∷ d) t h = elim (Bool-cases (k == key)) [
  | inl e ↦ rw e (t, h.1)
  | inr e ↦ rw e (h.0, insert-AllNamed key tenant d t h.1)
]

add_keys-AllNamed :
    (entries : List String) (out : Dict String String)
    → AllNamed out
    → AllNamed (add_keys out entries)
unfolding add_keys
add_keys-AllNamed [] out h = h
add_keys-AllNamed (entry ∷ entries) out h =
    let (key, tenant) = partition_colon entry in
    add_keys-AllNamed entries _ (
      insert-AllNamed (strip key) (tenant_or_default tenant) out (tenant_or_default-named tenant) h)

update_all-AllNamed :
    (pairs d : Dict String String) → AllNamed pairs → AllNamed d → AllNamed (update_all d pairs)
unfolding update_all
update_all-AllNamed [] d hp h = h
update_all-AllNamed ((k, v) ∷ pairs) d hp h =
    update_all-AllNamed pairs (insert k v d) hp.1 (insert-AllNamed k v d hp.0 h)

compare_all-named :
    (digest : String) (digests : Dict String String) (tenant : Option String) (owner : String)
    → AllNamed digests
    → ((t : String) → tenant ≡ some t → is_blank t ≡ false)
    → compare_all digest digests tenant ≡ some owner
    → is_blank owner ≡ false
unfolding compare_all
compare_all-named digest [] tenant owner h t e = t owner e
compare_all-named digest ((known, who) ∷ rest) tenant owner h t e =
    compare_all-named digest rest (if known == digest then some who else tenant) owner h.1
      (λ t' e'. elim (Bool-cases (known == digest)) [
        | inl q ↦ ground (arith, q, e', h.0)
        | inr q ↦ t t' (ground (arith, q, e'))
      ])
      e

digested-AllNamed :
    (sha256 : String → String) (keys : Dict String String)
    → AllNamed keys
    → AllNamed (by_digest sha256 keys)
unfolding by_digest
digested-AllNamed sha256 keys h =
    update_all-AllNamed (map (λ (k : String × String). (sha256 k.0, k.1)) keys) []
      (All-map (λ entry. is_blank entry.1 ≡ false) (λ (k : String × String). (sha256 k.0, k.1)) keys
        h)
      tt

principal_of-tenant :
    (digest : String) (tenant : Option String) (p : Principal)
    → principal_of digest tenant ≡ ok p
    → tenant ≡ some p.tenant_id
principal_of-tenant digest none p e = absurd (ground arith)
principal_of-tenant digest (some t) p e = ground (arith, e)

check_token-principal :
    (sha256 : String → String) (digests : Dict String String) (parts : String × String)
    (p : Principal)
    → check_token sha256 digests parts ≡ ok p
    → principal_of (sha256 parts.1) (compare_all (sha256 parts.1) digests none) ≡ ok p
check_token-principal sha256 digests (scheme, token) p e =
    elim (Bool-cases (not (lower scheme == "bearer") || is_blank token)) [
      | inl q ↦ absurd (ground (arith, q, e))
      | inr q ↦ sym (check_token-granted q) ∙ e
    ]
  where
    check_token-granted :
        (not (lower scheme == "bearer") || is_blank token) ≡ false
        → check_token sha256 digests (scheme, token)
          ≡ principal_of (sha256 token) (compare_all (sha256 token) digests none)
    check_token-granted q = rw q refl

authenticate-check_token :
    (sha256 : String → String) (digests : Dict String String) (header : String)
    → is_blank header ≡ false
    → authenticate sha256 digests (some header) ≡ check_token sha256 digests (partition header)
unfolding authenticate
authenticate-check_token sha256 digests header q = rw q refl

-- Whoever authenticates by a key that the settings read, is of a tenant whose name is not blank.
pub api_keys-named :
    (sha256 : String → String) (raw : String) (header : Option String) (p : Principal)
    → authenticate sha256 (by_digest sha256 (api_keys raw)) header ≡ ok p
    → is_blank p.tenant_id ≡ false
unfolding authenticate api_keys
api_keys-named sha256 raw none p e = absurd (ground arith)
api_keys-named sha256 raw (some header) p e =
    let keys = api_keys raw in
    let digest = sha256 (partition header).1 in
    elim (Bool-cases (is_blank header)) [
      | inl q ↦ absurd (ground (arith, q, e))
      | inr q ↦
          compare_all-named digest (by_digest sha256 keys) none p.tenant_id
            (digested-AllNamed sha256 keys (add_keys-AllNamed (csv raw) [] tt))
            (λ t none_is. absurd (ground (arith, none_is)))
            (principal_of-tenant digest (compare_all digest (by_digest sha256 keys) none) p (
              check_token-principal sha256 (by_digest sha256 keys) (partition header) p
                (sym (authenticate-check_token sha256 (by_digest sha256 keys) header q) ∙ e)))
    ]
