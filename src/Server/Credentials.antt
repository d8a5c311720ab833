-- ===== src/Server/Credentials.antt =====
-- What `authenticate` of src/memgw/server/auth.py makes of a key.
use router_memory_services.Prelude.{
  String, ◌≡◌, refl, true, false, not, ◌||◌, ◌&&◌, Option, none, some, [], ◌∷◌, ◌==◌, string_eq,
  eq_iff, arith, map, All, if◌then◌else◌, is_blank, Bool-cases, inl, inr,
}
use router_memory_services.Dict.{Dict, lookup, has, insert, update_all, lookup-insert}
use router_memory_services.Errors.{raise, unauthenticated}
use router_memory_services.Server.Auth.{
  by_digest, compare_all, authenticate, principal_of, partition, lower,
}

-- No key stands twice.
abbrev Uniq : Dict String String → Type 0
Uniq [] = Unit
Uniq ((k, v) ∷ d) = (has k d ≡ false) × Uniq d

has-insert : (k j v : String) (d : Dict String String) → has j (insert k v d) ≡ (k == j || has j d)
has-insert k j v d = ground (arith, lookup-insert k j v d)

insert-Uniq : (k v : String) (d : Dict String String) → Uniq d → Uniq (insert k v d)
unfolding insert lookup
insert-Uniq k v [] u = (refl, tt)
insert-Uniq k v ((j, w) ∷ d) u = elim (Bool-cases (j == k)) [
  | inl e ↦ rw (e, insert) u
  | inr e ↦
      rw (e, insert)
        (ground (arith, has-insert k j v d, eq_iff j k, eq_iff k j), insert-Uniq k v d u.1)
]

-- What the loop keeps of a candidate that none of the rest matches.
compare_all-lookup :
    (digest : String) (d : Dict String String) (t : Option String)
    → Uniq d
    → compare_all digest d t ≡ elim (lookup digest d) [ none ↦ t | some v ↦ some v ]
unfolding compare_all lookup
compare_all-lookup digest [] t u = refl
compare_all-lookup digest ((k, v) ∷ d) t u =
    ground
      (arith, compare_all-lookup digest d (if k == digest then some v else t) u.1, eq_iff k digest)

update_all-Uniq : (pairs d : Dict String String) → Uniq d → Uniq (update_all d pairs)
unfolding update_all
update_all-Uniq [] d u = u
update_all-Uniq ((k, v) ∷ pairs) d u = update_all-Uniq pairs (insert k v d) (insert-Uniq k v d u)

module _ (sha256 : String → String) (token : String) where
  -- No other key of the table has the token's digest.
  abbrev pub Apart : Dict String String → Type 0
  Apart keys = All (λ (k : String × String). (sha256 k.0 == sha256 token) ≡ (k.0 == token)) keys

  lookup-digests :
      (keys d raw : Dict String String)
      → Apart keys
      → lookup (sha256 token) d ≡ lookup token raw
      → lookup (sha256 token) (update_all d (map (λ (k : String × String). (sha256 k.0, k.1)) keys))
        ≡ lookup token (update_all raw keys)
  unfolding update_all
  lookup-digests [] d raw apart same = same
  lookup-digests ((k, v) ∷ keys) d raw apart same =
      lookup-digests keys (insert (sha256 k) v d) (insert k v raw) apart.1 (
        ground (
          arith,
          lookup-insert (sha256 k) (sha256 token) v d,
          lookup-insert k token v raw,
          apart.0,
          same,
        ))

blank-partition : (s : String) → is_blank s ≡ true → is_blank (partition s).1 ≡ true
unfolding partition
blank-partition String.[] h = refl
blank-partition (String.◌∷◌ c s) h = absurd (ground arith)

-- A header is accepted exactly when it is the scheme `Bearer`, in letters of either case, a blank and
-- a token that is a key of the table, and the tenant is the one that the table has for that key; any
-- other header, and none, is refused with `Unauthenticated`. No key but the token may have the
-- token's digest.
pub authenticate-lookup :
    (sha256 : String → String) (keys : Dict String String) (header : String)
    → Apart sha256 (partition header).1 keys
    → let (scheme, token) = partition header in
      (authenticate sha256 (by_digest sha256 keys) none ≡ raise unauthenticated)
      × (authenticate sha256 (by_digest sha256 keys) (some header) ≡ (
          if lower scheme == "bearer" && not (is_blank token)
          then principal_of (sha256 token) (lookup token (update_all [] keys))
          else raise unauthenticated))
unfolding authenticate by_digest lookup
authenticate-lookup sha256 keys header apart =
    let digest = sha256 (partition header).1 in
    let digests = by_digest sha256 keys in
    let compared =
      compare_all-lookup digest digests none
        (update_all-Uniq (map (λ (k : String × String). (sha256 k.0, k.1)) keys) [] tt) in
    let found = lookup-digests sha256 (partition header).1 keys [] [] apart refl in
    (refl, ground (arith, compared, found, blank-partition header))
