-- ===== src/Server/Auth.antt =====
-- src/memgw/server/auth.py. SHA-256 is a parameter, from a text to the text of its digest in hex.
use Prim.Native.Char.{code}
use router_memory_services.Prelude.{
  ℕ, zero, suc, ◌-◌, String, not, ◌&&◌, ◌||◌, Option, none, some, [], ◌∷◌, ◌==◌, string_eq, map,
  is_blank, if◌then◌else◌, nat_beq, leb,
}
use router_memory_services.Dict.{Dict, update_all}
use router_memory_services.Errors.{Result, ok, raise, unauthenticated, tenant_mismatch}
use router_memory_services.Ids.{char_at}

pub record Principal : Type 0 where
  pub tenant_id : String
  pub key_id : String

-- digest[:12]
unfoldable pub prefix_of : ℕ → String → String
prefix_of zero s = ""
prefix_of (suc n) String.[] = ""
prefix_of (suc n) (String.◌∷◌ c s) = String.◌∷◌ c (prefix_of n s)

-- header.partition(" "), without the separator: all of it before, if there is no blank
unfoldable pub partition : String → String × String
partition String.[] = ("", "")
partition (String.◌∷◌ c s) =
    let (before, after) = partition s in
    if nat_beq (code c) 32 then ("", s) else (String.◌∷◌ c before, after)

-- `str.lower` on the letters of ASCII. No other character has one of the letters of "bearer" for its
-- lower case, so that the comparison with "bearer" is Python's.
unfoldable pub lower : String → String
lower String.[] = ""
lower (String.◌∷◌ c s) =
    String.◌∷◌
      (if leb 65 (code c) && leb (code c) 90
        then char_at "abcdefghijklmnopqrstuvwxyz" (code c - 65)
        else c)
      (lower s)

-- `ApiKeyAuth.__init__`: {_digest(key): tenant for key, tenant in keys.items()}
unfoldable pub by_digest : (String → String) → Dict String String → Dict String String
unfolding update_all
by_digest sha256 keys = update_all [] (map (λ (k : String × String). (sha256 k.0, k.1)) keys)

-- The loop of `authenticate`, which compares every candidate.
unfoldable pub compare_all : String → Dict String String → Option String → Option String
compare_all digest [] tenant = tenant
compare_all digest ((known, owner) ∷ rest) tenant =
    compare_all digest rest (if known == digest then some owner else tenant)

abbrev pub principal_of : String → Option String → Result Principal
principal_of digest none = raise unauthenticated
principal_of digest (some tenant) = ok (record { tenant_id = tenant; key_id = prefix_of 12 digest })

-- The test of the scheme and the token, and what follows it.
abbrev pub check_token : (String → String) → Dict String String → String × String → Result Principal
check_token sha256 digests (scheme, token) =
    if not (lower scheme == "bearer") || is_blank token
    then raise unauthenticated
    else principal_of (sha256 token) (compare_all (sha256 token) digests none)

-- `authenticate`, by the digests that `__init__` made
unfoldable pub authenticate :
    (String → String) → Dict String String → Option String → Result Principal
unfolding partition lower compare_all prefix_of
authenticate sha256 digests none = raise unauthenticated
authenticate sha256 digests (some header) =
    if is_blank header then raise unauthenticated else check_token sha256 digests (partition header)

unfoldable pub assert_no_wider_tenant : Principal → Option String → Result (Unit {0})
assert_no_wider_tenant who none = ok tt
assert_no_wider_tenant who (some asserted) =
    if asserted == who.tenant_id then ok tt else raise tenant_mismatch
