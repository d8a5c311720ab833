-- ===== src/Prelude/Text.antt =====
-- Texts: `str.strip`, and when Python takes an optional text as true.
use Prim.Native.Nat.{ℕ}
use Prim.Native.Char.{code}
use Prim.Native.String.{String}
use mathlib.Core.Path.{◌≡◌, refl}
use mathlib.Core.Bool.{Bool, true, false, ◌&&◌, ◌||◌, not}
use mathlib.Core.Option.{Option, none, some}
use native.Mathlib.Omega.{arith}
use router_memory_services.Prelude.Tests.{leb, nat_beq, if◌then◌else◌}

-- `bool(s)` of a text.
abbrev pub is_blank : String → Bool
is_blank String.[] = true
is_blank (String.◌∷◌ c s) = false

-- `if x:` for an optional text: None and the empty text are false.
abbrev pub is_set : Option String → Bool
is_set none = false
is_set (some s) = not (is_blank s)

-- `str.isspace` of one character: the Unicode white space that `str.strip` removes.
unfoldable pub is_space : ℕ → Bool
is_space n =
    (leb 9 n && leb n 13)
    || (leb 28 n && leb n 32)
    || nat_beq n 0x85
    || nat_beq n 0xa0
    || nat_beq n 0x1680
    || (leb 0x2000 n && leb n 0x200a)
    || nat_beq n 0x2028
    || nat_beq n 0x2029
    || nat_beq n 0x202f
    || nat_beq n 0x205f
    || nat_beq n 0x3000

unfoldable pub lstrip : String → String
lstrip String.[] = String.[]
lstrip (String.◌∷◌ c s) = if is_space (code c) then lstrip s else String.◌∷◌ c s

unfoldable pub rstrip : String → String
rstrip String.[] = String.[]
rstrip (String.◌∷◌ c s) =
    let rest = rstrip s in
    if is_blank rest && is_space (code c) then String.[] else String.◌∷◌ c rest

unfoldable pub strip : String → String
unfolding lstrip rstrip is_space
strip s = rstrip (lstrip s)

abbrev pub starts_bare : String → Bool
starts_bare String.[] = true
starts_bare (String.◌∷◌ c s) = not (is_space (code c))

lstrip-bare : (s : String) → starts_bare (lstrip s) ≡ true
unfolding lstrip
lstrip-bare String.[] = refl
lstrip-bare (String.◌∷◌ c s) = ground (arith, lstrip-bare s)

lstrip-eq_self : (s : String) → starts_bare s ≡ true → lstrip s ≡ s
unfolding lstrip
lstrip-eq_self String.[] h = refl
lstrip-eq_self (String.◌∷◌ c s) h = ground arith

rstrip-bare : (s : String) → starts_bare s ≡ true → starts_bare (rstrip s) ≡ true
unfolding rstrip
rstrip-bare String.[] h = refl
rstrip-bare (String.◌∷◌ c s) h = ground arith

rstrip_idem : (s : String) → rstrip (rstrip s) ≡ rstrip s
unfolding rstrip
rstrip_idem String.[] = refl
rstrip_idem (String.◌∷◌ c s) = ground (arith, rstrip_idem s)

-- What is stripped is not stripped further.
pub strip_idem : (s : String) → strip (strip s) ≡ strip s
unfolding strip
strip_idem s =
    rw (lstrip-eq_self (rstrip (lstrip s)) (rstrip-bare (lstrip s) (lstrip-bare s)))
      (rstrip_idem (lstrip s))
