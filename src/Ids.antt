-- ===== src/Ids.antt =====
-- The ids of src/memgw/catalog.py: `_b32` and `new_id`, with the module's two globals as a state.
-- The clock and `secrets.randbits(80)` are read by the caller, who passes what they returned.
use Prim.Native.Char.{Char}
use Prim.Native.String.{◌++◌ as append}
use router_memory_services.Prelude.{ℕ, zero, suc, ◌+◌, ◌/◌, ◌%◌, String, nat_beq, if◌then◌else◌}

abbrev pub crockford : String
crockford = "0123456789ABCDEFGHJKMNPQRSTVWXYZ"

-- The character at an index; the index is below 32, so the default is not met.
abbrev pub char_at : String → ℕ → Char
char_at String.[] i = "0"
char_at (String.◌∷◌ c s) zero = c
char_at (String.◌∷◌ c s) (suc i) = char_at s i

-- The loop of `_b32`, with `out` reversed: `value & 0x1F` is `value % 32`, `value >> 5` is
-- `value / 32`.
unfoldable pub b32_loop : ℕ → ℕ → String → String
b32_loop zero value out = out
b32_loop (suc n) value out =
    b32_loop n (value / 32) (String.◌∷◌ (char_at crockford (value % 32)) out)

unfoldable pub b32 : ℕ → ℕ → String
unfolding b32_loop
b32 value length = b32_loop length value ""

-- `_last_ms` and `_last_rand`
pub record Ids : Type 0 where
  pub last_ms : ℕ
  pub last_rand : ℕ

abbrev pub format_id : String → ℕ → ℕ → String
format_id prefix ms rand = append prefix (append "_" (append (b32 ms 10) (b32 rand 16)))

unfoldable pub new_id : String → ℕ → ℕ → Ids → String × Ids
unfolding b32
new_id prefix ms bits ids =
    let rand = if nat_beq ms ids.last_ms then ids.last_rand + 1 else bits in
    (format_id prefix ms rand, record { last_ms = ms; last_rand = rand })
