-- ===== src/Settings/Parsing.antt =====
-- The parsers of src/memgw/settings.py.
use Prim.Native.Char.{code}
use router_memory_services.Prelude.{
  String, Bool, Option, none, some, List, [], ◌∷◌, string_eq, elem, is_blank, strip, nat_beq,
  if◌then◌else◌,
}
use router_memory_services.Dict.{Dict, insert}
use router_memory_services.Errors.{Result, ok, ◌>>=◌}
use router_memory_services.Server.Auth.{lower}

-- raw.split(",")
unfoldable pub split_commas : String → List String
split_commas String.[] = "" ∷ []
split_commas (String.◌∷◌ c s) =
    let rest = split_commas s in
    if nat_beq (code c) 44
    then "" ∷ rest
    else elim rest [ [] ↦ String.◌∷◌ c "" ∷ [] | ◌∷◌ first others ↦ String.◌∷◌ c first ∷ others ]

-- [part.strip() for part in parts if part.strip()]
unfoldable pub stripped : List String → List String
unfolding strip
stripped [] = []
stripped (part ∷ parts) =
    let rest = stripped parts in if is_blank (strip part) then rest else strip part ∷ rest

-- `_csv`
unfoldable pub csv : String → List String
unfolding split_commas stripped
csv raw = stripped (split_commas raw)

-- entry.partition(":"), without the separator
unfoldable pub partition_colon : String → String × String
partition_colon String.[] = ("", "")
partition_colon (String.◌∷◌ c s) =
    let (before, after) = partition_colon s in
    if nat_beq (code c) 58 then ("", s) else (String.◌∷◌ c before, after)

-- tenant.strip() or "default"
unfoldable pub tenant_or_default : String → String
unfolding strip
tenant_or_default tenant = if is_blank (strip tenant) then "default" else strip tenant

-- The loop of `_api_keys`
unfoldable pub add_keys : Dict String String → List String → Dict String String
unfolding partition_colon tenant_or_default insert strip
add_keys out [] = out
add_keys out (entry ∷ entries) =
    let (key, tenant) = partition_colon entry in
    add_keys (insert (strip key) (tenant_or_default tenant) out) entries

-- `_api_keys`
unfoldable pub api_keys : String → Dict String String
unfolding csv add_keys
api_keys raw = add_keys [] (csv raw)

abbrev pub or_empty : Option String → String
or_empty none = ""
or_empty (some s) = s

-- `_flag`; no character but those of ASCII has a letter of these words for its lower case.
unfoldable pub flag : Option String → Bool
unfolding strip lower
flag raw = elem (lower (strip (or_empty raw))) ("1" ∷ "true" ∷ "yes" ∷ "on" ∷ [])

-- `_int`; `int` is Python's, which raises a ValueError.
unfoldable pub int_or_none : {N : Type 0} → (String → Result N) → Option String → Result (Option N)
unfolding strip
int_or_none int none = ok none
int_or_none int (some raw) = if is_blank (strip raw) then ok none else do n ← int raw; ok (some n)
