-- ===== src/Adapters/Mem0/Items.antt =====
-- How src/memgw/adapters/mem0.py reads what the mem0 package returns.
use router_memory_services.Prelude.{
  String, Bool, true, false, not, Option, none, some, List, [], ◌∷◌, is_blank, if◌then◌else◌,
}
use router_memory_services.Dict.{Dict}
use router_memory_services.Json.{
  Float, Json, null, flag, num, text, arr, obj, Items, nil, cons, Fields, end, field,
}
use router_memory_services.Errors.{Result, ok, err, other, validation, ◌>>=◌}
use router_memory_services.Types.{DateTime, ProviderMemory}
use router_memory_services.Embedding.{get_field}

-- Python's `str`, the truth of a number, and what pydantic makes of the optional fields of a memory.
pub record Reader : Type 0 where
  pub str : Json → String
  pub nonzero : Float → Bool
  pub datetime : Json → Result (Option DateTime)
  pub score : Json → Result (Option Float)

-- bool(value)
abbrev pub truthy : Reader → Json → Bool
truthy r null = false
truthy r (flag b) = b
truthy r (num x) = r.nonzero x
truthy r (text s) = not (is_blank s)
truthy r (arr nil) = false
truthy r (arr (cons x rest)) = true
truthy r (obj end) = false
truthy r (obj (field k v rest)) = true

-- item.get(key)
abbrev pub get_or_null : String → Fields → Json
get_or_null key fields = elim (get_field key fields) [ none ↦ null | some v ↦ v ]

-- x or y
abbrev pub or_else : Reader → Json → Json → Json
or_else r x y = if truthy r x then x else y

-- `_content` of a dictionary
abbrev pub content_of : Reader → Fields → Json
content_of r fields =
    or_else r (get_or_null "memory" fields)
      (or_else r (get_or_null "text" fields) (get_or_null "data" fields))

-- if self._content(item)
abbrev pub has_content : Reader → Json → Bool
has_content r (obj fields) = truthy r (content_of r fields)
has_content r null = false
has_content r (flag b) = false
has_content r (num x) = false
has_content r (text s) = false
has_content r (arr items) = false

abbrev pub to_dict : Fields → Dict String Json
to_dict end = []
to_dict (field k v rest) = (k, v) ∷ to_dict rest

-- A `content` that is no text is refused by pydantic.
abbrev pub as_content : Reader → Json → Result String
as_content r (text s) = ok s
as_content r null = ok ""
as_content r (flag b) = if b then err validation else ok ""
as_content r (num x) = if r.nonzero x then err validation else ok ""
as_content r (arr nil) = ok ""
as_content r (arr (cons x rest)) = err validation
as_content r (obj end) = ok ""
as_content r (obj (field k v rest)) = err validation

-- `_to_memory`
unfoldable pub to_memory : Reader → Fields → Result ProviderMemory
to_memory r fields = do
  content ← as_content r (content_of r fields)
  created ← r.datetime (get_or_null "created_at" fields)
  updated ← r.datetime (get_or_null "updated_at" fields)
  score ← r.score (get_or_null "score" fields)
  ok (record {
    native_id = r.str (get_or_null "id" fields);
    content = content;
    created_at = created;
    updated_at = updated;
    valid_from = none;
    valid_to = none;
    score = score;
    raw = to_dict fields;
  })

abbrev pub not_iterable {ℓ} : {A : Type ℓ} → Result A
not_iterable = err (other "TypeError")

-- if isinstance(raw, dict): raw = [raw]; what `for` then goes through, where the characters of a text
-- have no content
abbrev pub iterated : Json → Result Items
iterated (arr items) = ok items
iterated (obj fields) = ok (cons (obj fields) nil)
iterated (text s) = ok nil
iterated null = not_iterable
iterated (flag b) = not_iterable
iterated (num x) = not_iterable

abbrev pub or_nil : Option Json → Json
or_nil none = arr nil
or_nil (some raw) = raw

-- One item of the comprehension of `_to_memories`
abbrev pub read_item : Reader → Json → Result (List ProviderMemory) → Result (List ProviderMemory)
read_item r (obj fields) rest = do
  memory ← to_memory r fields
  memories ← rest
  ok (memory ∷ memories)
read_item r null rest = rest
read_item r (flag b) rest = rest
read_item r (num x) rest = rest
read_item r (text s) rest = rest
read_item r (arr items) rest = rest

-- The comprehension
unfoldable pub read_items : Reader → Items → Result (List ProviderMemory)
unfolding to_memory
read_items r nil = ok []
read_items r (cons item items) =
    let rest = read_items r items in if has_content r item then read_item r item rest else rest

-- raw.get("results", []), and then what is gone through
abbrev pub listed : Json → Result Items
listed (obj fields) = iterated (or_nil (get_field "results" fields))
listed null = ok nil
listed (arr items) = ok items
listed (text s) = ok nil
listed (flag b) = not_iterable
listed (num x) = not_iterable

-- `_to_memories`
unfoldable pub to_memories : Reader → Json → Result (List ProviderMemory)
unfolding read_items get_field
to_memories r raw = do items ← listed raw; read_items r items
