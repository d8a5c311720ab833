-- ===== src/Adapters/Zep/Edges.antt =====
-- How src/memgw/adapters/zep.py reads what the Zep service returns. An object of the service's client
-- is the JSON object of its attributes.
use Prim.Native.String.{◌++◌ as append}
use router_memory_services.Prelude.{
  String, Bool, true, Option, none, some, List, [], ◌∷◌, is_blank, if◌then◌else◌, select,
}
use router_memory_services.Dict.{Dict}
use router_memory_services.Json.{Float, Json, null, flag, num, text, arr, obj, Items, nil, cons}
use router_memory_services.Errors.{Result, ok, err, other, ◌>>=◌}
use router_memory_services.Types.{ProviderMemory, Scope}
use router_memory_services.Adapters.Mem0.Names.{tenant_sep, if_set}
use router_memory_services.Adapters.Mem0.Items.{
  Reader, truthy, get_or_null, or_else, to_dict, as_content,
}

unfoldable pub zep_user_id : Scope → String
zep_user_id scope =
    if_set scope.tenant (λ t. append t (append tenant_sep scope.subject)) scope.subject

-- `_attr`
abbrev pub attr : Json → String → Json
attr (obj fields) name = get_or_null name fields
attr null name = null
attr (flag b) name = null
attr (num x) name = null
attr (text s) name = null
attr (arr items) name = null

-- `_as_dict`
abbrev pub as_dict : Json → Dict String Json
as_dict (obj fields) = to_dict fields
as_dict null = []
as_dict (flag b) = []
as_dict (num x) = []
as_dict (text s) = []
as_dict (arr items) = []

-- `_to_memory`
unfoldable pub to_memory : Reader → Json → Result ProviderMemory
to_memory r edge = do
  content ← as_content r (or_else r (attr edge "fact") (or_else r (attr edge "content") (text "")))
  created ← r.datetime (attr edge "created_at")
  from ← r.datetime (attr edge "valid_at")
  to ← r.datetime (attr edge "invalid_at")
  score ← r.score (attr edge "score")
  ok (record {
    native_id = r.str (or_else r (attr edge "uuid_") (or_else r (attr edge "uuid") (text "")));
    content = content;
    created_at = created;
    updated_at = none;
    valid_from = from;
    valid_to = to;
    score = score;
    raw = as_dict edge;
  })

-- [self._to_memory(edge) for edge in edges]
unfoldable pub read_edges : Reader → List Json → Result (List ProviderMemory)
unfolding to_memory
read_edges r [] = ok []
read_edges r (edge ∷ edges) = do
  memory ← to_memory r edge
  rest ← read_edges r edges
  ok (memory ∷ rest)

abbrev to_list : Items → List Json
to_list nil = []
to_list (cons x items) = x ∷ to_list items

-- _attr(raw, "edges") or []; what `for` goes through
abbrev pub edges_of : Reader → Json → Result (List Json)
edges_of r (arr items) = ok (to_list items)
edges_of r null = ok []
edges_of r (flag b) = if b then err (other "TypeError") else ok []
edges_of r (num x) = if r.nonzero x then err (other "TypeError") else ok []
edges_of r (text s) = if is_blank s then ok [] else err (other "TypeError")
edges_of r (obj fields) = if truthy r (obj fields) then err (other "TypeError") else ok []

-- (m.score or 0.0) >= min_score
abbrev pub reaches : (Float → Float → Bool) → Option Float → ProviderMemory → Bool
reaches at_least none memory = true
reaches at_least (some least) memory =
    at_least (elim memory.score [ none ↦ record { bits = 0 } | some score ↦ score ]) least

-- `_to_memories`
unfoldable pub to_memories :
    Reader → (Float → Float → Bool) → Json → Option Float → Result (List ProviderMemory)
unfolding read_edges
to_memories r at_least raw least = do
  edges ← edges_of r (attr raw "edges")
  memories ← read_edges r edges
  ok (select (reaches at_least least) memories)
