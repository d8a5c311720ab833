-- ===== src/Embedding.antt =====
-- src/memgw/embedding.py: what the self-hosted adapter is brought. OpenAI's client, `json.loads` and
-- the arithmetic of floating-point numbers are parameters.
use Prim.Native.String.{◌++◌ as append}
use router_memory_services.Prelude.{
  ℕ, String, Bool, false, not, ◌||◌, Option, none, some, List, [], ◌∷◌, string_eq, ◌==◌, length,
  is_empty, is_blank, strip, nat_beq, if◌then◌else◌, ◌≡◌, All, strip_idem, inl, inr, Bool-cases,
}
use router_memory_services.Dict.{Dict, lookup}
use router_memory_services.Json.{
  Float, Json, null, flag, num, text, arr, obj, Items, nil, cons, Fields, end, field,
}
use router_memory_services.Errors.{Result, ok, err, value_error, ◌>>=◌}
use router_memory_services.Types.{Episode, as_text}

-- The operations of IEEE numbers that `cosine` calls, and Python's `sum`.
pub record Floats : Type 0 where
  pub zero : Float
  pub mul : Float → Float → Float
  pub div : Float → Float → Float
  pub sqrt : Float → Float
  pub sum : List Float → Float
  pub eq : Float → Float → Bool
  pub less : Float → Float → Bool

-- [x * y for x, y in zip(a, b)], for lists of one length
abbrev pub products : Floats → List Float → List Float → List Float
products fl [] b = []
products fl (x ∷ a) [] = []
products fl (x ∷ a) (y ∷ b) = fl.mul x y ∷ products fl a b

unfoldable pub cosine : Floats → List Float → List Float → Float
cosine fl a b =
    if is_empty a || is_empty b || not (nat_beq (length a) (length b))
    then fl.zero
    else let na = fl.sqrt (fl.sum (products fl a a)) in
      let nb = fl.sqrt (fl.sum (products fl b b)) in
      if fl.eq na fl.zero || fl.eq nb fl.zero
      then fl.zero
      else fl.div (fl.sum (products fl a b)) (fl.mul na nb)

abbrev pub openai_dimensions : Dict String ℕ
openai_dimensions =
    ("text-embedding-3-small", 1536)
    ∷ ("text-embedding-3-large", 3072)
    ∷ ("text-embedding-ada-002", 1536)
    ∷ []

pub record OpenAiEmbedder : Type 0 where
  pub model : String
  pub dimension : ℕ

abbrev pub known : Option ℕ → Result ℕ
known none = err value_error
known (some n) = ok n

-- The constructor, `OpenAIEmbedder(model=…, dimension=…)`.
unfoldable pub openai_embedder : String → Option ℕ → Result OpenAiEmbedder
unfolding lookup
openai_embedder model dimension = do
  n ← known (elim dimension [ some n ↦ some n | none ↦ lookup model openai_dimensions ])
  ok (record { model = model; dimension = n })

-- `embed`; `create` is the call of the service.
unfoldable pub embed :
    (String → List String → Result (List (List Float)))
    → OpenAiEmbedder
    → List String
    → Result (List (List Float))
embed create embedder texts = if is_empty texts then ok [] else create embedder.model texts

-- payload.get(key), of an object whose keys are distinct
unfoldable pub get_field : String → Fields → Option Json
get_field key end = none
get_field key (field k v rest) = if k == key then some v else get_field key rest

-- payload.get("facts") if isinstance(payload, dict) else None
abbrev pub facts_of : Json → Option Json
facts_of (obj fields) = get_field "facts" fields
facts_of null = none
facts_of (flag b) = none
facts_of (num x) = none
facts_of (text s) = none
facts_of (arr items) = none

-- [fact.strip() for fact in facts if isinstance(fact, str) and fact.strip()]
unfoldable pub kept : Items → List String
unfolding strip
kept nil = []
kept (cons (text s) rest) =
    let others = kept rest in if is_blank (strip s) then others else strip s ∷ others
kept (cons null rest) = kept rest
kept (cons (flag b) rest) = kept rest
kept (cons (num x) rest) = kept rest
kept (cons (arr items) rest) = kept rest
kept (cons (obj fields) rest) = kept rest

-- not isinstance(facts, list)
abbrev pub kept_of : Option Json → List String
kept_of (some (arr items)) = kept items
kept_of (some null) = []
kept_of (some (flag b)) = []
kept_of (some (num x)) = []
kept_of (some (text s)) = []
kept_of (some (obj fields)) = []
kept_of none = []

abbrev pub read_payload : Option Json → List String
read_payload none = []
read_payload (some payload) = kept_of (facts_of payload)

-- `_facts`; `loads` gives nothing where `json.loads` raises.
unfoldable pub facts : (String → Option Json) → Option String → List String
facts loads none = []
facts loads (some reply) = if is_blank reply then [] else read_payload (loads reply)

-- `OpenAIExtractor.extract`; `complete` is the call of the service, on the prompt and the episode.
unfoldable pub extract :
    (String → Option Json)
    → (String → Result (Option String))
    → String
    → Episode
    → Result (List String)
unfolding facts
extract loads complete prompt episode = do
  reply ← complete (append prompt (as_text episode))
  ok (facts loads reply)

-- A fact that is worth its text: stripped, and not blank.
abbrev pub IsFact : String → Type 0
IsFact fact = (strip fact ≡ fact) × (is_blank fact ≡ false)

kept-IsFact : (items : Items) → All IsFact (kept items)
unfolding kept
kept-IsFact nil = tt
kept-IsFact (cons (text s) rest) = elim (Bool-cases (is_blank (strip s))) [
  | inl e ↦ rw e (kept-IsFact rest)
  | inr e ↦ rw e ((strip_idem s, e), kept-IsFact rest)
]
kept-IsFact (cons null rest) = kept-IsFact rest
kept-IsFact (cons (flag b) rest) = kept-IsFact rest
kept-IsFact (cons (num x) rest) = kept-IsFact rest
kept-IsFact (cons (arr items) rest) = kept-IsFact rest
kept-IsFact (cons (obj fields) rest) = kept-IsFact rest

read_payload-IsFact : (payload : Option Json) → All IsFact (read_payload payload)
read_payload-IsFact none = tt
read_payload-IsFact (some (arr items)) = tt
read_payload-IsFact (some null) = tt
read_payload-IsFact (some (flag b)) = tt
read_payload-IsFact (some (num x)) = tt
read_payload-IsFact (some (text s)) = tt
read_payload-IsFact (some (obj fields)) = kept_of-IsFact (get_field "facts" fields)
  where
    kept_of-IsFact : (found : Option Json) → All IsFact (kept_of found)
    kept_of-IsFact none = tt
    kept_of-IsFact (some (arr items)) = kept-IsFact items
    kept_of-IsFact (some null) = tt
    kept_of-IsFact (some (flag b)) = tt
    kept_of-IsFact (some (num x)) = tt
    kept_of-IsFact (some (text s)) = tt
    kept_of-IsFact (some (obj fs)) = tt

-- Whatever a model replies, every fact that is read from the reply is stripped and not blank.
pub facts-IsFact :
    (loads : String → Option Json) (reply : Option String) → All IsFact (facts loads reply)
unfolding facts
facts-IsFact loads none = tt
facts-IsFact loads (some reply) = elim (Bool-cases (is_blank reply)) [
  | inl e ↦ rw e tt
  | inr e ↦ rw e (read_payload-IsFact (loads reply))
]
