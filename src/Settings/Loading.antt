-- ===== src/Settings/Loading.antt =====
-- `Settings` of src/memgw/settings.py, and what is built from it. Python's `int` on texts is a
-- parameter, as are the constructors of the adapters.
use router_memory_services.Prelude.{
  String, ℕ, Bool, not, ◌||◌, Option, none, some, List, [], ◌∷◌, ◌==◌, string_eq, elem, select,
  is_empty, is_set, if◌then◌else◌,
}
use router_memory_services.Dict.{Dict, lookup}
use router_memory_services.Json.{Json, text, obj, Fields, end, field, null}
use router_memory_services.Errors.{Result, ok, err, value_error, other, ◌>>=◌, ◌>>◌}
use router_memory_services.Embedding.{OpenAiEmbedder, openai_embedder}
use router_memory_services.Settings.Parsing.{csv, api_keys, flag, int_or_none}

-- `KNOWN_PROVIDERS`
abbrev pub known_providers : List String
known_providers = "pgvector" ∷ "mem0" ∷ "zep" ∷ []

-- `EXPERIMENTAL`
abbrev pub experimental : List String
experimental = "zep" ∷ []

-- `REQUIRED_KEYS`, without the explanations
abbrev pub required_keys : Dict String String
required_keys =
    ("pgvector", "OPENAI_API_KEY") ∷ ("mem0", "OPENAI_API_KEY") ∷ ("zep", "ZEP_API_KEY") ∷ []

-- Where `int` gives values of a type N
pub record Settings (N : Type 0) : Type 0 where
  pub providers : List String
  pub default_provider : String
  pub keys : Dict String String
  pub catalog_url : String
  pub journal : Bool
  pub openai_api_key : Option String
  pub openai_base_url : Option String
  pub embedding_model : String
  pub embedding_dimension : Option N
  pub extraction_model : String
  pub pgvector_url : String
  pub qdrant_host : String
  pub qdrant_port : N
  pub qdrant_collection : String
  pub zep_api_key : Option String
  pub docs : Bool

-- e.get(key, default)
abbrev pub get_or : String → String → Dict String String → String
get_or key default e = elim (lookup key e) [ none ↦ default | some value ↦ value ]

-- providers[0], where the list is not empty
abbrev pub first_or : String → List String → String
first_or d [] = d
first_or d (p ∷ ps) = p

-- getattr(self, var.lower(), None), for the variables of `required_keys`
abbrev pub credential : {N : Type 0} → Settings N → String → Option String
credential s var =
    if var == "OPENAI_API_KEY"
    then s.openai_api_key
    else if var == "ZEP_API_KEY"
    then s.zep_api_key
    else none

abbrev pub require : Option String → Result (Unit {0})
require value = if is_set value then ok tt else err value_error

-- `_check_credentials`, over its providers
unfoldable pub check_credentials : {N : Type 0} → Settings N → List String → Result (Unit {0})
unfolding lookup
check_credentials s [] = ok tt
check_credentials s (provider ∷ providers) =
    let rest = check_credentials s providers in
    elim (lookup provider required_keys) [
      | none ↦ err (other "KeyError")
      | some var ↦ require (credential s var) >> rest
    ]

unfoldable pub check_providers : List String → Result (Unit {0})
check_providers providers =
    if not (is_empty (select (λ p. not (elem p known_providers)) providers)) || is_empty providers
    then err value_error
    else ok tt

abbrev pub check_default : String → List String → Result (Unit {0})
check_default name providers = if elem name providers then ok tt else err value_error

-- The constructor call of `from_env`
unfoldable pub settings_of :
    {N : Type 0} → Dict String String → List String → String → Option N → N → Settings N
unfolding api_keys flag lookup
settings_of e providers default_provider dimension port = record {
  providers = providers;
  default_provider = default_provider;
  keys = api_keys (get_or "MEMGW_API_KEYS" "" e);
  catalog_url = get_or "MEMGW_CATALOG_URL" "sqlite+aiosqlite:///memgw.db" e;
  journal = flag (lookup "MEMGW_JOURNAL" e);
  openai_api_key = lookup "OPENAI_API_KEY" e;
  openai_base_url = lookup "OPENAI_BASE_URL" e;
  embedding_model = get_or "MEMGW_EMBEDDING_MODEL" "text-embedding-3-small" e;
  embedding_dimension = dimension;
  extraction_model = get_or "MEMGW_EXTRACTION_MODEL" "gpt-4o-mini" e;
  pgvector_url = get_or "MEMGW_PGVECTOR_URL" "sqlite+aiosqlite:///memgw_pgvector.db" e;
  qdrant_host = get_or "MEMGW_QDRANT_HOST" "localhost" e;
  qdrant_port = port;
  qdrant_collection = get_or "MEMGW_QDRANT_COLLECTION" "memgw" e;
  zep_api_key = lookup "ZEP_API_KEY" e;
  docs = flag (some (get_or "MEMGW_DOCS" "true" e));
}

-- `Settings.from_env`
unfoldable pub from_env :
    {N : Type 0} → (String → Result N) → Dict String String → Result (Settings N)
unfolding csv settings_of int_or_none check_credentials check_providers lookup
from_env int e = do
  providers ← ok (csv (get_or "MEMGW_PROVIDERS" "pgvector" e))
  _ ← check_providers providers
  default_provider ← ok (get_or "MEMGW_DEFAULT_PROVIDER" (first_or "" providers) e)
  _ ← check_default default_provider providers
  dimension ← int_or_none int (lookup "MEMGW_EMBEDDING_DIMENSION" e)
  port ← int (get_or "MEMGW_QDRANT_PORT" "6333" e)
  settings ← ok (settings_of e providers default_provider dimension port)
  _ ← check_credentials settings settings.providers
  ok settings

abbrev pub text_or_null : Option String → Json
text_or_null none = null
text_or_null (some s) = text s

-- `mem0_config`; `json` is a number as it stands in the dictionary.
unfoldable pub mem0_config : {N : Type 0} → (N → Json) → Settings N → Fields
mem0_config json s =
    let openai : String → Json = λ model. obj (
      field "provider" (text "openai") (
        field "config"
          (obj (field "model" (text model) (field "api_key" (text_or_null s.openai_api_key) end)))
          end)) in
    field "llm" (openai s.extraction_model) (
      field "embedder" (openai s.embedding_model) (
        field "vector_store"
          (obj (
            field "provider" (text "qdrant") (
              field "config"
                (obj (
                  field "host" (text s.qdrant_host) (
                    field "port" (json s.qdrant_port)
                      (field "collection_name" (text s.qdrant_collection) end))))
                end)))
          end))

-- `build_adapter`, by the constructors that it calls
unfoldable pub build_adapter :
    {N A : Type 0}
    → (Settings N → Result A)
    → (Settings N → Result A)
    → (Settings N → Result A)
    → String
    → Settings N
    → Result A
build_adapter pgvector mem0 zep name s =
    if name == "pgvector"
    then pgvector s
    else if name == "mem0"
    then mem0 s
    else if name == "zep"
    then zep s
    else err value_error

-- `Settings.embedder`
unfoldable pub embedder : Settings ℕ → Result OpenAiEmbedder
unfolding openai_embedder
embedder s = openai_embedder s.embedding_model s.embedding_dimension
