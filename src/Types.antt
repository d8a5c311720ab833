-- ===== src/Types.antt =====
-- src/memgw/types.py: the wire types. A `datetime` is a number of ticks, a `float` the number of
-- its 64 bits, and JSON a tree; the core passes these on and computes with none of them.
pub mod ScopeLaws
use Prim.Native.String.{◌++◌ as append}
use router_memory_services.Prelude.{
  ℕ, String, Bool, true, false, not, Option, none, some, List, [], ◌∷◌, Eq, ◌==◌, nat_beq, is_set,
  is_blank, is_empty, strip, if◌then◌else◌, ◌≡◌, ◌↔◌, arith, ltb,
}
use router_memory_services.Dict.{Dict}
use router_memory_services.Json.{Float, Json}
use router_memory_services.Errors.{Result, ok, err, validation, ◌>>=◌}

abbrev pub DateTime : Type 0
DateTime = ℕ

pub data Role : Type 0 where
  user assistant system : Role

pub data SearchMode : Type 0 where
  semantic keyword hybrid graph temporal : SearchMode

pub data OnUnsupported : Type 0 where
  reject degrade : OnUnsupported

abbrev mode_code : SearchMode → ℕ
mode_code semantic = 0
mode_code keyword = 1
mode_code hybrid = 2
mode_code graph = 3
mode_code temporal = 4

abbrev mode_beq : SearchMode → SearchMode → Bool
mode_beq a b = nat_beq (mode_code a) (mode_code b)

pub mode_beq_iff : (a b : SearchMode) → (mode_beq a b ≡ true) ↔ (a ≡ b)
mode_beq_iff a b = ground arith

instance abbrev pub mode_eq : Eq SearchMode
mode_eq = record { beq = mode_beq; beq_iff = mode_beq_iff }

pub record Scope : Type 0 where
  pub subject : String
  pub agent : Option String
  pub session : Option String
  pub labels : Dict String String
  pub tenant : Option String

-- `_subject_must_be_real`
unfoldable pub subject_must_be_real : String → Result String
unfolding strip
subject_must_be_real v = if is_blank (strip v) then err validation else ok v

-- `_blank_is_none`
unfoldable pub blank_is_none : Option String → Option String
unfolding strip
blank_is_none none = none
blank_is_none (some v) = if is_blank (strip v) then none else some (strip v)

-- The constructor `Scope(subject=…, agent=…, …)`, with its validators.
unfoldable pub build_scope :
    String → Option String → Option String → Dict String String → Option String → Result Scope
unfolding subject_must_be_real blank_is_none
build_scope subject agent session labels tenant = do
  subject ← subject_must_be_real subject
  ok (record {
    subject = subject;
    agent = blank_is_none agent;
    session = blank_is_none session;
    labels = labels;
    tenant = tenant;
  })

-- `model_copy` does not run the validators.
unfoldable pub under : String → Scope → Scope
under tenant scope = record scope { tenant = some tenant }

unfoldable pub without_tenant : Scope → Scope
without_tenant scope = record scope { tenant = none }

-- The keys of `Scope.dims`.
pub data Dim : Type 0 where
  tenant_dim subject_dim agent_dim session_dim : Dim

abbrev dim_code : Dim → ℕ
dim_code tenant_dim = 0
dim_code subject_dim = 1
dim_code agent_dim = 2
dim_code session_dim = 3

abbrev dim_beq : Dim → Dim → Bool
dim_beq a b = nat_beq (dim_code a) (dim_code b)

pub dim_beq_iff : (a b : Dim) → (dim_beq a b ≡ true) ↔ (a ≡ b)
dim_beq_iff a b = ground arith

instance abbrev pub dim_eq : Eq Dim
dim_eq = record { beq = dim_beq; beq_iff = dim_beq_iff }

-- `if value: out[dim] = value`
abbrev pub put_if_set : Dim → Option String → Dict Dim String → Dict Dim String
put_if_set d none out = out
put_if_set d (some v) out = if is_blank v then out else (d, v) ∷ out

-- The dimensions that are set, in the order in which `dims` puts them.
unfoldable pub dims : Scope → Dict Dim String
dims scope = put_if_set tenant_dim scope.tenant (
    (subject_dim, scope.subject)
    ∷ put_if_set agent_dim scope.agent (put_if_set session_dim scope.session []))

pub record Message : Type 0 where
  pub role : Role
  pub content : String
  pub at : Option DateTime

pub record Episode : Type 0 where
  pub messages : Option (List Message)
  pub text : Option String
  pub metadata : Dict String Json

-- `_exactly_one_source`
unfoldable pub exactly_one_source : Option (List Message) → Option String → Result (Unit {0})
unfolding strip
exactly_one_source none none = err validation
exactly_one_source (some messages) (some text) = err validation
exactly_one_source (some messages) none = if is_empty messages then err validation else ok tt
exactly_one_source none (some text) = if is_blank (strip text) then err validation else ok tt

-- The constructor `Episode(messages=…, text=…, metadata=…)`.
unfoldable pub build_episode :
    Option (List Message) → Option String → Dict String Json → Result Episode
unfolding exactly_one_source
build_episode messages text metadata = do
  _ ← exactly_one_source messages text
  ok (record { messages = messages; text = text; metadata = metadata })

abbrev pub role_name : Role → String
role_name user = "user"
role_name assistant = "assistant"
role_name system = "system"

abbrev pub line : Message → String
line m = append (role_name m.role) (append ": " m.content)

-- "\n".join(…)
unfoldable pub join_lines : List Message → String
join_lines [] = ""
join_lines (m ∷ []) = line m
join_lines (m ∷ n ∷ rest) = append (line m) (append "\n" (join_lines (n ∷ rest)))

abbrev or_empty : Option (List Message) → List Message
or_empty none = []
or_empty (some ms) = ms

unfoldable pub as_text : Episode → String
unfolding join_lines
as_text episode = elim episode.text [ some t ↦ t | none ↦ join_lines (or_empty episode.messages) ]

pub record SearchQuery : Type 0 where
  pub query : String
  pub mode : SearchMode
  pub limit : ℕ
  pub min_score : Option Float
  pub as_of : Option DateTime
  pub on_unsupported : OnUnsupported
  pub fail_open : Bool

-- The constructor of `SearchQuery`: `limit` is at least 1.
unfoldable pub build_query : SearchQuery → Result SearchQuery
build_query q = if ltb q.limit 1 then err validation else ok q

pub record ProviderMemory : Type 0 where
  pub native_id : String
  pub content : String
  pub created_at : Option DateTime
  pub updated_at : Option DateTime
  pub valid_from : Option DateTime
  pub valid_to : Option DateTime
  pub score : Option Float
  pub raw : Dict String Json

pub record MemoryRecord : Type 0 where
  pub id : String
  pub provider : String
  pub native_id : String
  pub content : String
  pub scope : Scope
  pub score : Option Float
  pub created_at : Option DateTime
  pub updated_at : Option DateTime
  pub valid_from : Option DateTime
  pub valid_to : Option DateTime
  pub provider_raw : Dict String Json

pub record HealthStatus : Type 0 where
  pub ok : Bool
  pub detail : Option String
