-- ===== src/Adapters/Pgvector/Table.antt =====
-- The table of src/memgw/adapters/pgvector.py, the statements on it, and what the adapter reads from
-- outside. The order of the rows carries no meaning.
use router_memory_services.Prelude.{
  ℕ, suc, String, Bool, true, ◌&&◌, ◌||◌, Option, none, some, List, [], ◌∷◌, ◌==◌, string_eq,
  option_eq, any, all, ltb, nat_beq, str_leb, is_set, if◌then◌else◌,
}
use router_memory_services.Dict.{Dict, lookup}
use router_memory_services.Json.{Float, text}
use router_memory_services.Errors.{Exn, Result, ok, err, integrity}
use router_memory_services.Exec.{Exec}
use router_memory_services.Types.{Scope, Episode, DateTime, ProviderMemory}
use router_memory_services.Ids.{Ids, new_id}
use router_memory_services.Embedding.{Floats}

-- `build_table`
pub record Row : Type 0 where
  pub native_id : String
  pub tenant : Option String
  pub subject : String
  pub agent : Option String
  pub session : Option String
  pub labels : Dict String String
  pub content : String
  pub embedding : List Float
  pub created_at : DateTime
  pub updated_at : DateTime

-- The table, the globals of `new_id`, and the number of readings from outside so far.
pub record Store : Type 0 where
  pub rows : List Row
  pub ids : Ids
  pub ticks : ℕ

-- The embedder and the extractor that the adapter is built with; the clocks and the random source;
-- what other callers of `new_id` make of its globals; what the database refuses beside a repeated
-- key, what it makes of an insertion of no rows, of `select 1`, and of cosine distances; in which order
-- it comes upon the rows, which says how it orders rows of one distance; and the operations of
-- floating-point numbers. The first argument is the tick of the reading.
pub record Host : Type 0 where
  pub embed : ℕ → List String → Result (List (List Float))
  pub dimension : ℕ
  pub extract : Option (ℕ → Episode → Result (List String))
  pub native_vectors : Bool
  pub now : ℕ → DateTime
  pub clock_ms : ℕ → ℕ
  pub randbits : ℕ → ℕ
  pub others : ℕ → Ids → Ids
  pub refuses : Row → Option Exn
  pub no_rows : Exn
  pub ping : ℕ → Result (Unit {0})
  pub cause : Exn → String
  pub floats : Floats
  pub distance : List Float → List Float → Float
  pub one_minus : Float → Float
  pub nearer : Float → Float → Bool
  pub scans : Row → Row → Bool

-- A reading from outside
abbrev pub read {ℓ} : {A : Type ℓ} → (ℕ → Result A) → Exec Store A
read from s = (from s.ticks, record s { ticks = suc s.ticks })

-- `new_id("pv")`
unfoldable pub draw : Host → Exec Store String
draw h s =
    let (id, ids) =
      new_id "pv" (h.clock_ms s.ticks) (h.randbits s.ticks) (h.others s.ticks s.ids) in
    (ok id, record s { ids = ids; ticks = suc s.ticks })

-- `_conditions`: a dimension that the scope sets must be the column's value.
abbrev pub holds : Option String → Option String → Bool
holds value column = if is_set value then column == value else true

abbrev pub conditions : Scope → Row → Bool
conditions scope row =
    row.subject == scope.subject
    && holds scope.tenant row.tenant
    && holds scope.agent row.agent
    && holds scope.session row.session

-- all((row["labels"] or {}).get(k) == v for k, v in scope.labels.items())
abbrev pub labelled : Scope → Row → Bool
labelled scope row = all (λ label. lookup label.0 row.labels == some label.1) scope.labels

-- native_id == …
abbrev pub has_id : String → Row → Bool
has_id id row = row.native_id == id

-- One `insert` of several rows: all of them, or an error and none.
unfoldable pub insert_all : Host → List Row → List Row → Result (List Row)
insert_all h [] table = ok table
insert_all h (row ∷ rows) table =
    if any (has_id row.native_id) table
    then err integrity
    else elim (h.refuses row) [ some e ↦ err e | none ↦ insert_all h rows (row ∷ table) ]

-- order_by(created_at.desc(), native_id)
abbrev pub recent : Row → Row → Bool
recent a b =
    ltb b.created_at a.created_at
    || (nat_beq a.created_at b.created_at && str_leb a.native_id b.native_id)

-- `_to_memory`
abbrev pub to_memory : Option Float → Row → ProviderMemory
to_memory score row = record {
  native_id = row.native_id;
  content = row.content;
  created_at = some row.created_at;
  updated_at = some row.updated_at;
  valid_from = none;
  valid_to = none;
  score = score;
  raw = ("adapter", text "pgvector") ∷ [];
}
