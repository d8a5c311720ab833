-- ===== src/Catalog/Store.antt =====
-- The state behind a `Catalog` of src/memgw/catalog.py, and what its methods read from outside.
use router_memory_services.Prelude.{ℕ, suc, String, List, [], none, some}
use router_memory_services.Errors.{ok}
use router_memory_services.Exec.{Exec}
use router_memory_services.Types.{DateTime, Episode}
use router_memory_services.Json.{Json}
use router_memory_services.Ids.{Ids, new_id}
use router_memory_services.Catalog.Schema.{IndexRow, BindingRow, EpisodeRow, insert_index}

-- The readings of the clock and of the random source, each at a tick; SHA-256; pydantic's
-- `model_dump` of an episode; and the rows that other processes commit to `memory_index` between a
-- lookup and the insertion that follows it.
pub record Env : Type 0 where
  pub now : ℕ → DateTime
  pub clock_ms : ℕ → ℕ
  pub randbits : ℕ → ℕ
  pub sha256 : String → String
  pub dump_episode : Episode → Json
  pub rivals : ℕ → List IndexRow

pub record Catalog : Type 0 where
  pub index : List IndexRow
  pub bindings : List BindingRow
  pub episodes : List EpisodeRow
  pub ids : Ids
  pub ticks : ℕ

abbrev pub empty_catalog : Catalog
empty_catalog = record {
  index = [];
  bindings = [];
  episodes = [];
  ids = record { last_ms = 0; last_rand = 0 };
  ticks = 0;
}

-- `_now`
abbrev pub read_now : Env → Exec Catalog DateTime
read_now env c = (ok (env.now c.ticks), record c { ticks = suc c.ticks })

-- `new_id`, with the clock and the random source read at one tick
unfoldable pub mint : Env → String → Catalog → String × Catalog
mint env prefix c =
    let (id, ids) = new_id prefix (env.clock_ms c.ticks) (env.randbits c.ticks) c.ids in
    (id, record c { ids = ids; ticks = suc c.ticks })

-- What the other processes commit goes in, unless it breaks a key.
unfoldable pub commit_rivals : List IndexRow → List IndexRow → List IndexRow
unfolding insert_index
commit_rivals rows table = elim (insert_index rows table) [ none ↦ table | some t ↦ t ]
