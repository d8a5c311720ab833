-- ===== src/Catalog/Journal.antt =====
-- The operations on `episode_journal` of src/memgw/catalog.py.
use router_memory_services.Prelude.{
  ℕ, String, Bool, not, ◌&&◌, List, ◌∷◌, ◌==◌, string_eq, any, select, length, map, sort_by,
  str_leb, if◌then◌else◌,
}
use router_memory_services.Json.{Json}
use router_memory_services.Dict.{Dict}
use router_memory_services.Errors.{ok, err, integrity}
use router_memory_services.Exec.{Exec, pure, ◌>>=◌}
use router_memory_services.Types.{Scope}
use router_memory_services.Catalog.Schema.{EpisodeRow, JournalRow}
use router_memory_services.Catalog.Store.{Env, Catalog, mint, read_now}
use router_memory_services.Catalog.Rows.{column_is}

-- `insert` into episode_journal, under its primary key
unfoldable pub insert_episode : EpisodeRow → Exec Catalog (Unit {0})
insert_episode row c =
    if any (λ r. r.episode_id == row.episode_id) c.episodes
    then (err integrity, c)
    else (ok tt, record c { episodes = row ∷ c.episodes })

abbrev mint_id : Env → String → Exec Catalog String
mint_id env prefix c = (ok (mint env prefix c).0, (mint env prefix c).1)

unfoldable pub journal :
    Env → String → Scope → Json → Dict String (List String) → Exec Catalog String
unfolding mint insert_episode
journal env tenant scope payload ingested_to = do
  episode_id ← mint_id env "ep"
  now ← read_now env
  _ ← insert_episode (record {
    episode_id = episode_id;
    tenant_id = tenant;
    subject = scope.subject;
    agent = scope.agent;
    session = scope.session;
    payload = payload;
    ingested_to = ingested_to;
    created_at = now;
  })
  pure episode_id

-- The conditions of `delete_journal`
abbrev pub episode_in_scope : String → Scope → EpisodeRow → Bool
episode_in_scope tenant scope row =
    row.tenant_id == tenant
    && row.subject == scope.subject
    && column_is scope.agent row.agent
    && column_is scope.session row.session

unfoldable pub delete_journal : String → Scope → Exec Catalog ℕ
delete_journal tenant scope c = (
  ok (length (select (episode_in_scope tenant scope) c.episodes)),
  record c { episodes = select (λ row. not (episode_in_scope tenant scope row)) c.episodes },
)

abbrev pub to_journal_row : EpisodeRow → JournalRow
to_journal_row row = record {
  episode_id = row.episode_id;
  subject = row.subject;
  agent = row.agent;
  session = row.session;
  payload = row.payload;
  ingested_to = row.ingested_to;
}

abbrev pub is_episode_of : String → String → EpisodeRow → Bool
is_episode_of tenant subject row = row.tenant_id == tenant && row.subject == subject

unfoldable pub journal_rows : String → String → Exec Catalog (List JournalRow)
unfolding sort_by
journal_rows tenant subject c = (
  ok (
      map to_journal_row (
        sort_by (λ r s. str_leb r.episode_id s.episode_id)
          (select (is_episode_of tenant subject) c.episodes))),
  c,
)
