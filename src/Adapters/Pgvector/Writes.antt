-- ===== src/Adapters/Pgvector/Writes.antt =====
-- `ingest`, `upsert` and `update` of src/memgw/adapters/pgvector.py, and its life: `init`, `health`.
use router_memory_services.Prelude.{
  ℕ, String, true, false, Option, none, some, List, [], ◌∷◌, map, is_empty, length, nat_beq,
  string_eq, select, if◌then◌else◌,
}
use router_memory_services.Json.{Float}
use router_memory_services.Errors.{
  Exn, Result, ok, err, value_error, assertion, raise, unsupported_capability, memory_not_found,
}
use router_memory_services.Exec.{Exec, pure, lift, ◌>>=◌}
use router_memory_services.Types.{Scope, Episode, DateTime, ProviderMemory, HealthStatus}
use router_memory_services.Adapters.Pgvector.Table.{
  Row, Store, Host, read, draw, has_id, insert_all, to_memory,
}

-- The check of `_prepare_postgres`, on the width that the database reports.
unfoldable pub check_width : ℕ → Option ℕ → Result (Unit {0})
check_width wanted none = ok tt
check_width wanted (some found) = if nat_beq found wanted then ok tt else err value_error

abbrev to_health : (Exn → String) → Result (Unit {0}) → HealthStatus
to_health cause (ok u) = record { ok = true; detail = none }
to_health cause (err e) = record { ok = false; detail = some (cause e) }

unfoldable pub health : Host → Exec Store HealthStatus
health h s = (ok (to_health h.cause (read h.ping s).0), (read h.ping s).1)

-- [vector] = …
abbrev pub only : List (List Float) → Result (List Float)
only [] = err value_error
only (vector ∷ []) = ok vector
only (vector ∷ w ∷ rest) = err value_error

abbrev pub new_row : Scope → DateTime → String → List Float → String → Row
new_row scope now fact vector id = record {
  native_id = id;
  tenant = scope.tenant;
  subject = scope.subject;
  agent = scope.agent;
  session = scope.session;
  labels = scope.labels;
  content = fact;
  embedding = vector;
  created_at = now;
  updated_at = now;
}

module _ (h : Host) where
  -- The loop of `upsert`; `zip` is strict.
  unfoldable pub new_rows :
      Scope → DateTime → List String → List (List Float) → Exec Store (List Row)
  unfolding draw
  new_rows scope now [] [] = pure []
  new_rows scope now [] (vector ∷ vectors) = lift (err value_error)
  new_rows scope now (fact ∷ facts) [] = lift (err value_error)
  new_rows scope now (fact ∷ facts) (vector ∷ vectors) = do
    id ← draw h
    rows ← new_rows scope now facts vectors
    pure (new_row scope now fact vector id ∷ rows)

  -- conn.execute(insert(table), rows)
  abbrev pub inserted : List Row → List Row → Result (List Row)
  inserted rows table = if is_empty rows then err h.no_rows else insert_all h rows table

  abbrev pub settled : Result (List Row) → Exec Store (Unit {0})
  settled (ok table) s = (ok tt, record s { rows = table })
  settled (err e) s = (err e, s)

  unfoldable pub insert_rows : List Row → Exec Store (Unit {0})
  insert_rows rows s = settled (inserted rows s.rows) s

  unfoldable pub upsert : List String → Scope → Exec Store (List ProviderMemory)
  unfolding new_rows insert_rows
  upsert facts scope = do
    vectors ← read λ t. h.embed t facts
    now ← read λ t. ok (h.now t)
    rows ← new_rows scope now facts vectors
    _ ← insert_rows rows
    pure (map (to_memory none) rows)

  -- `ingest`, by the extractor that the adapter has
  unfoldable pub ingest_by :
      Option (ℕ → Episode → Result (List String))
      → Episode
      → Scope
      → Exec Store (List ProviderMemory)
  unfolding upsert
  ingest_by none episode scope = lift (raise unsupported_capability)
  ingest_by (some extract) episode scope = do
    facts ← read λ t. extract t episode
    if is_empty facts then pure [] else upsert facts scope

  unfoldable pub ingest : Episode → Scope → Exec Store (List ProviderMemory)
  unfolding ingest_by
  ingest = ingest_by h.extract

-- get(native_id)
unfoldable pub find_row : String → List Row → Option Row
find_row id [] = none
find_row id (row ∷ rows) = if has_id id row then some row else find_row id rows

unfoldable pub get : String → Exec Store (Option ProviderMemory)
unfolding find_row
get id s =
    (ok (elim (find_row id s.rows) [ none ↦ none | some row ↦ some (to_memory none row) ]), s)

abbrev pub or_assert : Option ProviderMemory → Result ProviderMemory
or_assert none = err assertion
or_assert (some memory) = ok memory

abbrev pub rewritten : String → List Float → DateTime → Row → Row
rewritten content vector now row = record row {
  content = content;
  embedding = vector;
  updated_at = now;
}

-- update(…).where(native_id == …).values(…), which changes every row or, on an error, none
unfoldable pub rewrite :
    Host → String → String → List Float → DateTime → List Row → Result (List Row)
rewrite h id content vector now [] = ok []
rewrite h id content vector now (row ∷ rows) =
    let rest = rewrite h id content vector now rows in
    let row' = rewritten content vector now row in
    elim rest [
      | err e ↦ err e
      | ok rows' ↦
          if has_id id row
          then elim (h.refuses row') [ some e ↦ err e | none ↦ ok (row' ∷ rows') ]
          else ok (row ∷ rows')
    ]

module _ (h : Host) where
  -- The statement, with its row count
  unfoldable pub rewrite_rows : String → String → List Float → DateTime → Exec Store ℕ
  unfolding rewrite
  rewrite_rows id content vector now s = elim (rewrite h id content vector now s.rows) [
    | err e ↦ (err e, s)
    | ok rows ↦ (ok (length (select (has_id id) s.rows)), record s { rows = rows })
  ]

  unfoldable pub update : String → String → Exec Store ProviderMemory
  unfolding rewrite_rows get
  update id content = do
    vectors ← read λ t. h.embed t (content ∷ [])
    vector ← lift (only vectors)
    now ← read λ t. ok (h.now t)
    count ← rewrite_rows id content vector now
    if nat_beq count 0 then lift (raise memory_not_found) else do got ← get id; lift (or_assert got)
