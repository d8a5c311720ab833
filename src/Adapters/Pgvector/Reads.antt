-- ===== src/Adapters/Pgvector/Reads.antt =====
-- `search`, `list_scope` and `get` of src/memgw/adapters/pgvector.py.
use router_memory_services.Prelude.{
  ℕ, Bool, true, false, Option, none, some, List, [], ◌∷◌, ◌==◌, map, is_empty, not, ◌&&◌, select,
  take, sort_by, if◌then◌else◌,
}
use router_memory_services.Json.{Float}
use router_memory_services.Errors.{ok, raise, unsupported_capability}
use router_memory_services.Exec.{Exec, lift, ◌>>=◌}
use router_memory_services.Types.{Scope, SearchQuery, ProviderMemory, semantic, mode_eq}
use router_memory_services.Embedding.{cosine}
use router_memory_services.Adapters.Pgvector.Table.{
  Row, Store, Host, read, conditions, labelled, recent, to_memory,
}
use router_memory_services.Adapters.Pgvector.Writes.{only}

-- [:limit], and LIMIT
abbrev pub cut {ℓ} : {A : Type ℓ} → Option ℕ → List A → List A
cut none xs = xs
cut (some n) xs = take n xs

abbrev pub ordered : Bool → List Row → List Row
ordered by_recent rows = if by_recent then sort_by recent rows else rows

-- `_rows_in_scope`
unfoldable pub rows_in_scope : Scope → Bool → Option ℕ → List Row → List Row
rows_in_scope scope by_recent limit rows =
    let found = ordered by_recent (select (conditions scope) rows) in
    if is_empty scope.labels then cut limit found else cut limit (select (labelled scope) found)

-- Not below the least score that the query asks for.
abbrev pub reaches : (Float → Float → Bool) → Option Float → Float → Bool
reaches less none score = true
reaches less (some least) score = not (less score least)

abbrev pub Scored : Type 0
Scored = Float × Row

-- The order of `sort(key=…, reverse=True)`, which keeps the order of equal scores.
abbrev pub ranks : (Float → Float → Bool) → Scored → Scored → Bool
ranks less a b = not (less a.0 b.0)

abbrev pub score_all : (Row → Float) → List Row → List Scored
score_all score = map λ row. (score row, row)

abbrev pub to_memories : List Scored → List ProviderMemory
to_memories = map λ pair. to_memory (some pair.0) pair.1

module _ (h : Host) (query : SearchQuery) (scope : Scope) (needle : List Float) where
  -- `_search_in_python`
  unfoldable pub search_in_python : List Row → List Scored
  unfolding rows_in_scope cosine sort_by
  search_in_python rows =
      let score : Row → Float = λ row. cosine h.floats needle row.embedding in
      take query.limit (
        sort_by (ranks h.floats.less) (
          select (λ pair. reaches h.floats.less query.min_score pair.0)
            (score_all score (rows_in_scope scope false none rows))))

  -- `_search_in_sql`: the nearest rows come first, rows of one distance as the database comes upon
  -- them, and each row has the similarity as its score.
  unfoldable pub search_in_sql : List Row → List Scored
  unfolding sort_by
  search_in_sql rows =
      let far : Row → Float = λ row. h.distance row.embedding needle in
      map (λ pair. (h.one_minus pair.0, pair.1))
        (take query.limit (
          sort_by (λ a b. h.nearer a.0 b.0)
            (sort_by (λ a b. h.scans a.1 b.1)
              (select (λ pair. reaches h.floats.less query.min_score (h.one_minus pair.0))
                (score_all far (select (conditions scope) rows))))))

  abbrev pub ranked : List Row → List Scored
  ranked rows =
      if h.native_vectors && is_empty scope.labels
      then search_in_sql rows
      else search_in_python rows

unfoldable pub search : Host → SearchQuery → Scope → Exec Store (List ProviderMemory)
search h query scope =
    if not (query.mode == semantic) then lift (raise unsupported_capability) else do
      vectors ← read λ t. h.embed t (query.query ∷ [])
      needle ← lift (only vectors)
      λ s. (ok (to_memories (ranked h query scope needle s.rows)), s)

unfoldable pub list_scope : Scope → ℕ → Exec Store (List ProviderMemory)
unfolding rows_in_scope
list_scope scope limit s =
    (ok (map (to_memory none) (rows_in_scope scope true (some limit) s.rows)), s)
