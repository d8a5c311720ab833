-- ===== src/Adapters/Pgvector/Ranking.antt =====
-- The ranking of src/memgw/adapters/pgvector.py: by either way, the best of the scope come first.
use router_memory_services.Prelude.{
  ℕ, arith, ◌≡◌, ◌⊎◌, refl, sym, subst, ap, ◌∙◌, Bool, true, false, none, List, [], ◌∷◌, ◌++◌, Perm,
  map, select, take, drop, length, sort_by, sort_by-perm, take-append-drop, take-full, All,
  All-map_imp, All-map, IsSorted, IsSorted-map, sort_by-IsSorted, take-IsSorted, take-before-drop,
  map-select, length-map, inl, inr,
}
use mathlib.Core.List.{map-append}
use mathlib.Core.List.Perm
use router_memory_services.Json.{Float}
use router_memory_services.Types.{Scope, SearchQuery}
use router_memory_services.Embedding.{cosine}
use router_memory_services.Adapters.Pgvector.Table.{Row, Host, conditions}
use router_memory_services.Adapters.Pgvector.Reads.{
  rows_in_scope, reaches, Scored, ranks, score_all, search_in_python, search_in_sql,
}

-- The answer is in descending order, and with what is left out it makes up the candidates, none of
-- which is above one that is answered. Something is left out only if the answer is as long as the
-- limit.
pub record IsBest (less : Float → Float → Bool) (limit : ℕ) (candidates answer : List Scored)
    : Type 0 where
  pub rest : List Scored
  pub all_candidates : Perm (answer ++ rest) candidates
  pub full : (rest ≡ []) ⊎ (length answer ≡ limit)
  pub descending : IsSorted (ranks less) answer
  pub above : All (λ x. All (λ y. less x.0 y.0 ≡ false) rest) answer

-- The rows that reach the least score, with their scores.
abbrev pub candidates : Host → SearchQuery → (Row → Float) → List Row → List Scored
candidates h query score rows =
    select (λ pair. reaches h.floats.less query.min_score pair.0) (score_all score rows)

module _ (h : Host) (query : SearchQuery) (scope : Scope) (needle : List Float) where
  module _ (asym : (a b : Float) → h.floats.less a b ≡ true → h.floats.less b a ≡ false)
      (trans : (a b c : Float)
        → h.floats.less a b ≡ false
        → h.floats.less b c ≡ false
        → h.floats.less a c ≡ false) where
    total : (a b : Scored) → ranks h.floats.less a b ≡ false → ranks h.floats.less b a ≡ true
    total a b e = ground (arith, e, asym a.0 b.0)

    later :
        (a b c : Scored)
        → ranks h.floats.less a b ≡ true
        → ranks h.floats.less b c ≡ true
        → ranks h.floats.less a c ≡ true
    later a b c p q = ground (arith, p, q, trans a.0 b.0 c.0)

    -- Where the order of the scores is total, as it is on numbers that are not NaN, the search in
    -- Python answers the best of the rows in the scope that reach the least score, by their cosine,
    -- in descending order, and leaves one out only when the answer is as long as the limit.
    pub search_in_python-IsBest :
        (rows : List Row)
        → IsBest h.floats.less query.limit
            (candidates h query
              (λ row. cosine h.floats needle row.embedding)
              (rows_in_scope scope false none rows))
            (search_in_python h query scope needle rows)
    unfolding search_in_python
    search_in_python-IsBest rows =
        let found =
          candidates h query (λ row. cosine h.floats needle row.embedding)
            (rows_in_scope scope false none rows) in
        let all = sort_by (ranks h.floats.less) found in
        let sorted = sort_by-IsSorted (ranks h.floats.less) total later found in
        record {
          rest = drop query.limit all;
          all_candidates =
              subst (λ xs. Perm xs found) (sym (take-append-drop query.limit all))
                (sort_by-perm (ranks h.floats.less) found);
          full = take-full query.limit all;
          descending = take-IsSorted (ranks h.floats.less) query.limit all sorted;
          above =
              All-map_imp (λ x hs. All-map_imp (λ y p. ground (arith, p)) (drop query.limit all) hs)
                (take query.limit all)
                (take-before-drop (ranks h.floats.less) query.limit all sorted);
        }

  abbrev similar : Scored → Scored
  similar pair = (h.one_minus pair.0, pair.1)

  abbrev by_distance : Scored → Scored → Bool
  by_distance a b = h.nearer a.0 b.0

  -- The rows of the scope that reach the least score, with their distances
  abbrev near : List Row → List Scored
  near rows =
      select (λ pair. reaches h.floats.less query.min_score (h.one_minus pair.0))
        (score_all (λ row. h.distance row.embedding needle) (select (conditions scope) rows))

  rescored :
      (rows : List Row)
      → map similar (score_all (λ row. h.distance row.embedding needle) rows)
        ≡ score_all (λ row. h.one_minus (h.distance row.embedding needle)) rows
  rescored [] = refl
  rescored (row ∷ rows) = ap (◌∷◌ (similar (h.distance row.embedding needle, row))) (rescored rows)

  module _ (total : (a b : Float) → h.nearer a b ≡ false → h.nearer b a ≡ true)
      (trans : (a b c : Float) → h.nearer a b ≡ true → h.nearer b c ≡ true → h.nearer a c ≡ true)
      (reverses : (a b : Float)
        → h.nearer a b ≡ true
        → h.floats.less (h.one_minus a) (h.one_minus b) ≡ false) where
    -- Where the database's order of distances is total and transitive, and a nearer row is not less
    -- similar, the search in SQL answers the best of the rows that the conditions of the scope
    -- select and that reach the least score, by one less their distance, in descending order, and
    -- leaves one out only when the answer is as long as the limit; in which order the database
    -- comes upon the rows does not matter.
    pub search_in_sql-IsBest :
        (rows : List Row)
        → IsBest h.floats.less query.limit
            (candidates h query
              (λ row. h.one_minus (h.distance row.embedding needle))
              (select (conditions scope) rows))
            (search_in_sql h query scope needle rows)
    unfolding search_in_sql
    search_in_sql-IsBest rows =
        let scanned = sort_by (λ (a b : Scored). h.scans a.1 b.1) (near rows) in
        let all = sort_by by_distance scanned in
        let sorted =
          sort_by-IsSorted by_distance (λ a b. total a.0 b.0) (λ a b c. trans a.0 b.0 c.0)
            scanned in
        let falls : (a b : Scored)
            → by_distance a b ≡ true
            → ranks h.floats.less (similar a) (similar b) ≡ true =
          λ a b p. ground (arith, reverses a.0 b.0 p) in
        let joined : map similar (take query.limit all) ++ map similar (drop query.limit all)
            ≡ map similar all =
          sym (map-append similar (take query.limit all) (drop query.limit all))
          ∙ ap (map similar) (take-append-drop query.limit all) in
        let scored : map similar (near rows)
            ≡ candidates h query (λ row. h.one_minus (h.distance row.embedding needle))
                (select (conditions scope) rows) =
          map-select similar (λ pair. reaches h.floats.less query.min_score pair.0)
            (score_all (λ row. h.distance row.embedding needle) (select (conditions scope) rows))
          ∙ ap (select (λ pair. reaches h.floats.less query.min_score pair.0))
              (rescored (select (conditions scope) rows)) in
        record {
          rest = map similar (drop query.limit all);
          all_candidates =
              subst
                (λ xs. Perm xs (
                  candidates h query (λ row. h.one_minus (h.distance row.embedding needle))
                    (select (conditions scope) rows)))
                (sym joined)
                (subst (Perm (map similar all)) scored (
                  Perm.map similar (
                    Perm.trans (sort_by-perm by_distance scanned)
                      (sort_by-perm (λ (a b : Scored). h.scans a.1 b.1) (near rows)))));
          full = elim (take-full query.limit all) [
            | inl e ↦ inl (ap (map similar) e)
            | inr e ↦ inr (length-map similar (take query.limit all) ∙ e)
          ];
          descending =
              IsSorted-map similar (ranks h.floats.less) by_distance falls (take query.limit all)
                (take-IsSorted by_distance query.limit all sorted);
          above = All-map _ similar (take query.limit all) (
              All-map_imp
                (λ x hs.
                  All-map _ similar (drop query.limit all)
                    (All-map_imp (λ y p. reverses x.0 y.0 p) (drop query.limit all) hs))
                (take query.limit all) (take-before-drop by_distance query.limit all sorted));
        }
