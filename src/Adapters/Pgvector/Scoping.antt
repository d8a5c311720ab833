-- ===== src/Adapters/Pgvector/Scoping.antt =====
-- What the reads of src/memgw/adapters/pgvector.py answer from.
use router_memory_services.Prelude.{
  ℕ, ◌≤◌, ◌≡◌, refl, subst, Bool, true, false, ◌&&◌, Option, none, some, List, [], ◌∷◌, ◌==◌,
  string_eq, arith, map, length, select, is_empty, sort_by, All, All-map_imp, All-take, All-select,
  All-sort_by, All-map, all-is_empty, length-take_le, length-map, Bool-cases, inl, inr, Memᴰ,
  All-Memᴰ, if◌then◌else◌, option_eq,
}
use router_memory_services.Json.{Float}
use router_memory_services.Dict.{lookup}
use router_memory_services.Errors.{ok, Result-cases}
use router_memory_services.Types.{Scope, SearchQuery, ProviderMemory, semantic, mode_eq}
use router_memory_services.Embedding.{cosine}
use router_memory_services.Adapters.Pgvector.Table.{
  Row, Store, Host, conditions, labelled, recent, to_memory,
}
use router_memory_services.Adapters.Pgvector.Writes.{only}
use router_memory_services.Adapters.Pgvector.Reads.{
  rows_in_scope, cut, reaches, Scored, ranks, to_memories, search_in_python, search_in_sql, ranked,
  search, list_scope,
}
use router_memory_services.Adapters.Pgvector.Erasure.{belongs}

-- A row that the table holds, and that is of the scope.
abbrev pub IsRowOf : Scope → List Row → Row → Type 0
IsRowOf scope rows row = Memᴰ row rows × (belongs scope row ≡ true)

-- A memory that stands for a row of the scope.
abbrev pub IsHeld : Scope → List Row → ProviderMemory → Type 0
IsHeld scope rows memory =
    (row : Row) × IsRowOf scope rows row
    × (memory.native_id ≡ row.native_id)
    × (memory.content ≡ row.content)

-- A scored row of the scope that reaches the least score.
abbrev IsScored : Host → SearchQuery → Scope → List Row → Scored → Type 0
IsScored h query scope rows pair =
    IsRowOf scope rows pair.1 × (reaches h.floats.less query.min_score pair.0 ≡ true)

-- A memory that stands for a row of the scope, with a score that reaches the least score.
abbrev pub IsHit : Host → SearchQuery → Scope → List Row → ProviderMemory → Type 0
IsHit h query scope rows memory =
    IsHeld scope rows memory
    × ((score : Float) × (memory.score ≡ some score)
        × (reaches h.floats.less query.min_score score ≡ true))

conditions-belongs :
    (scope : Scope) (rows : List Row)
    → is_empty scope.labels ≡ true
    → All (IsRowOf scope rows) (select (conditions scope) rows)
conditions-belongs scope rows e =
    All-map_imp
      (λ row h. (
        h.0,
        ground (
          arith,
          h.1,
          all-is_empty (λ label. lookup label.0 row.labels == some label.1) scope.labels e,
        ),
      ))
      (select (conditions scope) rows)
      (All-select (λ row. Memᴰ row rows) (conditions scope) rows (All-Memᴰ rows))

ordered-all :
    (P : Row → Type 0) (by_recent : Bool) (rows : List Row)
    → All P rows
    → All P (if by_recent then sort_by recent rows else rows)
ordered-all P true rows h = All-sort_by P recent rows h
ordered-all P false rows h = h

cut-all :
    (P : Row → Type 0) (limit : Option ℕ) (rows : List Row) → All P rows → All P (cut limit rows)
cut-all P none rows h = h
cut-all P (some n) rows h = All-take P n rows h

rows_in_scope-IsRowOf :
    (scope : Scope) (by_recent : Bool) (limit : Option ℕ) (rows : List Row)
    → All (IsRowOf scope rows) (rows_in_scope scope by_recent limit rows)
unfolding rows_in_scope
rows_in_scope-IsRowOf scope by_recent limit rows = elim (Bool-cases (is_empty scope.labels)) [
  | inl e ↦ rw e (cut-all _ limit _ (ordered-all _ by_recent _ (conditions-belongs scope rows e)))
  | inr e ↦ rw e (
      cut-all _ limit _ (
        All-map_imp (λ row h. (h.0.0, ground (arith, h))) _
          (All-select _ (labelled scope) _ (
            ordered-all _ by_recent _
              (All-select (λ row. Memᴰ row rows) (conditions scope) rows (All-Memᴰ rows))))))
]

rows_in_scope-length :
    (scope : Scope) (limit : ℕ) (rows : List Row)
    → length (rows_in_scope scope true (some limit) rows) ≤ limit
unfolding rows_in_scope
rows_in_scope-length scope limit rows = elim (Bool-cases (is_empty scope.labels)) [
  | inl e ↦ rw e (length-take_le limit _)
  | inr e ↦ rw e (length-take_le limit _)
]

module _ (h : Host) (query : SearchQuery) (scope : Scope) (needle : List Float)
    (rows : List Row) where
  python-IsScored : All (IsScored h query scope rows) (search_in_python h query scope needle rows)
  unfolding search_in_python
  python-IsScored = All-take _ query.limit _ (
      All-sort_by _ (ranks h.floats.less) _ (
        All-select (λ pair. IsRowOf scope rows pair.1)
          (λ pair. reaches h.floats.less query.min_score pair.0) _
          (All-map (λ (pair : Scored). IsRowOf scope rows pair.1)
            (λ row. (cosine h.floats needle row.embedding, row)) _
            (rows_in_scope-IsRowOf scope false none rows))))

  sql-IsScored :
      is_empty scope.labels ≡ true
      → All (IsScored h query scope rows) (search_in_sql h query scope needle rows)
  unfolding search_in_sql
  sql-IsScored e =
      All-map (IsScored h query scope rows) (λ (pair : Scored). (h.one_minus pair.0, pair.1)) _
        (All-take _ query.limit _ (
          All-sort_by _ (λ a b. h.nearer a.0 b.0) _
            (All-sort_by _ (λ a b. h.scans a.1 b.1) _
              (All-select (λ pair. IsRowOf scope rows pair.1)
                (λ pair. reaches h.floats.less query.min_score (h.one_minus pair.0)) _
                (All-map (λ (pair : Scored). IsRowOf scope rows pair.1)
                  (λ row. (h.distance row.embedding needle, row)) _
                  (conditions-belongs scope rows e))))))

  ranked-IsScored : All (IsScored h query scope rows) (ranked h query scope needle rows)
  ranked-IsScored = elim (Bool-cases (h.native_vectors && is_empty scope.labels)) [
    | inl e ↦ rw e (sql-IsScored (ground (arith, e)))
    | inr e ↦ rw e python-IsScored
  ]

  ranked-length : length (ranked h query scope needle rows) ≤ query.limit
  unfolding search_in_python search_in_sql
  ranked-length = elim (Bool-cases (h.native_vectors && is_empty scope.labels)) [
    | inl e ↦ rw (e, length-map) (length-take_le query.limit _)
    | inr e ↦ rw e (length-take_le query.limit _)
  ]

to_memories-IsHeld :
    (h : Host) (query : SearchQuery) (scope : Scope) (rows : List Row) (pairs : List Scored)
    → All (IsScored h query scope rows) pairs
    → All (IsHit h query scope rows) (to_memories pairs)
to_memories-IsHeld h query scope rows pairs hs =
    All-map (IsHit h query scope rows) (λ (pair : Scored). to_memory (some pair.0) pair.1) pairs
      (All-map_imp (λ pair p. ((pair.1, p.0, refl, refl), (pair.0, refl, p.1))) pairs hs)

-- What a search answers stands for rows of the scope, each of whose scores reaches the least that the
-- query asks for; it is no more than the limit; and the table is what it was.
pub search-IsHeld :
    (h : Host) (query : SearchQuery) (scope : Scope) (s : Store) (memories : List ProviderMemory)
    → (search h query scope s).0 ≡ ok memories
    → All (IsHit h query scope s.rows) memories
      × (length memories ≤ query.limit)
      × ((search h query scope s).1.rows ≡ s.rows)
unfolding search
search-IsHeld h query scope s memories e = elim (Bool-cases (query.mode == semantic)) [
  | inr m ↦ absurd (ground arith)
  | inl m ↦ elim (Result-cases (h.embed s.ticks (query.query ∷ []))) [
    | inl (x, p) ↦ absurd (ground arith)
    | inr (vectors, p) ↦ elim (Result-cases (only vectors)) [
      | inl (x, q) ↦ absurd (ground arith)
      | inr (needle, q) ↦
          let pairs = ranked h query scope needle s.rows in
          let same : to_memories pairs ≡ memories = ground (arith, m, p, q, e) in
          (
            subst (All (IsHit h query scope s.rows)) same (
                to_memories-IsHeld h query scope s.rows pairs
                  (ranked-IsScored h query scope needle s.rows)),
            subst (λ ms. length ms ≤ query.limit) same
                (rw (length-map (λ (pair : Scored). to_memory (some pair.0) pair.1) pairs)
                  (ranked-length h query scope needle s.rows)),
            rw (m, p, q) refl,
          )
    ]
  ]
]

-- What a listing answers stands for rows of the scope, is no more than the limit, and changes nothing.
pub list_scope-IsHeld :
    (scope : Scope) (limit : ℕ) (s : Store) (memories : List ProviderMemory)
    → (list_scope scope limit s).0 ≡ ok memories
    → All (IsHeld scope s.rows) memories
      × (length memories ≤ limit)
      × ((list_scope scope limit s).1 ≡ s)
unfolding list_scope
list_scope-IsHeld scope limit s memories e =
    let rows = rows_in_scope scope true (some limit) s.rows in
    let same : map (to_memory none) rows ≡ memories = ground arith in
    (
      subst (All (IsHeld scope s.rows)) same (
          All-map (IsHeld scope s.rows) (to_memory none) rows (
            All-map_imp (λ row p. (row, p, refl, refl)) rows
              (rows_in_scope-IsRowOf scope true (some limit) s.rows))),
      subst (λ ms. length ms ≤ limit) same
          (rw (length-map (to_memory none) rows) (rows_in_scope-length scope limit s.rows)),
      refl,
    )
