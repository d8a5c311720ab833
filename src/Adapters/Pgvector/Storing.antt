-- ===== src/Adapters/Pgvector/Storing.antt =====
-- The writes of src/memgw/adapters/pgvector.py: what the table holds after them.
use router_memory_services.Prelude.{
  suc, String, ◌≡◌, refl, sym, subst, ap, ◌∙◌, true, false, Option, none, some, List, [], ◌∷◌,
  string_eq, option_eq, eq_iff, beq_refl, arith, any, map, All, All-both, Bool-cases, Option-cases,
  inl, inr,
}
use router_memory_services.Json.{Float}
use router_memory_services.Errors.{Result, ok, err, Result-cases}
use router_memory_services.Types.{Scope, DateTime, ProviderMemory}
use router_memory_services.Adapters.Pgvector.Table.{
  Row, Store, Host, draw, has_id, holds, conditions, insert_all, to_memory,
}
use router_memory_services.Adapters.Pgvector.Writes.{
  new_row, new_rows, inserted, insert_rows, upsert, find_row,
}
use router_memory_services.Adapters.Pgvector.Keys.{IsKeyed}

-- The table holds the row, and no other of its id comes before it.
abbrev IsThere : List Row → Row → Type 0
IsThere table row = find_row row.native_id table ≡ some row

find_row-none :
    (id : String) (table : List Row) → any (has_id id) table ≡ false → find_row id table ≡ none
unfolding find_row
find_row-none id [] h = refl
find_row-none id (row ∷ table) h = ground (arith, find_row-none id table)

-- What an insertion that succeeds makes of a table.
pub record IsInserted (rows table table' : List Row) : Type 0 where
  pub there : All (IsThere table') rows
  pub kept :
      (id : String) (row : Row) → find_row id table ≡ some row → find_row id table' ≡ some row
  pub keyed : IsKeyed table → IsKeyed table'

find_row-head : (row : Row) (table : List Row) → find_row row.native_id (row ∷ table) ≡ some row
unfolding find_row
find_row-head row table = rw (beq_refl row.native_id)

find_row-cons :
    (id : String) (row other : Row) (table : List Row)
    → any (has_id row.native_id) table ≡ false
    → find_row id table ≡ some other
    → find_row id (row ∷ table) ≡ some other
unfolding find_row
find_row-cons id row other table h e =
    ground (arith, find_row-none row.native_id table h, eq_iff row.native_id id)

insert_all-IsInserted :
    (h : Host) (rows table table' : List Row)
    → insert_all h rows table ≡ ok table'
    → IsInserted rows table table'
unfolding insert_all
insert_all-IsInserted h [] table table' e =
    let same : table ≡ table' = ground arith in
    record {
      there = tt;
      kept = λ id row p. subst (λ t. find_row id t ≡ some row) same p;
      keyed = subst IsKeyed same;
    }
insert_all-IsInserted h (row ∷ rows) table table' e =
    elim (Bool-cases (any (has_id row.native_id) table)) [
      | inl p ↦ absurd (ground arith)
      | inr p ↦ elim (Option-cases (h.refuses row)) [
        | inr (x, q) ↦ absurd (ground arith)
        | inl q ↦
            let rest = insert_all-IsInserted h rows (row ∷ table) table' (ground arith) in
            record {
              there = (rest.kept row.native_id row (find_row-head row table), rest.there);
              kept = λ id other f. rest.kept id other (find_row-cons id row other table p f);
              keyed = λ k. rest.keyed (p, k);
            }
      ]
    ]

holds_self : (value : Option String) → holds value value ≡ true
holds_self none = refl
holds_self (some v) = ground (arith, beq_refl v)

-- A row that a write puts under a scope: its dimensions and all of its labels
abbrev pub IsUnder : Scope → Row → Type 0
IsUnder scope row =
    (conditions scope row ≡ true)
    × (row.tenant ≡ scope.tenant)
    × (row.agent ≡ scope.agent)
    × (row.session ≡ scope.session)
    × (row.labels ≡ scope.labels)

new_row-conditions :
    (scope : Scope) (now : DateTime) (fact : String) (vector : List Float) (id : String)
    → conditions scope (new_row scope now fact vector id) ≡ true
new_row-conditions scope now fact vector id = rw (
  beq_refl scope.subject,
  holds_self scope.tenant,
  holds_self scope.agent,
  holds_self scope.session,
)

abbrev id_of : Result String → String
id_of (ok id) = id
id_of (err e) = ""

pub new_rows-rows :
    (h : Host) (scope : Scope) (now : DateTime) (facts : List String) (vectors : List (List Float))
    (s : Store)
    → (new_rows h scope now facts vectors s).1.rows ≡ s.rows
unfolding new_rows draw
new_rows-rows h scope now [] [] s = refl
new_rows-rows h scope now [] (vector ∷ vectors) s = refl
new_rows-rows h scope now (fact ∷ facts) [] s = refl
new_rows-rows h scope now (fact ∷ facts) (vector ∷ vectors) s =
    let s1 = (draw h s).1 in
    elim (Result-cases (new_rows h scope now facts vectors s1).0) [
      | inl (x, p) ↦ rw p (new_rows-rows h scope now facts vectors s1)
      | inr (rows, p) ↦ rw p (new_rows-rows h scope now facts vectors s1)
    ]

-- The rows for some facts and their vectors, under a scope
abbrev IsMade : List String → List (List Float) → Scope → List Row → Type 0
IsMade facts vectors scope rows =
    (map (λ (row : Row). row.content) rows ≡ facts)
    × (map (λ (row : Row). row.embedding) rows ≡ vectors)
    × All (IsUnder scope) rows

new_rows-facts :
    (h : Host) (scope : Scope) (now : DateTime) (facts : List String) (vectors : List (List Float))
    (s : Store) (rows : List Row)
    → (new_rows h scope now facts vectors s).0 ≡ ok rows
    → IsMade facts vectors scope rows
unfolding new_rows draw
new_rows-facts h scope now [] [] s rows e =
    let same : [] ≡ rows = ground arith in subst (IsMade [] [] scope) same (refl, refl, tt)
new_rows-facts h scope now [] (vector ∷ vectors) s rows e = absurd (ground arith)
new_rows-facts h scope now (fact ∷ facts) [] s rows e = absurd (ground arith)
new_rows-facts h scope now (fact ∷ facts) (vector ∷ vectors) s rows e =
    let s1 = (draw h s).1 in
    elim (Result-cases (new_rows h scope now facts vectors s1).0) [
      | inl (x, p) ↦ absurd (ground (arith, p, e))
      | inr (rest, p) ↦
          let row = new_row scope now fact vector (id_of (draw h s).0) in
          let same : row ∷ rest ≡ rows = ground (arith, p, e) in
          let tail = new_rows-facts h scope now facts vectors s1 rest p in
          subst (IsMade (fact ∷ facts) (vector ∷ vectors) scope) same (
            ap (◌∷◌ fact) tail.0,
            ap (◌∷◌ vector) tail.1,
            (
              (
                new_row-conditions scope now fact vector (id_of (draw h s).0),
                refl,
                refl,
                refl,
                refl,
              ),
              tail.2,
            ),
          )
    ]

-- What an upsert that answers has stored: a row for each fact, with the vector that the embedder gives
-- for it, and a memory for each row.
pub record IsUpserted (h : Host) (facts : List String) (scope : Scope) (s s' : Store)
    (memories : List ProviderMemory) : Type 0 where
  pub contents : map (λ (memory : ProviderMemory). memory.content) memories ≡ facts
  pub rows : List Row
  pub answered : memories ≡ map (to_memory none) rows
  pub stored : All (λ row. IsThere s'.rows row × IsUnder scope row) rows
  pub embedded : h.embed s.ticks facts ≡ ok (map (λ (row : Row). row.embedding) rows)
  pub kept :
      (id : String) (row : Row) → find_row id s.rows ≡ some row → find_row id s'.rows ≡ some row
  pub keyed : IsKeyed s.rows → IsKeyed s'.rows

upserted :
    (h : Host) (facts : List String) (vectors : List (List Float)) (scope : Scope) (s s' : Store)
    (rows : List Row)
    → h.embed s.ticks facts ≡ ok vectors
    → IsInserted rows s.rows s'.rows
    → IsMade facts vectors scope rows
    → IsUpserted h facts scope s s' (map (to_memory none) rows)
upserted h facts vectors scope s s' rows p put made = record {
  contents = contents_of rows ∙ made.0;
  rows = rows;
  answered = refl;
  stored = All-both _ _ rows put.there made.2;
  embedded = p ∙ ap ok (sym made.1);
  kept = put.kept;
  keyed = put.keyed;
}
  where
    contents_of :
        (rows : List Row)
        → map (λ (memory : ProviderMemory). memory.content) (map (to_memory none) rows)
          ≡ map (λ (row : Row). row.content) rows
    contents_of [] = refl
    contents_of (row ∷ rows) = ap (◌∷◌ row.content) (contents_of rows)

pub insert_rows-IsInserted :
    (h : Host) (rows : List Row) (s : Store) (u : Unit {0})
    → (insert_rows h rows s).0 ≡ ok u
    → IsInserted rows s.rows (insert_rows h rows s).1.rows
unfolding insert_rows
insert_rows-IsInserted h rows s u e = elim (Result-cases (inserted h rows s.rows)) [
  | inl (x, p) ↦ absurd (ground (arith, p, e))
  | inr (table, p) ↦ rw p (inserted-table table p)
]
  where
    inserted-table :
        (table : List Row) → inserted h rows s.rows ≡ ok table → IsInserted rows s.rows table
    inserted-table table p = insert_all-IsInserted h rows s.rows table (ground (arith, p))

-- An upsert that answers has stored every fact, each with its vector and under the scope with its
-- dimensions and labels, as a row that its memory stands for; the rows that were there before it are still found, and the keys still hold.
pub upsert-IsUpserted :
    (h : Host) (facts : List String) (scope : Scope) (s : Store) (memories : List ProviderMemory)
    → (upsert h facts scope s).0 ≡ ok memories
    → IsUpserted h facts scope s (upsert h facts scope s).1 memories
unfolding upsert
upsert-IsUpserted h facts scope s memories e = elim (Result-cases (h.embed s.ticks facts)) [
  | inl (x, p) ↦ absurd (ground (arith, p, e))
  | inr (vectors, p) ↦
      let now = h.now (suc s.ticks) in
      let s2 : Store = record s { ticks = suc (suc s.ticks) } in
      let drawn = new_rows h scope now facts vectors s2 in
      elim (Result-cases drawn.0) [
        | inl (x, q) ↦ absurd (ground (arith, p, q, e))
        | inr (rows, q) ↦ elim (Result-cases (insert_rows h rows drawn.1).0) [
          | inl (x, r) ↦ absurd (ground (arith, p, q, r, e))
          | inr (u, r) ↦
              let ends : upsert h facts scope s
                  ≡ (ok (map (to_memory none) rows), (insert_rows h rows drawn.1).1) =
                rw (p, q, r) refl in
              let answer : ◌≡◌ {A = Result (List ProviderMemory)} (ok (map (to_memory none) rows))
                  (ok memories) =
                sym (λ i. (ends i).0) ∙ e in
              let same : map (to_memory none) rows ≡ memories = ground arith in
              let put = insert_rows-IsInserted h rows drawn.1 u r in
              subst (IsUpserted h facts scope s (upsert h facts scope s).1) same (
                subst (λ s'. IsUpserted h facts scope s s' (map (to_memory none) rows))
                  (sym (λ i. (ends i).1))
                  (upserted h facts vectors scope s (insert_rows h rows drawn.1).1 rows p
                    (subst (λ t. IsInserted rows t (insert_rows h rows drawn.1).1.rows)
                      (new_rows-rows h scope now facts vectors s2) put)
                    (new_rows-facts h scope now facts vectors s2 rows q)))
        ]
      ]
]
