-- ===== src/Catalog/Keys.antt =====
-- The keys of `memory_index` in src/memgw/catalog.py, and what an insertion says when it succeeds.
use router_memory_services.Prelude.{
  String, ◌≡◌, refl, subst, true, false, none, some, List, [], ◌∷◌, ◌++◌, string_eq, eq_iff, arith,
  any, Option-cases, inl, inr,
}
use router_memory_services.Catalog.Schema.{IndexRow, is_key, conflicts, insert_index}
use router_memory_services.Catalog.Store.{commit_rivals}
use router_memory_services.Catalog.Index.{Found}
use router_memory_services.Catalog.Lookup.{stored, first_of_two}

-- The primary key and the unique constraint hold.
abbrev pub IsKeyed : List IndexRow → Type 0
IsKeyed [] = Unit {0}
IsKeyed (row ∷ table) = (any (conflicts row) table ≡ false) × IsKeyed table

pub insert_index-append :
    (rows table : List IndexRow) {table' : List IndexRow}
    → insert_index rows table ≡ some table'
    → table' ≡ rows ++ table
unfolding insert_index
insert_index-append [] table h = ground arith
insert_index-append (row ∷ rows) table h = elim (Option-cases (insert_index rows table)) [
  | inl e ↦ absurd (ground arith)
  | inr (rest, e) ↦ ground (arith, insert_index-append rows table e)
]

pub insert_index-IsKeyed :
    (rows table : List IndexRow) {table' : List IndexRow}
    → insert_index rows table ≡ some table'
    → IsKeyed table
    → IsKeyed table'
unfolding insert_index
insert_index-IsKeyed [] table h k = subst IsKeyed (ground arith) k
insert_index-IsKeyed (row ∷ rows) table h k = elim (Option-cases (insert_index rows table)) [
  | inl e ↦ absurd (ground arith)
  | inr (rest, e) ↦ ground (arith, insert_index-IsKeyed rows table e k)
]

module _ (tenant provider native : String) where
  pub stored-append :
      (xs ys : List IndexRow)
      → stored tenant provider native (xs ++ ys)
        ≡ first_of_two (stored tenant provider native ys) (stored tenant provider native xs)
  unfolding stored
  stored-append [] ys = ground arith
  stored-append (x ∷ xs) ys = ground (arith, stored-append xs ys)

  -- A row that does not conflict with a table is the only one with its key.
  stored-no-conflict :
      (row : IndexRow) (table : List IndexRow)
      → any (conflicts row) table ≡ false
      → is_key tenant provider native row ≡ true
      → stored tenant provider native table ≡ none
  unfolding stored
  stored-no-conflict row [] h k = refl
  stored-no-conflict row (s ∷ table) h k = ground (
    arith,
    eq_iff row.tenant_id tenant,
    eq_iff row.provider provider,
    eq_iff row.native_id native,
    stored-no-conflict row table (ground arith) k,
  )

  -- An insertion succeeds only where the table has no row for the inserted native ids.
  pub insert_index-fresh :
      (rows table : List IndexRow) {table' : List IndexRow} {found : Found}
      → insert_index rows table ≡ some table'
      → stored tenant provider native rows ≡ some found
      → stored tenant provider native table ≡ none
  unfolding insert_index stored
  insert_index-fresh [] table h e = cc
  insert_index-fresh (row ∷ rows) table h e = elim (Option-cases (insert_index rows table)) [
    | inl fails ↦ absurd (ground arith)
    | inr (rest, yields) ↦ elim (Option-cases (stored tenant provider native rows)) [
      | inr (old, known) ↦ insert_index-fresh rows table yields known
      | inl new ↦ ground (
        arith,
        insert_index-append rows table yields,
        stored-no-conflict row rest,
        stored-append rows table,
      )
    ]
  ]

pub commit_rivals-IsKeyed :
    (rows table : List IndexRow) → IsKeyed table → IsKeyed (commit_rivals rows table)
unfolding commit_rivals
commit_rivals-IsKeyed rows table k = elim (Option-cases (insert_index rows table)) [
  | inl e ↦ rw (e, commit_rivals) k
  | inr (rest, e) ↦ rw (e, commit_rivals) (insert_index-IsKeyed rows table e k)
]

-- What other processes commit does not change what the table says of a native id that it has.
pub stored-commit_rivals :
    (tenant provider native : String) (rows table : List IndexRow) {found : Found}
    → stored tenant provider native table ≡ some found
    → stored tenant provider native (commit_rivals rows table) ≡ some found
unfolding commit_rivals
stored-commit_rivals tenant provider native rows table h =
    elim (Option-cases (insert_index rows table)) [
      | inl e ↦ rw (e, commit_rivals) h
      | inr (rest, e) ↦ rw (
        e,
        commit_rivals,
        insert_index-append rows table e,
        stored-append tenant provider native rows table,
        h,
      )
    ]
