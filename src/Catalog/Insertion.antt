-- ===== src/Catalog/Insertion.antt =====
-- When the insertion of `_map` in src/memgw/catalog.py goes through, and when a key stops it.
use router_memory_services.Prelude.{
  ℕ, String, ◌≡◌, refl, ap, Bool, true, false, none, some, List, [], ◌∷◌, ◌++◌, ◌==◌, string_eq,
  eq_iff, arith, any, All, elem, map, if◌then◌else◌, Option-cases, inl, inr,
}
use router_memory_services.Dict.{Dict, has}
use router_memory_services.Types.{Scope}
use router_memory_services.Catalog.Schema.{IndexRow, is_key, conflicts, insert_index}
use router_memory_services.Catalog.Store.{Env, Catalog, mint}
use router_memory_services.Catalog.Index.{Found, new_values, missing_values}
use router_memory_services.Catalog.Mapping.{natives_of, missing_of}
use router_memory_services.Catalog.Lookup.{stored}
use router_memory_services.Catalog.Keys.{insert_index-append}
use router_memory_services.Catalog.Answer.{IsFresh, elem-missing}

abbrev pub row_natives : List IndexRow → List String
row_natives = map λ row. row.native_id

-- No text stands twice in the list.
abbrev pub IsDistinct : List String → Type 0
IsDistinct [] = Unit {0}
IsDistinct (x ∷ xs) = (elem x xs ≡ false) × IsDistinct xs

-- The text stands twice in the list.
abbrev pub repeats : String → List String → Bool
repeats n [] = false
repeats n (x ∷ xs) = if x == n then elem n xs else repeats n xs

-- The gateway ids of the new rows are new, and differ.
abbrev pub IdsFresh : List IndexRow → List IndexRow → Type 0
IdsFresh [] table = Unit {0}
IdsFresh (row ∷ rows) table =
    (any (λ s. row.gateway_id == s.gateway_id) (rows ++ table) ≡ false) × IdsFresh rows table

any-is_key :
    (tenant provider native : String) (table : List IndexRow)
    → stored tenant provider native table ≡ none
    → any (is_key tenant provider native) table ≡ false
unfolding stored
any-is_key tenant provider native [] h = refl
any-is_key tenant provider native (row ∷ table) h =
    ground (arith, any-is_key tenant provider native table)

any-is_key-fresh :
    (tenant provider native : String) (rows : List IndexRow)
    → elem native (row_natives rows) ≡ false
    → any (is_key tenant provider native) rows ≡ false
any-is_key-fresh tenant provider native [] h = refl
any-is_key-fresh tenant provider native (row ∷ rows) h =
    ground (arith, any-is_key-fresh tenant provider native rows)

any-conflicts :
    (row : IndexRow) (xs ys : List IndexRow)
    → any (λ s. row.gateway_id == s.gateway_id) (xs ++ ys) ≡ false
    → any (is_key row.tenant_id row.provider row.native_id) xs ≡ false
    → any (is_key row.tenant_id row.provider row.native_id) ys ≡ false
    → any (conflicts row) (xs ++ ys) ≡ false
any-conflicts row [] [] g k l = refl
any-conflicts row [] (y ∷ ys) g k l = ground (arith, any-conflicts row [] ys)
any-conflicts row (x ∷ xs) ys g k l = ground (arith, any-conflicts row xs ys)

module _ (tenant provider : String) where
  -- New rows with new ids go in if their native ids differ and the table has none of them.
  pub insert_index-some :
      (rows table : List IndexRow)
      → All (IsFresh tenant provider) rows
      → IsDistinct (row_natives rows)
      → ((n : String) → elem n (row_natives rows) ≡ true → stored tenant provider n table ≡ none)
      → IdsFresh rows table
      → insert_index rows table ≡ some (rows ++ table)
  unfolding insert_index
  insert_index-some [] table fresh distinct new ids = refl
  insert_index-some (row ∷ rows) table fresh distinct new ids =
      let rest =
        insert_index-some rows table fresh.1 distinct.1 (λ n e. new n (ground arith)) ids.1 in
      let absent =
        any-is_key tenant provider row.native_id table
          (new row.native_id (ground (arith, eq_iff row.native_id row.native_id))) in
      ground (
        arith,
        rest,
        absent,
        any-is_key-fresh tenant provider row.native_id rows,
        any-conflicts row rows table,
      )

  any-conflicts-fresh :
      (row : IndexRow) (rows table : List IndexRow)
      → IsFresh tenant provider row
      → All (IsFresh tenant provider) rows
      → elem row.native_id (row_natives rows) ≡ true
      → any (conflicts row) (rows ++ table) ≡ true
  any-conflicts-fresh row [] table f fresh e = cc
  any-conflicts-fresh row (s ∷ rows) table f fresh e = ground (
    arith,
    any-conflicts-fresh row rows table f fresh.1,
    eq_iff s.native_id row.native_id,
    eq_iff s.tenant_id row.tenant_id,
    eq_iff s.provider row.provider,
  )

  -- Rows of which two have one native id do not go in.
  pub insert_index-repeats :
      (n : String) (rows table : List IndexRow)
      → All (IsFresh tenant provider) rows
      → repeats n (row_natives rows) ≡ true
      → insert_index rows table ≡ none
  unfolding insert_index
  insert_index-repeats n [] table fresh r = cc
  insert_index-repeats n (row ∷ rows) table fresh r =
      elim (Option-cases (insert_index rows table)) [
        | inl e ↦ ground arith
        | inr (rest, e) ↦ ground (
          arith,
          e,
          insert_index-append rows table e,
          eq_iff row.native_id n,
          insert_index-repeats n rows table fresh.1,
          any-conflicts-fresh row rows table fresh.0 fresh.1,
        )
      ]

-- The native ids of the rows that `_map` inserts are those of the missing items.
pub missing_values-natives :
    (env : Env) (tenant provider : String) (scope : Scope) (missing : List (String × String))
    (c : Catalog)
    → row_natives (missing_values env tenant provider scope missing c).0 ≡ natives_of missing
unfolding missing_values
missing_values-natives env tenant provider scope [] c = refl
missing_values-natives env tenant provider scope (item ∷ missing) c =
    natives env (env.now c.ticks) (item ∷ missing) _
  where
    natives :
        (env : Env) (now : ℕ) (missing : List (String × String)) (c : Catalog)
        → row_natives (new_values env now tenant provider scope missing c).0 ≡ natives_of missing
    natives env now [] c = refl
    natives env now ((m, content) ∷ missing) c =
        ap (◌∷◌ m) (natives env now missing (mint env "mg" c).1)

pub missing_of-IsDistinct :
    (known : Dict String Found) (items : List (String × String))
    → IsDistinct (natives_of items)
    → IsDistinct (natives_of (missing_of known items))
missing_of-IsDistinct known [] d = tt
missing_of-IsDistinct known (item ∷ items) d =
    ground (arith, missing_of-IsDistinct known items d.1, elem-missing item.0 known items)

pub missing_of-repeats :
    (n : String) (known : Dict String Found) (items : List (String × String))
    → has n known ≡ false
    → repeats n (natives_of (missing_of known items)) ≡ repeats n (natives_of items)
missing_of-repeats n known [] h = refl
missing_of-repeats n known (item ∷ items) h =
    ground (arith, missing_of-repeats n known items h, elem-missing n known items, eq_iff item.0 n)
