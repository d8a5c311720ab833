-- ===== src/Catalog/Lookup.antt =====
-- `_find_by_native` of src/memgw/catalog.py against a lookup of one native id.
use router_memory_services.Prelude.{
  ℕ, zero, suc, ◌≤◌, String, ◌≡◌, refl, ◌||◌, Option, none, some, List, [], ◌∷◌, string_eq, eq_iff,
  arith, select, any, elem, length, take, drop, if◌then◌else◌,
}
use router_memory_services.Dict.{Dict, lookup, insert, lookup-insert}
use router_memory_services.Catalog.Schema.{IndexRow, is_key}
use router_memory_services.Catalog.Index.{
  Found, found_of, collect, in_chunk, find_chunks, find_by_native, chunks, chunks_from,
}

-- What the table says of one native id. Under the unique constraint one row at most matches.
unfoldable pub stored : String → String → String → List IndexRow → Option Found
stored tenant provider native [] = none
stored tenant provider native (row ∷ table) = elim (stored tenant provider native table) [
  | some found ↦ some found
  | none ↦ if is_key tenant provider native row then some (found_of row) else none
]

abbrev pub first_of_two : Option Found → Option Found → Option Found
first_of_two none b = b
first_of_two (some a) b = some a

module _ (tenant provider native : String) where
  lookup-collect :
      (chunk : List String) (table : List IndexRow) (found : Dict String Found)
      → lookup native (collect (select (in_chunk tenant provider chunk) table) found) ≡ (
          if elem native chunk
          then first_of_two (stored tenant provider native table) (lookup native found)
          else lookup native found)
  unfolding stored collect
  lookup-collect chunk [] found = ground arith
  lookup-collect chunk (row ∷ table) found = ground (
    arith,
    eq_iff row.native_id native,
    lookup-insert row.native_id native (found_of row) found,
    lookup-collect chunk table found,
    lookup-collect chunk table (insert row.native_id (found_of row) found),
  )

  lookup-find_chunks :
      (parts : List (List String)) (table : List IndexRow) (found : Dict String Found)
      → lookup native (find_chunks tenant provider parts table found) ≡ (
          if any (elem native) parts
          then first_of_two (stored tenant provider native table) (lookup native found)
          else lookup native found)
  unfolding find_chunks
  lookup-find_chunks [] table found = refl
  lookup-find_chunks (chunk ∷ parts) table found = ground (
    arith,
    lookup-collect chunk table found,
    lookup-find_chunks parts table (collect (select (in_chunk tenant provider chunk) table) found),
  )

elem-take-drop :
    (a : String) (n : ℕ) (xs : List String) → (elem a (take n xs) || elem a (drop n xs)) ≡ elem a xs
elem-take-drop a zero xs = refl
elem-take-drop a (suc n) [] = refl
elem-take-drop a (suc n) (x ∷ xs) = ground (arith, elem-take-drop a n xs)

length-drop-suc :
    (n : ℕ) (x : String) (xs : List String) → length (drop (suc n) (x ∷ xs)) ≤ length xs
length-drop-suc zero x xs = omega arith
length-drop-suc (suc n) x [] = omega arith
length-drop-suc (suc n) x (y ∷ xs) = omega (arith, length-drop-suc n y xs)

-- With the number of elements as fuel every element is in a chunk.
elem-chunks_from :
    (a : String) (fuel n : ℕ) (xs : List String)
    → length xs ≤ fuel
    → any (elem a) (chunks_from fuel (suc n) xs) ≡ elem a xs
unfolding chunks_from
elem-chunks_from a zero n [] h = refl
elem-chunks_from a zero n (x ∷ xs) h = absurd (omega arith)
elem-chunks_from a (suc fuel) n [] h = refl
elem-chunks_from a (suc fuel) n (x ∷ xs) h = ground (
  arith,
  elem-take-drop a n xs,
  elem-chunks_from a fuel n (drop (suc n) (x ∷ xs)) (omega (arith, length-drop-suc n x xs)),
)

-- The dictionary of `_find_by_native` has each of the native ids asked for exactly when the table
-- has it, and says of it what the table says; it has no other key.
pub lookup-find_by_native :
    (tenant provider native : String) (natives : List String) (table : List IndexRow)
    → lookup native (find_by_native tenant provider natives table)
      ≡ (if elem native natives then stored tenant provider native table else none)
unfolding find_by_native lookup
lookup-find_by_native tenant provider native natives table = ground (
  arith,
  lookup-find_chunks tenant provider native (chunks natives) table [],
  elem-chunks_from native (length natives) 499 natives (omega arith),
)
