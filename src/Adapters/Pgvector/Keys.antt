-- ===== src/Adapters/Pgvector/Keys.antt =====
-- The primary key of the table of src/memgw/adapters/pgvector.py.
use router_memory_services.Prelude.{
  ℕ, zero, suc, ◌≤◌, String, ◌≡◌, refl, ap, Bool, false, not, ◌||◌, List, [], ◌∷◌, ◌++◌, ◌==◌,
  string_eq, eq_iff, arith, elem, any, map, length, select, drop, All, All-map_imp, select-eq,
  All-both, Bool-cases, inl, inr, beq_refl,
}
use router_memory_services.Adapters.Pgvector.Table.{Row, has_id}

-- No two rows have one native id.
abbrev pub IsKeyed : List Row → Type 0
IsKeyed [] = Unit {0}
IsKeyed (row ∷ rows) = (any (has_id row.native_id) rows ≡ false) × IsKeyed rows

abbrev pub ids_of : List Row → List String
ids_of = map λ row. row.native_id

any-has_id-select :
    (id : String) (p : Row → Bool) (rows : List Row)
    → any (has_id id) rows ≡ false
    → any (has_id id) (select p rows) ≡ false
any-has_id-select id p [] h = refl
any-has_id-select id p (row ∷ rows) h = ground (arith, any-has_id-select id p rows)

pub select-IsKeyed : (p : Row → Bool) (rows : List Row) → IsKeyed rows → IsKeyed (select p rows)
select-IsKeyed p [] k = tt
select-IsKeyed p (row ∷ rows) k = elim (Bool-cases (p row)) [
  | inl e ↦ rw e (any-has_id-select row.native_id p rows k.0, select-IsKeyed p rows k.1)
  | inr e ↦ rw e (select-IsKeyed p rows k.1)
]

elem-ids_of : (id : String) (rows : List Row) → elem id (ids_of rows) ≡ any (has_id id) rows
elem-ids_of id [] = refl
elem-ids_of id (row ∷ rows) = ground (arith, elem-ids_of id rows)

others_than :
    (id : String) (rows : List Row)
    → any (has_id id) rows ≡ false
    → All (λ row. (id == row.native_id) ≡ false) rows
others_than id [] h = tt
others_than id (row ∷ rows) h = (
  ground (arith, eq_iff id row.native_id, eq_iff row.native_id id),
  others_than id rows (ground arith),
)

-- The ids of a selection of keyed rows are those of the selected rows only.
elem-selected :
    (p : Row → Bool) (rows : List Row)
    → IsKeyed rows
    → All (λ row. elem row.native_id (ids_of (select p rows)) ≡ p row) rows
elem-selected p [] k = tt
elem-selected p (row ∷ rows) k = elim (Bool-cases (p row)) [
  | inl e ↦ rw e (
    rw (beq_refl row.native_id),
    All-map_imp (λ r h. ground (arith, e, h.0, h.1)) rows
        (All-both _ _ rows (others_than row.native_id rows k.0) (elem-selected p rows k.1)),
  )
  | inr e ↦ rw e (
    rw (elem-ids_of row.native_id (select p rows), any-has_id-select row.native_id p rows k.0),
    All-map_imp (λ r h. ground (arith, e, h)) rows (elem-selected p rows k.1),
  )
]

-- Deleting by the ids of a selection is deleting the selection.
pub select-ids_of :
    (p : Row → Bool) (rows : List Row)
    → IsKeyed rows
    → select (λ row. not (elem row.native_id (ids_of (select p rows)))) rows
      ≡ select (λ row. not (p row)) rows
select-ids_of p rows k =
    select-eq _ _ rows (All-map_imp (λ row h. ap not h) rows (elem-selected p rows k))

pub elem-append :
    (id : String) (xs ys : List String) → elem id (xs ++ ys) ≡ (elem id xs || elem id ys)
elem-append id [] ys = refl
elem-append id (x ∷ xs) ys = ground (arith, elem-append id xs ys)

pub length-drop_lt :
    (n : ℕ) (x : String) (xs : List String) → length (drop (suc n) (x ∷ xs)) ≤ length xs
length-drop_lt zero x xs = omega arith
length-drop_lt (suc n) x [] = omega arith
length-drop_lt (suc n) x (y ∷ xs) = omega (arith, length-drop_lt n y xs)
