-- ===== src/Adapters/Pgvector/Erasure.antt =====
-- `delete_scope` of src/memgw/adapters/pgvector.py erases the scope, whichever way it goes.
use router_memory_services.Prelude.{
  ℕ, zero, suc, ◌≤◌, String, ◌≡◌, refl, sym, ◌∙◌, ap, Bool, true, not, ◌&&◌, ◌||◌, some, option_eq,
  List, [], ◌∷◌, ◌==◌, string_eq, arith, elem, length, select, take, drop, is_empty, select-eq,
  select-select, take-append-drop, select-all, select-none, All-every, All-map_imp, length-map,
  all-is_empty, is_empty-map, is_empty-nil, and_right, not_or, Bool-cases, inl, inr,
}
use router_memory_services.Dict.{lookup}
use router_memory_services.Errors.{Result, ok}
use router_memory_services.Types.{Scope}
use router_memory_services.Adapters.Pgvector.Table.{Row, Store, conditions, labelled}
use router_memory_services.Adapters.Pgvector.Erasing.{chunk, delete_chunks, delete_scope}
use router_memory_services.Adapters.Pgvector.Keys.{
  IsKeyed, ids_of, elem-append, length-drop_lt, select-ids_of,
}

-- The rows of a scope: the dimensions that the scope sets, and its labels.
abbrev pub belongs : Scope → Row → Bool
belongs scope row = conditions scope row && labelled scope row

abbrev spared : List String → Row → Bool
spared ids row = not (elem row.native_id ids)

-- With a unit of fuel for each id, the chunks delete what one statement would.
delete_chunks-all :
    (fuel : ℕ) (ids : List String) (rows : List Row)
    → length ids ≤ fuel
    → delete_chunks fuel ids rows ≡ select (λ row. not (elem row.native_id ids)) rows
unfolding delete_chunks
delete_chunks-all zero [] rows h = sym (select-all _ rows (All-every _ (λ row. refl) rows))
delete_chunks-all zero (id ∷ ids) rows h = absurd (omega (arith, h))
delete_chunks-all (suc fuel) [] rows h = sym (select-all _ rows (All-every _ (λ row. refl) rows))
delete_chunks-all (suc fuel) (id ∷ ids) rows h =
    let first = take chunk (id ∷ ids) in
    let rest = drop chunk (id ∷ ids) in
    let both : (row : Row)
        → elem row.native_id (id ∷ ids) ≡ (elem row.native_id first || elem row.native_id rest) =
      λ row.
        ap (elem row.native_id) (sym (take-append-drop chunk (id ∷ ids)))
        ∙ elem-append row.native_id first rest in
    delete_chunks-all fuel rest _ (omega (arith, h, length-drop_lt 499 id ids))
    ∙ select-select (spared rest) (spared first) rows
    ∙ select-eq (λ row. spared first row && spared rest row) (spared (id ∷ ids)) rows
        (All-every _
          (λ row.
            not_or (elem row.native_id first) (elem row.native_id rest) ∙ ap not (sym (both row)))
          rows)

plain :
    (scope : Scope) (p : Bool → Bool) (rows : List Row)
    → is_empty scope.labels ≡ true
    → select (λ row. p (belongs scope row)) rows ≡ select (λ row. p (conditions scope row)) rows
plain scope p rows e =
    select-eq (λ row. p (belongs scope row)) (λ row. p (conditions scope row)) rows
      (All-every _
        (λ row. ap p (
          sym (
            and_right (conditions scope row)
              (all-is_empty (λ label. lookup label.0 row.labels == some label.1) scope.labels e))))
        rows)

untouched :
    (p : Row → Bool) (s : Store)
    → is_empty (ids_of (select p s.rows)) ≡ true
    → ◌≡◌ {A = Result ℕ × Store}
        (ok 0, s)
        (ok (length (select p s.rows)), record s { rows = select (λ row. not (p row)) s.rows })
untouched p s h =
    let nothing : select p s.rows ≡ [] =
      is_empty-nil (select p s.rows)
        (sym (is_empty-map (λ (row : Row). row.native_id) (select p s.rows)) ∙ h) in
    rw (
      nothing,
      select-all (λ row. not (p row)) s.rows
          (All-map_imp (λ row e. rw e) s.rows (select-none p s.rows nothing)),
    )

-- On keyed rows, `delete_scope` removes exactly the rows of the scope, whether by one statement or by
-- chunks of ids, and answers how many they were.
pub delete_scope-erases :
    (scope : Scope) (s : Store)
    → IsKeyed s.rows
    → delete_scope scope s ≡ (
      ok (length (select (belongs scope) s.rows)),
      record s { rows = select (λ row. not (belongs scope row)) s.rows },
    )
unfolding delete_scope
delete_scope-erases scope s k = elim (Bool-cases (is_empty scope.labels)) [
  | inl e ↦ rw (e, plain scope (λ b. b) s.rows e, plain scope not s.rows e)
  | inr e ↦ elim (Bool-cases (is_empty (ids_of (select (belongs scope) s.rows)))) [
    | inl none_left ↦
        rw (e, select-select (labelled scope) (conditions scope) s.rows, none_left)
          (untouched (belongs scope) s none_left)
    | inr some_left ↦ rw (
      e,
      select-select (labelled scope) (conditions scope) s.rows,
      some_left,
      length-map (λ (row : Row). row.native_id) (select (belongs scope) s.rows),
      delete_chunks-all (length (select (belongs scope) s.rows))
          (ids_of (select (belongs scope) s.rows)) s.rows
          (omega
            (arith, length-map (λ (row : Row). row.native_id) (select (belongs scope) s.rows))),
      select-ids_of (belongs scope) s.rows k,
    )
  ]
]
