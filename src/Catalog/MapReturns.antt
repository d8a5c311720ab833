-- ===== src/Catalog/MapReturns.antt =====
-- When `_map` of src/memgw/catalog.py answers, and when it raises.
use router_memory_services.Prelude.{
  ℕ, suc, String, ◌≡◌, refl, ◌∙◌, true, false, none, some, List, [], ◌++◌, string_eq, arith,
  is_empty, is_empty-nil, Bool-cases, inl, inr,
}
use router_memory_services.Dict.{has}
use router_memory_services.Errors.{ok, err, integrity}
use router_memory_services.Catalog.Index.{missing_values}
use router_memory_services.Catalog.Schema.{CatalogRow, insert_index}
use router_memory_services.Catalog.Store.{Env, Catalog, commit_rivals}
use router_memory_services.Catalog.Mapping.{
  Request, natives_of, known_of, missing_of, raced_of, values_of, attempt, attempts, or_retry,
  map_index,
}
use router_memory_services.Catalog.Lookup.{stored, lookup-find_by_native}
use router_memory_services.Catalog.Answer.{missing_values-IsFresh, elem-missing}
use router_memory_services.Catalog.MapLaws.{attempt_cases}
use router_memory_services.Catalog.MapState.{Quiet}
use router_memory_services.Catalog.Insertion.{
  IsDistinct, IdsFresh, repeats, row_natives, insert_index-some, insert_index-repeats,
  missing_values-natives, missing_of-IsDistinct, missing_of-repeats,
}

module _ (env : Env) (q : Request) where
  raced-Quiet : (c : Catalog) → env.rivals c.ticks ≡ [] → raced_of env c ≡ c.index
  unfolding commit_rivals insert_index
  raced-Quiet c quiet = rw quiet

  -- A pass answers when no other process commits in the meantime, the native ids of the call differ
  -- and the new ids are new.
  attempt-some :
      (c : Catalog)
      → env.rivals c.ticks ≡ []
      → IsDistinct (natives_of q.items)
      → IdsFresh (values_of env q c).0 c.index
      → (rows : List CatalogRow) × ((attempt env q c).0 ≡ some rows)
  attempt-some c quiet distinct ids =
      attempt_cases env q (λ o _. (rows : List CatalogRow) × (o ≡ some rows)) c
        (λ fails. absurd (cc (fails, raced-Quiet c quiet, goes_in))) (λ table e. (_, refl))
    where
      natives : row_natives (values_of env q c).0 ≡ natives_of (missing_of (known_of q c) q.items)
      natives =
          missing_values-natives env q.tenant q.provider q.scope (missing_of (known_of q c) q.items)
            c

      goes_in : insert_index (values_of env q c).0 c.index ≡ some ((values_of env q c).0 ++ c.index)
      goes_in =
          insert_index-some q.tenant q.provider (values_of env q c).0 c.index
            (missing_values-IsFresh env q.tenant q.provider q.scope _ c)
            (rw natives (missing_of-IsDistinct (known_of q c) q.items distinct))
            (λ n e. ground (
              arith,
              natives,
              elem-missing n (known_of q c) q.items,
              lookup-find_by_native q.tenant q.provider n (natives_of q.items) c.index,
            ))
            ids

  attempts-some :
      (left : ℕ) (c : Catalog) (rows : List CatalogRow)
      → (attempt env q c).0 ≡ some rows
      → (attempts env q (suc left) c).0 ≡ ok rows
  unfolding attempts
  attempts-some left c rows e = rw (e, or_retry)

  attempts-answer :
      (left : ℕ) (c : Catalog) (rows : List CatalogRow)
      → (attempt env q c).0 ≡ some rows
      → attempts env q (suc left) c ≡ (ok rows, (attempt env q c).1)
  unfolding attempts
  attempts-answer left c rows e = rw (e, or_retry)

  attempts-again :
      (c : Catalog)
      → (attempt env q c).0 ≡ none
      → attempts env q 3 c ≡ attempts env q 2 (attempt env q c).1
  unfolding attempts
  attempts-again c e = rw (e, or_retry)

  attempts-twice :
      (c : Catalog)
      → (attempt env q c).0 ≡ none
      → attempts env q 2 c ≡ attempts env q 1 (attempt env q c).1
  unfolding attempts
  attempts-twice c e = rw (e, or_retry)

  attempts-last :
      (c : Catalog)
      → (attempt env q c).0 ≡ none
      → attempts env q 1 c ≡ (err integrity, (attempt env q c).1)
  unfolding attempts
  attempts-last c e = rw (e, or_retry)

  -- A pass meets an `IntegrityError` if a new native id stands twice in the call, and stores nothing.
  attempt-repeats :
      (c : Catalog) (n : String)
      → env.rivals c.ticks ≡ []
      → repeats n (natives_of q.items) ≡ true
      → stored q.tenant q.provider n c.index ≡ none
      → ((attempt env q c).0 ≡ none) × ((attempt env q c).1.index ≡ c.index)
  attempt-repeats c n quiet twice new =
      attempt_cases env q (λ o d. (o ≡ none) × (d.index ≡ c.index)) c
        (λ _. (refl, raced-Quiet c quiet)) (λ table e. absurd (cc (e, fails)))
    where
      unseen : has n (known_of q c) ≡ false
      unseen =
          ground (arith, lookup-find_by_native q.tenant q.provider n (natives_of q.items) c.index)

      fails : insert_index (values_of env q c).0 (raced_of env c) ≡ none
      fails =
          insert_index-repeats q.tenant q.provider n (values_of env q c).0 (raced_of env c)
            (missing_values-IsFresh env q.tenant q.provider q.scope _ c)
            (ground (
              arith,
              missing_values-natives env q.tenant q.provider q.scope
                  (missing_of (known_of q c) q.items) c,
              missing_of-repeats n (known_of q c) q.items unseen,
            ))

  -- `_map` answers when no other process commits, the native ids of the call differ and the new ids
  -- are new.
  pub map_index-returns :
      (c : Catalog)
      → Quiet env
      → IsDistinct (natives_of q.items)
      → IdsFresh (values_of env q c).0 c.index
      → (rows : List CatalogRow) × ((map_index env q c).0 ≡ ok rows)
  unfolding map_index
  map_index-returns c quiet distinct ids = elim (Bool-cases (is_empty q.items)) [
    | inl e ↦ ([], rw (e, map_index))
    | inr e ↦
        let (rows, answers) = attempt-some c (quiet c.ticks) distinct ids in
        (rows, rw (e, map_index) (attempts-some 2 c rows answers))
  ]

  -- A pass over no items answers.
  attempt-empty :
      (c : Catalog)
      → is_empty q.items ≡ true
      → (rows : List CatalogRow) × ((attempt env q c).0 ≡ some rows)
  unfolding missing_values insert_index
  attempt-empty c e =
      let empty = is_empty-nil q.items e in
      let nothing : insert_index (values_of env q c).0 (raced_of env c) ≡ some (raced_of env c) =
        rw empty refl in
      attempt_cases env q (λ o _. (rows : List CatalogRow) × (o ≡ some rows)) c
        (λ fails. absurd (ground (arith, fails, nothing))) (λ table p. (_, refl))

  -- A race that is lost is absorbed: if the first pass of the loop meets an `IntegrityError`, and the
  -- second is not disturbed and mints new ids for native ids that differ, then the second pass
  -- answers, and `_map` answers what it answers and leaves the catalog as it does.
  pub map_index-after_race :
      (c : Catalog)
      → (attempt env q c).0 ≡ none
      → env.rivals (attempt env q c).1.ticks ≡ []
      → IsDistinct (natives_of q.items)
      → IdsFresh (values_of env q (attempt env q c).1).0 (attempt env q c).1.index
      → (rows : List CatalogRow) × ((attempt env q (attempt env q c).1).0 ≡ some rows)
        × (map_index env q c ≡ (ok rows, (attempt env q (attempt env q c).1).1))
  unfolding map_index
  map_index-after_race c lost quiet distinct ids = elim (Bool-cases (is_empty q.items)) [
    | inl e ↦ absurd (ground (arith, attempt-empty c e, lost))
    | inr e ↦
        let (rows, answers) = attempt-some (attempt env q c).1 quiet distinct ids in
        (
          rows,
          answers,
          rw (e, map_index, attempts-again c lost)
              (attempts-answer 1 (attempt env q c).1 rows answers),
        )
  ]

  -- While no other process commits, a call that names one native id twice which the tenant has not
  -- stored at the provider, live or deleted, raises `IntegrityError` after its three passes, and
  -- stores nothing.
  pub map_index-repeats :
      (c : Catalog) (n : String)
      → Quiet env
      → repeats n (natives_of q.items) ≡ true
      → stored q.tenant q.provider n c.index ≡ none
      → ((map_index env q c).0 ≡ err integrity) × ((map_index env q c).1.index ≡ c.index)
  unfolding map_index
  map_index-repeats c n quiet twice new =
      let a = attempt-repeats c n (quiet c.ticks) twice new in
      let c1 = (attempt env q c).1 in
      let b = attempt-repeats c1 n (quiet c1.ticks) twice (rw (a.1) new) in
      let c2 = (attempt env q c1).1 in
      let d = attempt-repeats c2 n (quiet c2.ticks) twice (rw (b.1 ∙ a.1) new) in
      let some_item : is_empty q.items ≡ false = ground arith in
      rw (some_item, map_index, attempts-again c a.0, attempts-twice c1 b.0, attempts-last c2 d.0)
        (refl, d.1 ∙ b.1 ∙ a.1)
