-- ===== src/Catalog/Answer.antt =====
-- What one pass of `_map` in src/memgw/catalog.py answers: the rows that the table then holds.
use router_memory_services.Prelude.{
  ℕ, String, ◌≡◌, refl, Bool, true, false, ◌&&◌, not, none, some, List, [], ◌∷◌, string_eq, eq_iff,
  arith, All, elem, select, Option-cases, inl, inr,
}
use router_memory_services.Dict.{Dict, lookup, has, insert, lookup-insert}
use router_memory_services.Types.{Scope}
use router_memory_services.Catalog.Schema.{IndexRow, CatalogRow, to_row, is_live, insert_index}
use router_memory_services.Catalog.Store.{Env, Catalog, mint}
use router_memory_services.Catalog.Index.{
  Found, live, new_values, missing_values, inserted, live_row, live_rows,
}
use router_memory_services.Catalog.Mapping.{
  Request, natives_of, missing_of, known_of, raced_of, values_of,
}
use router_memory_services.Catalog.Lookup.{stored, first_of_two, lookup-find_by_native}
use router_memory_services.Catalog.Keys.{
  insert_index-append, insert_index-fresh, stored-append, stored-commit_rivals,
}
use router_memory_services.Catalog.Revival.{is_none}

-- The live rows of the native ids, in the order of these.
unfoldable pub answer : String → String → List String → List IndexRow → List CatalogRow
answer tenant provider [] table = []
answer tenant provider (native ∷ natives) table =
    let rest = answer tenant provider natives table in
    elim (live_row (stored tenant provider native table)) [ none ↦ rest | some row ↦ row ∷ rest ]

-- A dictionary that says what the table says, of each of the native ids.
abbrev pub Agrees : String → String → Dict String Found → List IndexRow → String → Type 0
Agrees tenant provider known table native =
    (lookup native known ≡ stored tenant provider native table)
    × (is_none (stored tenant provider native table) ≡ false)

pub live_rows-answer :
    (tenant provider : String) (known : Dict String Found) (table : List IndexRow)
    (natives : List String)
    → ((n : String) → elem n natives ≡ true → Agrees tenant provider known table n)
    → live_rows known natives ≡ answer tenant provider natives table
unfolding live_rows answer
live_rows-answer tenant provider known table [] h = refl
live_rows-answer tenant provider known table (n ∷ natives) h = ground (
  arith,
  live_rows-answer tenant provider known table natives (λ m e. h m (ground arith)),
  h n (ground (arith, eq_iff n n)),
)

pub elem-select :
    (n : String) (p : String → Bool) (xs : List String) → elem n (select p xs) ≡ (elem n xs && p n)
elem-select n p [] = refl
elem-select n p (x ∷ xs) = ground (arith, elem-select n p xs, eq_iff x n)

pub elem-missing :
    (n : String) (known : Dict String Found) (items : List (String × String))
    → elem n (natives_of (missing_of known items))
      ≡ (elem n (natives_of items) && not (has n known))
elem-missing n known [] = refl
elem-missing n known ((m, content) ∷ items) = ground (arith, elem-missing n known items, eq_iff m n)

module _ (env : Env) (now : ℕ) (tenant provider : String) (scope : Scope) (n : String) where
  stored-new_values :
      (missing : List (String × String)) (c : Catalog)
      → is_none (stored tenant provider n (new_values env now tenant provider scope missing c).0)
        ≡ not (elem n (natives_of missing))
  unfolding stored new_values
  stored-new_values [] c = refl
  stored-new_values ((m, content) ∷ missing) c = ground (
    arith,
    stored-new_values missing (mint env "mg" c).1,
    eq_iff tenant tenant,
    eq_iff provider provider,
  )

-- A live row of the tenant at the provider.
abbrev pub IsFresh : String → String → IndexRow → Type 0
IsFresh tenant provider row =
    (row.tenant_id ≡ tenant) × (row.provider ≡ provider) × (is_live row ≡ true)

pub new_values-IsFresh :
    (env : Env) (now : ℕ) (tenant provider : String) (scope : Scope)
    (missing : List (String × String)) (c : Catalog)
    → All (IsFresh tenant provider) (new_values env now tenant provider scope missing c).0
unfolding new_values
new_values-IsFresh env now tenant provider scope [] c = tt
new_values-IsFresh env now tenant provider scope ((m, content) ∷ missing) c = (
  (refl, refl, refl),
  new_values-IsFresh env now tenant provider scope missing (mint env "mg" c).1,
)

lookup-inserted :
    (tenant provider n : String) (values : List IndexRow) (known : Dict String Found)
    → All (IsFresh tenant provider) values
    → lookup n (inserted values known)
      ≡ first_of_two (stored tenant provider n values) (lookup n known)
unfolding stored inserted
lookup-inserted tenant provider n [] known h = refl
lookup-inserted tenant provider n (row ∷ values) known h = ground (
  arith,
  lookup-inserted tenant provider n values (insert row.native_id (live (to_row row)) known) h.1,
  lookup-insert row.native_id n (live (to_row row)) known,
  eq_iff row.tenant_id tenant,
  eq_iff row.provider provider,
)

module _ (env : Env) (tenant provider : String) (scope : Scope) where
  pub missing_values-IsFresh :
      (missing : List (String × String)) (c : Catalog)
      → All (IsFresh tenant provider) (missing_values env tenant provider scope missing c).0
  unfolding missing_values
  missing_values-IsFresh [] c = tt
  missing_values-IsFresh (item ∷ missing) c =
      new_values-IsFresh env _ tenant provider scope (item ∷ missing) _

  pub stored-missing_values :
      (n : String) (missing : List (String × String)) (c : Catalog)
      → is_none (stored tenant provider n (missing_values env tenant provider scope missing c).0)
        ≡ not (elem n (natives_of missing))
  unfolding missing_values stored
  stored-missing_values n [] c = refl
  stored-missing_values n (item ∷ missing) c =
      stored-new_values env (env.now c.ticks) tenant provider scope n (item ∷ missing) _

module _ (env : Env) (q : Request) (c : Catalog) where
  -- After an insertion that succeeded, what is known is what the table says, of every native id of
  -- the call, and the table has each of them.
  pub inserted-Agrees :
      (n : String) {table : List IndexRow}
      → insert_index (values_of env q c).0 (raced_of env c) ≡ some table
      → elem n (natives_of q.items) ≡ true
      → Agrees q.tenant q.provider (inserted (values_of env q c).0 (known_of q c)) table n
  inserted-Agrees n {table} h e =
      let values = (values_of env q c).0 in
      let raced = raced_of env c in
      let appended = insert_index-append values raced h in
      let split = stored-append q.tenant q.provider n values raced in
      let found = lookup-find_by_native q.tenant q.provider n (natives_of q.items) c.index in
      let said =
        lookup-inserted q.tenant q.provider n values (known_of q c)
          (missing_values-IsFresh env q.tenant q.provider q.scope _ c) in
      let count =
        stored-missing_values env q.tenant q.provider q.scope n (missing_of (known_of q c) q.items)
          c in
      let lacking = elem-missing n (known_of q c) q.items in
      elim (Option-cases (stored q.tenant q.provider n c.index)) [
        | inr (f, old) ↦ ground (
          arith,
          appended,
          split,
          found,
          said,
          count,
          lacking,
          stored-commit_rivals q.tenant q.provider n (env.rivals c.ticks) c.index old,
        )
        | inl new ↦ elim (Option-cases (stored q.tenant q.provider n values)) [
          | inl never ↦ absurd (ground (arith, found, count, lacking))
          | inr (f, made) ↦ ground (
            arith,
            appended,
            split,
            found,
            said,
            insert_index-fresh q.tenant q.provider n values raced h made,
          )
        ]
      ]
