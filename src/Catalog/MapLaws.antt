-- ===== src/Catalog/MapLaws.antt =====
-- What `_map` of src/memgw/catalog.py answers, and in what state it leaves `memory_index`.
use router_memory_services.Prelude.{
  ℕ, zero, suc, String, ◌≡◌, refl, subst, Bool, true, false, ◌&&◌, not, Option, none, some, List,
  [], ◌∷◌, string_eq, arith, elem, is_empty, if◌then◌else◌, Bool-cases, inl, inr, nat_beq,
}
use router_memory_services.Dict.{Dict, lookup, merge, lookup-merge, update_all}
use router_memory_services.Errors.{Exn, Result, ok, err, assertion, integrity}
use router_memory_services.Catalog.Schema.{IndexRow, CatalogRow, insert_index}
use router_memory_services.Catalog.Store.{Env, Catalog}
use router_memory_services.Catalog.Index.{
  Found, find_by_native, inserted, is_doomed, revive_all, retries,
}
use router_memory_services.Catalog.Mapping.{
  Request, natives_of, doomed_of, known_of, raced_of, values_of, revive_stage, after_insert,
  attempt, attempts, or_retry, map_index,
}
use router_memory_services.Catalog.Lookup.{stored, lookup-find_by_native}
use router_memory_services.Catalog.Revival.{is_none, stored-revive_all_ne, stored-revive_all_live}
use router_memory_services.Catalog.Answer.{
  answer, Agrees, live_rows-answer, elem-select, inserted-Agrees,
}

-- What holds of a native id of the call when the transaction is over: the table has it, and a write
-- finds it live.
abbrev pub Settled : Request → List IndexRow → String → Type 0
Settled q table native =
    (is_none (stored q.tenant q.provider native table) ≡ false)
    × (q.revive ≡ true → is_doomed (stored q.tenant q.provider native table) ≡ false)

-- An answer is the table's, and every native id of the call is settled.
pub record Answers (q : Request) (rows : List CatalogRow) (table : List IndexRow) : Type 0 where
  pub rows_are : rows ≡ answer q.tenant q.provider (natives_of q.items) table
  pub settled : (n : String) → elem n (natives_of q.items) ≡ true → Settled q table n

elem-is_empty : (n : String) (xs : List String) → is_empty xs ≡ true → elem n xs ≡ false
elem-is_empty n [] h = refl
elem-is_empty n (x ∷ xs) h = cc

module _ (env : Env) (q : Request) (known : Dict String Found) (c : Catalog) where
  abbrev pub doomed : List String
  doomed = doomed_of known (natives_of q.items)

  abbrev pub revived : List IndexRow
  revived =
      revive_all env (env.now c.ticks) q.tenant q.provider q.scope (update_all [] q.items) doomed
        c.index

  revived-Agrees :
      (n : String)
      → Agrees q.tenant q.provider known c.index n
      → elem n (natives_of q.items) ≡ true
      → Agrees q.tenant q.provider
          (merge known (find_by_native q.tenant q.provider doomed revived))
          revived
          n
        × (is_doomed (stored q.tenant q.provider n revived) ≡ false)
  revived-Agrees n agrees e =
      let dooms = elem-select n (λ m. is_doomed (lookup m known)) (natives_of q.items) in
      let merged = lookup-merge n known (find_by_native q.tenant q.provider doomed revived) in
      let found = lookup-find_by_native q.tenant q.provider n doomed revived in
      let lives =
        stored-revive_all_live env (env.now c.ticks) q.tenant q.provider q.scope
          (update_all [] q.items) n doomed c.index agrees.1 in
      elim (Bool-cases (elem n doomed)) [
        | inl in_it ↦ ground (arith, lives (ground arith), merged, found)
        | inr spared ↦ ground (
          arith,
          dooms,
          merged,
          found,
          stored-revive_all_ne env (env.now c.ticks) q.tenant q.provider q.scope
              (update_all [] q.items) n doomed c.index spared,
        )
      ]

  -- The last stage of a pass, on a dictionary that says what the table says.
  revive_stage-Answers :
      ((n : String)
        → elem n (natives_of q.items) ≡ true
        → Agrees q.tenant q.provider known c.index n)
      → Answers q (revive_stage env q known c).0 (revive_stage env q known c).1.index
  unfolding revive_stage
  revive_stage-Answers h = elim (Bool-cases (q.revive && not (is_empty doomed))) [
    | inl revives ↦
        rw (revives, revive_stage)
          (record {
            rows_are =
                live_rows-answer q.tenant q.provider _ revived (natives_of q.items)
                  λ n e. (revived-Agrees n (h n e) e).0;
            settled = λ n e. let r = revived-Agrees n (h n e) e in (r.0.1, λ _. r.1);
          })
    | inr keeps ↦
        rw (keeps, revive_stage)
          (record {
            rows_are = live_rows-answer q.tenant q.provider known c.index (natives_of q.items) h;
            settled = λ n e. (
              (h n e).1,
              λ revive. ground (
                arith,
                h n e,
                elem-select n (λ m. is_doomed (lookup m known)) (natives_of q.items),
                elem-is_empty n doomed,
              ),
            );
          })
  ]

no_items-Answers :
    (q : Request) (rows : List CatalogRow) (table : List IndexRow)
    → q.items ≡ []
    → rows ≡ []
    → Answers q rows table
unfolding answer
no_items-Answers q rows table e r = record {
  rows_are = ground arith;
  settled = λ n h. ground arith;
}

module _ (env : Env) (q : Request) where
  -- The catalog after an insertion that gave the table, before the revival.
  abbrev pub filled : Catalog → List IndexRow → Catalog
  filled c table = record (values_of env q c).1 { index = table }

  abbrev pub learnt : Catalog → Dict String Found
  learnt c = inserted (values_of env q c).0 (known_of q c)

  -- The two ends of a pass.
  pub attempt_cases {ℓ} :
      (P : Option (List CatalogRow) → Catalog → Type ℓ) (c : Catalog)
      → (insert_index (values_of env q c).0 (raced_of env c) ≡ none
          → P none (filled c (raced_of env c)))
      → ((table : List IndexRow)
          → insert_index (values_of env q c).0 (raced_of env c) ≡ some table
          → P
              (some (revive_stage env q (learnt c) (filled c table)).0)
              (revive_stage env q (learnt c) (filled c table)).1)
      → P (attempt env q c).0 (attempt env q c).1
  attempt_cases P c failed inserts =
      let o = insert_index (values_of env q c).0 (raced_of env c) in
      unfold attempt after_insert in go o refl
    where
      go :
          (o : Option (List IndexRow))
          → insert_index (values_of env q c).0 (raced_of env c) ≡ o
          → P
              (after_insert env q
                (known_of q c)
                (values_of env q c).0
                (filled c (raced_of env c))
                o).0
              (after_insert env q
                (known_of q c)
                (values_of env q c).0
                (filled c (raced_of env c))
                o).1
      go none e = unfold after_insert in failed e
      go (some table) e = unfold after_insert in inserts table e

  -- The ends of the loop: the answer of some pass, or an exception.
  pub attempts_induction {ℓ} :
      (I : Catalog → Type ℓ) (P : Result (List CatalogRow) → Catalog → Type ℓ)
      → ((c : Catalog) → I c → (attempt env q c).0 ≡ none → I (attempt env q c).1)
      → ((c : Catalog) (rows : List CatalogRow)
          → I c
          → (attempt env q c).0 ≡ some rows
          → P (ok rows) (attempt env q c).1)
      → ((c : Catalog) (e : Exn) → I c → P (err e) c)
      → (left : ℕ) (c : Catalog) → I c
      → P (attempts env q left c).0 (attempts env q left c).1
  unfolding attempts
  attempts_induction I P again done failed zero c i = failed c assertion i
  attempts_induction I P again done failed (suc left) c i =
      ends (nat_beq left 0) (attempt env q c).0 refl
        (λ c' i'. attempts_induction I P again done failed left c' i')
    where
      ends :
          (is_last : Bool) (o : Option (List CatalogRow))
          → (attempt env q c).0 ≡ o
          → ((c' : Catalog) → I c' → P (attempts env q left c').0 (attempts env q left c').1)
          → P
              (or_retry is_last (attempts env q left) o (attempt env q c).1).0
              (or_retry is_last (attempts env q left) o (attempt env q c).1).1
      ends is_last (some rows) e rest = done c rows i e
      ends true none e rest = failed (attempt env q c).1 integrity (again c i e)
      ends false none e rest = rest (attempt env q c).1 (again c i e)

  -- The ends of `_map`: no item, the answer of some pass, or an exception.
  pub map_index_induction {ℓ} :
      (I : Catalog → Type ℓ) (P : Result (List CatalogRow) → Catalog → Type ℓ)
      → ((c : Catalog) → I c → (attempt env q c).0 ≡ none → I (attempt env q c).1)
      → ((c : Catalog) (rows : List CatalogRow)
          → I c
          → (attempt env q c).0 ≡ some rows
          → P (ok rows) (attempt env q c).1)
      → ((c : Catalog) (e : Exn) → I c → P (err e) c)
      → ((c : Catalog) → I c → q.items ≡ [] → P (ok []) c)
      → (c : Catalog) → I c
      → P (map_index env q c).0 (map_index env q c).1
  map_index_induction I P again done failed nothing c i =
      unfold map_index in ends (is_empty q.items) refl
    where
      ends :
          (b : Bool)
          → is_empty q.items ≡ b
          → P
              (if b then (ok [], c) else attempts env q retries c).0
              (if b then (ok [], c) else attempts env q retries c).1
      ends true e = nothing c i (ground arith)
      ends false e = attempts_induction I P again done failed retries c i

  attempt-Answers :
      (c : Catalog) (rows : List CatalogRow)
      → (attempt env q c).0 ≡ some rows
      → Answers q rows (attempt env q c).1.index
  attempt-Answers c =
      attempt_cases (λ o c'. (rows : List CatalogRow) → o ≡ some rows → Answers q rows c'.index) c
        (λ _ rows h. cc)
        λ table inserts rows h.
          subst (λ r. Answers q r (revive_stage env q (learnt c) (filled c table)).1.index)
            (ground arith)
            (revive_stage-Answers env q (learnt c) (filled c table)
              (λ n e. inserted-Agrees env q c n inserts e))

  -- An answer of `_map` is what the table holds when the last transaction is over, of every native
  -- id of the call and in their order; the table then has all of them, live if the call is a write.
  pub map_index-Answers :
      (c : Catalog) (rows : List CatalogRow)
      → (map_index env q c).0 ≡ ok rows
      → Answers q rows (map_index env q c).1.index
  map_index-Answers c rows h =
      map_index_induction (λ _. Unit {0}) (λ r c'. r ≡ ok rows → Answers q rows c'.index)
        (λ _ _ _. tt)
        (λ c' rows' _ e h'.
          subst (λ r. Answers q r (attempt env q c').1.index) (ground arith)
            (attempt-Answers c' rows' e))
        (λ _ _ _ h'. cc) (λ c' _ e h'. no_items-Answers q rows c'.index e (ground arith)) c tt h
