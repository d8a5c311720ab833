-- ===== src/Catalog/MapState.antt =====
-- The state in which `_map` of src/memgw/catalog.py leaves the catalog, whatever it answers.
use router_memory_services.Prelude.{
  ℕ, suc, String, ◌≡◌, refl, ◌∙◌, Bool, true, false, ◌&&◌, not, some, List, [], ◌∷◌, ◌++◌,
  append_assoc, ◌==◌, string_eq, eq_iff, arith, All, select, select-append, is_empty, Bool-cases,
  Option-cases, inl, inr,
}
use router_memory_services.Dict.{Dict, lookup}
use router_memory_services.Types.{Scope}
use router_memory_services.Catalog.Schema.{IndexRow, insert_index}
use router_memory_services.Catalog.Store.{Env, Catalog, mint, commit_rivals}
use router_memory_services.Catalog.Index.{
  Found, new_values, missing_values, revive_one, revive_all, or_blank,
}
use router_memory_services.Catalog.Mapping.{
  Request, known_of, missing_of, raced_of, values_of, revive_stage, attempt, map_index,
}
use router_memory_services.Catalog.Keys.{
  IsKeyed, insert_index-append, insert_index-IsKeyed, commit_rivals-IsKeyed,
}
use router_memory_services.Catalog.Revival.{revive_all-IsKeyed}
use router_memory_services.Catalog.Answer.{IsFresh, missing_values-IsFresh}
use router_memory_services.Catalog.MapLaws.{
  attempt_cases, map_index_induction, filled, learnt, doomed, revived,
}

-- A catalog that differs at most in `memory_index`, the ids and the clock.
abbrev pub SameOthers : Catalog → Catalog → Type 0
SameOthers c c' = (c'.bindings ≡ c.bindings) × (c'.episodes ≡ c.episodes)

module _ (env : Env) (q : Request) where
  new_values-SameOthers :
      (now : ℕ) (missing : List (String × String)) (c : Catalog)
      → SameOthers c (new_values env now q.tenant q.provider q.scope missing c).1
  unfolding new_values mint
  new_values-SameOthers now [] c = (refl, refl)
  new_values-SameOthers now ((m, content) ∷ missing) c =
      let rest = new_values-SameOthers now missing (mint env "mg" c).1 in rest

  values_of-SameOthers : (c : Catalog) → SameOthers c (values_of env q c).1
  unfolding missing_values
  values_of-SameOthers c = elim (Bool-cases (is_empty (missing_of (known_of q c) q.items))) [
    | inl e ↦ rw (e, missing_values) (refl, refl)
    | inr e ↦
        rw (e, missing_values)
          (new_values-SameOthers (env.now c.ticks) (missing_of (known_of q c) q.items)
            (record c { ticks = suc c.ticks }))
  ]

  -- The two ends of the last stage of a pass.
  revive_stage_cases {ℓ} :
      (P : Catalog → Type ℓ) (known : Dict String Found) (c : Catalog)
      → (q.revive ≡ true → P (record c { index = revived env q known c; ticks = suc c.ticks }))
      → P c
      → P (revive_stage env q known c).1
  unfolding revive_stage
  revive_stage_cases P known c revives keeps =
      elim (Bool-cases (q.revive && not (is_empty (doomed env q known c)))) [
        | inl e ↦ rw (e, revive_stage) (revives (ground arith))
        | inr e ↦ rw (e, revive_stage) keeps
      ]

  -- What the stages of a pass keep, `_map` keeps, whatever it answers.
  map_index_keeps {ℓ} :
      (I : Catalog → Type ℓ)
      → ((c : Catalog) → I c → I (filled env q c (raced_of env c)))
      → ((c : Catalog) (table : List IndexRow)
          → insert_index (values_of env q c).0 (raced_of env c) ≡ some table
          → I c
          → I (filled env q c table))
      → ((c : Catalog) (known : Dict String Found)
          → q.revive ≡ true
          → I c
          → I (record c { index = revived env q known c; ticks = suc c.ticks }))
      → (c : Catalog) → I c
      → I (map_index env q c).1
  map_index_keeps I races inserts revives c i =
      map_index_induction env q I (λ _ c'. I c') (λ c' j _. passes c' j)
        (λ c' rows j _. passes c' j) (λ c' e j. j) (λ c' j _. j) c i
    where
      passes : (c' : Catalog) → I c' → I (attempt env q c').1
      passes c' j =
          attempt_cases env q (λ _ d. I d) c' (λ _. races c' j)
            λ table h.
              revive_stage_cases I (learnt env q c') (filled env q c' table)
                (λ r. revives _ (learnt env q c') r (inserts c' table h j)) (inserts c' table h j)

  -- `_map` keeps the primary key and the unique constraint, and touches neither the bindings nor the
  -- episodes, whatever it answers and whatever other processes commit.
  pub map_index-IsKeyed :
      (c : Catalog)
      → IsKeyed c.index
      → IsKeyed (map_index env q c).1.index × SameOthers c (map_index env q c).1
  map_index-IsKeyed c k =
      map_index_keeps (λ d. IsKeyed d.index × SameOthers c d)
        (λ d i. (commit_rivals-IsKeyed (env.rivals d.ticks) d.index i.0, others d i.1))
        (λ d table h i. (
          insert_index-IsKeyed (values_of env q d).0 (raced_of env d) h
              (commit_rivals-IsKeyed (env.rivals d.ticks) d.index i.0),
          others d i.1,
        ))
        (λ d known _ i. (
          revive_all-IsKeyed env (env.now d.ticks) q.tenant q.provider q.scope _ _ d.index i.0,
          i.1,
        ))
        c (k, (refl, refl))
    where
      others : (d : Catalog) → SameOthers c d → SameOthers c (values_of env q d).1
      others d i = ((values_of-SameOthers d).0 ∙ i.0, (values_of-SameOthers d).1 ∙ i.1)

-- The second table is the first with rows put in: no row of it is changed or gone.
abbrev pub Extends : List IndexRow → List IndexRow → Type 0
Extends old new = (rows : List IndexRow) × (new ≡ rows ++ old)

commit_rivals-Extends : (rows table : List IndexRow) → Extends table (commit_rivals rows table)
unfolding commit_rivals
commit_rivals-Extends rows table = elim (Option-cases (insert_index rows table)) [
  | inl e ↦ ([], rw (e, commit_rivals))
  | inr (rest, e) ↦ (rows, rw (e, commit_rivals) (insert_index-append rows table e))
]

Extends-trans : {a b c : List IndexRow} → Extends a b → Extends b c → Extends a c
Extends-trans {a} {b} {c} (xs, p) (ys, r) = (ys ++ xs, ground (arith, append_assoc ys xs a))

-- A read, `ensure_many`, changes no stored row, whatever it answers and whatever other processes
-- commit: the scope that was stored, the hash and the mark of a deletion stay.
pub map_index-Extends :
    (env : Env) (q : Request) (c : Catalog)
    → q.revive ≡ false
    → Extends c.index (map_index env q c).1.index
map_index-Extends env q c reads =
    map_index_keeps env q (λ d. Extends c.index d.index)
      (λ d i. Extends-trans i (commit_rivals-Extends (env.rivals d.ticks) d.index))
      (λ d table h i. Extends-trans i (
        Extends-trans (commit_rivals-Extends (env.rivals d.ticks) d.index)
          ((values_of env q d).0, insert_index-append (values_of env q d).0 (raced_of env d) h)))
      (λ d known r i. absurd (cc)) c ([], refl)

-- A row of the tenant at the provider.
abbrev pub is_of : String → String → IndexRow → Bool
is_of tenant provider row = row.tenant_id == tenant && row.provider == provider

-- What is not the tenant's at the provider.
abbrev pub rows_of_others : String → String → List IndexRow → List IndexRow
rows_of_others tenant provider = select λ row. not (is_of tenant provider row)

module _ (env : Env) (now : ℕ) (tenant provider : String) (scope : Scope) where
  others-revive_one :
      (content m : String) (table : List IndexRow)
      → rows_of_others tenant provider (revive_one env now tenant provider scope content m table)
        ≡ rows_of_others tenant provider table
  unfolding revive_one
  others-revive_one content m [] = refl
  others-revive_one content m (row ∷ table) = ground (arith, others-revive_one content m table)

  others-revive_all :
      (contents : Dict String String) (natives : List String) (table : List IndexRow)
      → rows_of_others tenant provider
          (revive_all env now tenant provider scope contents natives table)
        ≡ rows_of_others tenant provider table
  unfolding revive_all
  others-revive_all contents [] table = refl
  others-revive_all contents (m ∷ natives) table =
      others-revive_all contents natives _
      ∙ others-revive_one (or_blank (lookup m contents)) m table

others-IsFresh :
    (tenant provider : String) (rows : List IndexRow)
    → All (IsFresh tenant provider) rows
    → rows_of_others tenant provider rows ≡ []
others-IsFresh tenant provider [] h = refl
others-IsFresh tenant provider (row ∷ rows) h = ground (
  arith,
  others-IsFresh tenant provider rows h.1,
  eq_iff row.tenant_id tenant,
  eq_iff row.provider provider,
)

-- No other process commits.
abbrev pub Quiet : Env → Type 0
Quiet env = (t : ℕ) → env.rivals t ≡ []

-- While no other process commits, a call of `_map`, read or write, whatever it answers, leaves every
-- row of another tenant or of another provider as it was.
pub map_index-others :
    (env : Env) (q : Request) (c : Catalog)
    → Quiet env
    → rows_of_others q.tenant q.provider (map_index env q c).1.index
      ≡ rows_of_others q.tenant q.provider c.index
unfolding commit_rivals insert_index
map_index-others env q c quiet =
    map_index_keeps env q
      (λ d. rows_of_others q.tenant q.provider d.index ≡ rows_of_others q.tenant q.provider c.index)
      (λ d i. rw (quiet d.ticks) i)
      (λ d table h i.
        let values = (values_of env q d).0 in
        ground (
          arith,
          quiet d.ticks,
          insert_index-append values (raced_of env d) h,
          select-append (λ row. not (is_of q.tenant q.provider row)) values (raced_of env d),
          others-IsFresh q.tenant q.provider values
              (missing_values-IsFresh env q.tenant q.provider q.scope _ d),
        ))
      (λ d known r i.
        others-revive_all env (env.now d.ticks) q.tenant q.provider q.scope _ _ d.index ∙ i)
      c refl
