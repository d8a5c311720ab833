-- ===== src/Catalog/Revival.antt =====
-- `_revive` of src/memgw/catalog.py: which rows it changes, and that their keys stay.
use router_memory_services.Prelude.{
  ℕ, String, ◌≡◌, refl, Bool, true, false, ◌||◌, not, Option, none, some, List, [], ◌∷◌, ◌==◌,
  string_eq, eq_iff, arith, any, elem, ◌∙◌, Bool-cases, inl, inr,
}
use router_memory_services.Dict.{Dict, lookup}
use router_memory_services.Types.{Scope}
use router_memory_services.Catalog.Schema.{IndexRow, conflicts}
use router_memory_services.Catalog.Store.{Env}
use router_memory_services.Catalog.Index.{Found, is_doomed, or_blank, revive_one, revive_all}
use router_memory_services.Catalog.Lookup.{stored}
use router_memory_services.Catalog.Keys.{IsKeyed}

abbrev pub is_none : Option Found → Bool
is_none none = true
is_none (some f) = false

module _ (env : Env) (now : ℕ) (tenant provider : String) (scope : Scope) where
  stored-revive_one_ne :
      (content native m : String) (table : List IndexRow)
      → (m == native) ≡ false
      → stored tenant provider native (revive_one env now tenant provider scope content m table)
        ≡ stored tenant provider native table
  unfolding stored revive_one
  stored-revive_one_ne content native m [] h = refl
  stored-revive_one_ne content native m (row ∷ table) h = ground (
    arith,
    stored-revive_one_ne content native m table h,
    eq_iff row.native_id m,
    eq_iff row.native_id native,
    eq_iff m native,
  )

  is_none-stored-revive_one :
      (content native m : String) (table : List IndexRow)
      → is_none
          (stored tenant provider native (revive_one env now tenant provider scope content m table))
        ≡ is_none (stored tenant provider native table)
  unfolding stored revive_one
  is_none-stored-revive_one content native m [] = refl
  is_none-stored-revive_one content native m (row ∷ table) =
      ground (arith, is_none-stored-revive_one content native m table)

  stored-revive_one_self :
      (content native m : String) (table : List IndexRow)
      → (m == native) ≡ true
      → is_doomed
          (stored tenant provider native (revive_one env now tenant provider scope content m table))
        ≡ is_none (stored tenant provider native table)
  unfolding stored revive_one
  stored-revive_one_self content native m [] p = refl
  stored-revive_one_self content native m (row ∷ table) p = ground (
    arith,
    eq_iff m native,
    is_none-stored-revive_one content native m table,
    stored-revive_one_self content native m table p,
  )

  any-conflicts-revive_one :
      (content m : String) (r : IndexRow) (table : List IndexRow)
      → any (conflicts r) (revive_one env now tenant provider scope content m table)
        ≡ any (conflicts r) table
  unfolding revive_one
  any-conflicts-revive_one content m r [] = refl
  any-conflicts-revive_one content m r (row ∷ table) =
      ground (arith, any-conflicts-revive_one content m r table)

  revive_one-IsKeyed :
      (content m : String) (table : List IndexRow)
      → IsKeyed table
      → IsKeyed (revive_one env now tenant provider scope content m table)
  unfolding revive_one
  revive_one-IsKeyed content m [] k = tt
  revive_one-IsKeyed content m (row ∷ table) k =
      ground (
        arith,
        any-conflicts-revive_one content m row table,
        revive_one-IsKeyed content m table k.1,
      )

module _ (env : Env) (now : ℕ) (tenant provider : String) (scope : Scope)
    (contents : Dict String String) where
  -- What the table says of the native ids that are not revived stays.
  pub stored-revive_all_ne :
      (native : String) (natives : List String) (table : List IndexRow)
      → elem native natives ≡ false
      → stored tenant provider native
          (revive_all env now tenant provider scope contents natives table)
        ≡ stored tenant provider native table
  unfolding revive_all
  stored-revive_all_ne native [] table h = refl
  stored-revive_all_ne native (m ∷ natives) table h =
      stored-revive_all_ne native natives _ (ground arith)
      ∙ stored-revive_one_ne env now tenant provider scope (or_blank (lookup m contents)) native m
          table (ground arith)

  -- A native id that the table has, and that is revived or live already, is live afterwards.
  pub stored-revive_all_live :
      (native : String) (natives : List String) (table : List IndexRow)
      → is_none (stored tenant provider native table) ≡ false
      → (elem native natives || not (is_doomed (stored tenant provider native table))) ≡ true
      → is_doomed (
          stored tenant provider native
            (revive_all env now tenant provider scope contents natives table))
        ≡ false
  unfolding revive_all
  stored-revive_all_live native [] table known h = ground arith
  stored-revive_all_live native (m ∷ natives) table known h =
      let content = or_blank (lookup m contents) in
      let same = is_none-stored-revive_one env now tenant provider scope content native m table in
      elim (Bool-cases (m == native)) [
        | inl p ↦
            let lives =
              stored-revive_one_self env now tenant provider scope content native m table p in
            stored-revive_all_live native natives _ (same ∙ known)
              (rw (lives, known) (ground arith))
        | inr p ↦
            let keeps =
              stored-revive_one_ne env now tenant provider scope content native m table p in
            stored-revive_all_live native natives _ (same ∙ known) (rw keeps (ground arith))
      ]

  pub revive_all-IsKeyed :
      (natives : List String) (table : List IndexRow)
      → IsKeyed table
      → IsKeyed (revive_all env now tenant provider scope contents natives table)
  unfolding revive_all
  revive_all-IsKeyed [] table k = k
  revive_all-IsKeyed (m ∷ natives) table k =
      revive_all-IsKeyed natives _ (revive_one-IsKeyed env now tenant provider scope _ m table k)
