-- ===== src/Adapters/Registry.antt =====
-- src/memgw/adapters/__init__.py: the table of factories that the imports of the adapters fill. What
-- importing a module does to the table is a parameter; nothing stands for an ImportError.
use router_memory_services.Prelude.{
  String, ◌≡◌, refl, sym, ap, ◌∙◌, Bool, true, false, Option, none, some, List, [], ◌∷◌, ◌==◌,
  string_eq, elem, map, sort_by, str_leb, arith, ◌||◌, insert_by, if◌then◌else◌, ◌↔◌, inl, inr,
  Option-cases, Bool-cases,
}
use router_memory_services.Dict.{Dict, lookup, insert, has}
use router_memory_services.Errors.{Result, ok, err, gateway, with_code, invalid_request}

-- `_FACTORIES` and `_LOADED`
pub record Registry (F : Type 0) : Type 0 where
  pub factories : Dict String F
  pub loaded : Bool

elem-insert_by :
    (leb : String → String → Bool) (name x : String) (xs : List String)
    → elem name (insert_by leb x xs) ≡ (x == name || elem name xs)
unfolding insert_by
elem-insert_by leb name x [] = refl
elem-insert_by leb name x (y ∷ xs) = ground (arith, elem-insert_by leb name x xs)

elem-sort_by :
    (leb : String → String → Bool) (name : String) (xs : List String)
    → elem name (sort_by leb xs) ≡ elem name xs
unfolding sort_by
elem-sort_by leb name [] = refl
elem-sort_by leb name (x ∷ xs) =
    elem-insert_by leb name x (sort_by leb xs) ∙ rw (elem-sort_by leb name xs) refl

elem-names :
    {F : Type 0} (name : String) (table : Dict String F)
    → elem name (map (λ entry. entry.0) table) ≡ has name table
unfolding lookup
elem-names name [] = refl
elem-names name ((k, f) ∷ table) = ground (arith, elem-names name table)

module _ {F : Type 0} (import_module : String → Dict String F → Option (Dict String F)) where
  unfoldable pub register : String → F → Registry F → Registry F
  unfolding insert
  register name factory r = record r { factories = insert name factory r.factories }

  -- The loop of `_load_builtins`
  unfoldable pub import_all : List String → Dict String F → Dict String F
  import_all [] table = table
  import_all (name ∷ names) table =
      import_all names (elim (import_module name table) [ none ↦ table | some t ↦ t ])

  abbrev pub builtins : List String
  builtins = "memgw.adapters.pgvector" ∷ "memgw.adapters.mem0" ∷ "memgw.adapters.zep" ∷ []

  -- `_load_builtins`
  unfoldable pub load_builtins : Registry F → Registry F
  unfolding import_all
  load_builtins r =
      if r.loaded then r else record { factories = import_all builtins r.factories; loaded = true }

  unfoldable pub available : Registry F → List String × Registry F
  unfolding load_builtins
  available r =
      let r' = load_builtins r in (sort_by str_leb (map (λ entry. entry.0) r'.factories), r')

  abbrev pub or_unknown : Option F → Result F
  or_unknown none = err (gateway (with_code invalid_request "unknown_provider"))
  or_unknown (some factory) = ok factory

  unfoldable pub get : String → Registry F → Result F × Registry F
  unfolding load_builtins lookup
  get name r = let r' = load_builtins r in (or_unknown (lookup name r'.factories), r')

  load_builtins_idem : (r : Registry F) → load_builtins (load_builtins r) ≡ load_builtins r
  unfolding load_builtins
  load_builtins_idem r = elim (Bool-cases r.loaded) [
    | inl e ↦ let same : load_builtins r ≡ r = simp e refl in ap load_builtins same
    | inr e ↦
        let same : load_builtins r
            ≡ record { factories = import_all builtins r.factories; loaded = true } =
          simp e refl in
        ap load_builtins same ∙ sym same
  ]

  -- The providers that `available` names are those that `get` finds; any other name is refused as an
  -- unknown provider; and asking a second time changes nothing.
  pub get-available :
      (name : String) (r : Registry F)
      → ((elem name (available r).0 ≡ true) ↔ ((f : F) × ((get name r).0 ≡ ok f)))
        × ((elem name (available r).0 ≡ false)
            → (get name r).0 ≡ err (gateway (with_code invalid_request "unknown_provider")))
        × (get name (available r).1 ≡ get name r)
  unfolding available get
  get-available name r =
      let table = (load_builtins r).factories in
      let again : get name (available r).1 ≡ get name r =
        ap (λ r'. (or_unknown (lookup name r'.factories), r')) (load_builtins_idem r) in
      let listed =
        elem-sort_by str_leb name (map (λ entry. entry.0) table) ∙ elem-names name table in
      elim (Option-cases (lookup name table)) [
        | inl p ↦ (
          (λ h. absurd (ground (arith, listed, p, h)), λ (f, h). absurd (ground (arith, p, h))),
          λ h. rw p refl,
          again,
        )
        | inr (f, p) ↦ (
          (λ h. (f, rw p refl), λ h. rw (listed, has, p) refl),
          λ h. absurd (ground (arith, listed, p, h)),
          again,
        )
      ]
