-- ===== src/Catalog/BindingLaws.antt =====
-- Where a subject lives, after the operations on `scope_binding` of src/memgw/catalog.py.
use router_memory_services.Prelude.{
  ℕ, String, ◌≡◌, refl, true, false, not, ◌&&◌, Option, none, some, List, [], ◌∷◌, ◌==◌, string_eq,
  eq_iff, arith, any, select, length, if◌then◌else◌,
}
use router_memory_services.Errors.{ok}
use router_memory_services.Catalog.Schema.{BindingRow, IndexRow}
use router_memory_services.Catalog.Store.{Env, Catalog}
use router_memory_services.Catalog.Rows.{is_live_of}
use router_memory_services.Catalog.Bindings.{
  is_binding, bound_to, get_binding, bind, rebind, count_orphans, moved_from,
}

abbrev pub or_bound : Option String → String → String
or_bound none provider = provider
or_bound (some p) provider = p

is_bound :
    (tenant subject : String) (rows : List BindingRow)
    → any (is_binding tenant subject) rows
      ≡ elim (bound_to tenant subject rows) [ none ↦ false | some p ↦ true ]
unfolding bound_to
is_bound tenant subject [] = refl
is_bound tenant subject (row ∷ rows) = ground (arith, is_bound tenant subject rows)

-- `bind` binds a subject that was not bound, and never moves a binding: afterwards the subject is
-- bound to what it was bound to, or else to the provider, and every other subject and every other
-- tenant's subject to what it was.
pub bind-get_binding :
    (env : Env) (tenant subject provider t s : String) (c : Catalog)
    → (get_binding t s (bind env tenant subject provider c).1).0
      ≡ ok (
          if tenant == t && subject == s
          then some (or_bound (bound_to tenant subject c.bindings) provider)
          else bound_to t s c.bindings)
unfolding get_binding bind bound_to
bind-get_binding env tenant subject provider t s c =
    ground (arith, is_bound tenant subject c.bindings, eq_iff tenant t, eq_iff subject s)

bound_to-removed :
    (tenant subject t s : String) (rows : List BindingRow)
    → bound_to t s (select (λ r. not (is_binding tenant subject r)) rows)
      ≡ (if tenant == t && subject == s then none else bound_to t s rows)
unfolding bound_to
bound_to-removed tenant subject t s [] = ground arith
bound_to-removed tenant subject t s (row ∷ rows) = ground (
  arith,
  bound_to-removed tenant subject t s rows,
  eq_iff tenant t,
  eq_iff subject s,
  eq_iff row.tenant_id tenant,
  eq_iff row.tenant_id t,
  eq_iff row.subject subject,
  eq_iff row.subject s,
)

pub none_left :
    (tenant subject : String) (rows : List BindingRow)
    → any (is_binding tenant subject) (select (λ r. not (is_binding tenant subject r)) rows) ≡ false
none_left tenant subject [] = refl
none_left tenant subject (row ∷ rows) = ground (arith, none_left tenant subject rows)

-- The number of the tenant's live rows for the subject at the provider that it leaves.
abbrev pub orphans : String → String → String → Option String → List IndexRow → ℕ
orphans tenant subject provider none table = 0
orphans tenant subject provider (some previous) table =
    if previous == provider then 0 else length (select (is_live_of tenant subject previous) table)

pub count_orphans_lem :
    (tenant subject provider : String) (previous : Option String) (c : Catalog)
    → count_orphans tenant subject provider previous c
      ≡ (ok (orphans tenant subject provider previous c.index), c)
unfolding count_orphans
count_orphans_lem tenant subject provider none c = refl
count_orphans_lem tenant subject provider (some previous) c = ground arith

-- `rebind` never raises. It reports the provider that it left, if that is another one, with the
-- number of live rows that stay there; afterwards the subject is bound to the new provider, every
-- other binding is what it was, and `memory_index` and the journal are unchanged.
pub rebind-moves :
    (env : Env) (tenant subject provider t s : String) (c : Catalog)
    → let previous = bound_to tenant subject c.bindings in
      let c' = (rebind env tenant subject provider c).1 in
      ((rebind env tenant subject provider c).0
        ≡ ok (record {
          provider = provider;
          orphaned_at = moved_from previous provider;
          orphaned_count = orphans tenant subject provider previous c.index;
        }))
      × ((get_binding t s c').0
          ≡ ok (if tenant == t && subject == s then some provider else bound_to t s c.bindings))
      × (c'.index ≡ c.index)
      × (c'.episodes ≡ c.episodes)
unfolding rebind get_binding bound_to
rebind-moves env tenant subject provider t s c = ground (
  arith,
  count_orphans_lem tenant subject provider (bound_to tenant subject c.bindings) c,
  none_left tenant subject c.bindings,
  bound_to-removed tenant subject t s c.bindings,
  eq_iff tenant t,
  eq_iff subject s,
)
