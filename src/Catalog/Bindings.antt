-- ===== src/Catalog/Bindings.antt =====
-- The operations on `scope_binding` of src/memgw/catalog.py.
use router_memory_services.Prelude.{
  ℕ, String, Bool, not, ◌&&◌, Option, none, some, List, [], ◌∷◌, ◌==◌, string_eq, any, select,
  is_blank, if◌then◌else◌,
}
use router_memory_services.Errors.{ok, err, integrity}
use router_memory_services.Exec.{Exec, pure, ◌>>=◌}
use router_memory_services.Types.{DateTime}
use router_memory_services.Catalog.Schema.{BindingRow, RebindResult}
use router_memory_services.Catalog.Store.{Env, Catalog, read_now}
use router_memory_services.Catalog.Rows.{live_count}

-- tenant_id = … AND subject = …, which is the primary key
abbrev pub is_binding : String → String → BindingRow → Bool
is_binding tenant subject row = row.tenant_id == tenant && row.subject == subject

-- `scalar_one_or_none` of a query by primary key: the value, if there is a row.
unfoldable pub bound_to : String → String → List BindingRow → Option String
bound_to tenant subject [] = none
bound_to tenant subject (row ∷ rows) =
    if is_binding tenant subject row then some row.provider else bound_to tenant subject rows

unfoldable pub get_binding : String → String → Exec Catalog (Option String)
unfolding bound_to
get_binding tenant subject c = (ok (bound_to tenant subject c.bindings), c)

-- `insert` into scope_binding, under its primary key
abbrev pub insert_binding : BindingRow → List BindingRow → Option (List BindingRow)
insert_binding row rows =
    if any (is_binding row.tenant_id row.subject) rows then none else some (row ∷ rows)

-- `existing or provider`
abbrev pub or_else : Option String → String → String
or_else none provider = provider
or_else (some existing) provider = if is_blank existing then provider else existing

abbrev new_binding : String → String → String → Option String → DateTime → BindingRow
new_binding tenant subject provider migrated_from now = record {
  tenant_id = tenant;
  subject = subject;
  provider = provider;
  bound_at = now;
  migrated_from = migrated_from;
}

-- The end of `bind`, by what the insertion said.
abbrev bind_end : String → String → String → Option (List BindingRow) → Exec Catalog String
bind_end tenant subject provider (some rows) c = (ok provider, record c { bindings = rows })
bind_end tenant subject provider none c =
    (ok (or_else (bound_to tenant subject c.bindings) provider), c)

unfoldable pub bind : Env → String → String → String → Exec Catalog String
unfolding bound_to
bind env tenant subject provider = do
  now ← read_now env
  λ c.
      bind_end tenant subject provider
        (insert_binding (new_binding tenant subject provider none now) c.bindings) c

-- `orphaned` of `rebind`: counted when the subject was bound to another provider.
unfoldable pub count_orphans : String → String → String → Option String → Exec Catalog ℕ
unfolding live_count
count_orphans tenant subject provider none = pure 0
count_orphans tenant subject provider (some previous) =
    if previous == provider then pure 0 else live_count tenant subject previous

-- delete from scope_binding where …, then insert, in one transaction
unfoldable pub replace_binding : BindingRow → Exec Catalog (Unit {0})
replace_binding row c =
    elim (insert_binding row
      (select (λ r. not (is_binding row.tenant_id row.subject r)) c.bindings)) [
        | none ↦ (err integrity, c)
        | some rows ↦ (ok tt, record c { bindings = rows })
      ]

-- `previous if previous != provider else None`
abbrev pub moved_from : Option String → String → Option String
moved_from none provider = none
moved_from (some previous) provider = if previous == provider then none else some previous

unfoldable pub rebind : Env → String → String → String → Exec Catalog RebindResult
unfolding get_binding count_orphans replace_binding
rebind env tenant subject provider = do
  previous ← get_binding tenant subject
  orphaned ← count_orphans tenant subject provider previous
  now ← read_now env
  _ ← replace_binding (new_binding tenant subject provider previous now)
  pure (record {
    provider = provider;
    orphaned_at = moved_from previous provider;
    orphaned_count = orphaned;
  })
