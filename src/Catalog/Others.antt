-- ===== src/Catalog/Others.antt =====
-- What the operations of src/memgw/catalog.py for one tenant leave as it was: all that belongs to the
-- others.
use router_memory_services.Prelude.{
  String, ◌≡◌, refl, sym, ap, subst, ◌∙◌, true, false, not, ◌&&◌, ◌||◌, inl, inr, Bool, List, [],
  ◌∷◌, ◌==◌, string_eq, beq_refl, eq_iff, arith, any, select, select-select, select-eq, All-every,
  Bool-cases,
}
use router_memory_services.Json.{Json}
use router_memory_services.Dict.{Dict}
use router_memory_services.Types.{Scope, DateTime}
use router_memory_services.Catalog.Schema.{IndexRow, BindingRow, EpisodeRow, conflicts}
use router_memory_services.Catalog.Store.{Env, Catalog, mint}
use router_memory_services.Catalog.Rows.{
  mark_row, mark_rows, mark_deleted, mark_scope_deleted, is_live_id, in_scope, column_is,
}
use router_memory_services.Catalog.Bindings.{
  is_binding, bind, rebind, get_binding, replace_binding, bound_to,
}
use router_memory_services.Catalog.BindingLaws.{rebind-moves, none_left, count_orphans_lem}
use router_memory_services.Catalog.Journal.{
  journal, insert_episode, delete_journal, episode_in_scope,
}
use router_memory_services.Catalog.Mapping.{Request, map_index}
use router_memory_services.Catalog.MapState.{
  map_index-IsKeyed, map_index-others, rows_of_others, Quiet,
}
use router_memory_services.Catalog.Keys.{IsKeyed}

module _ (p : IndexRow → Bool) (now : DateTime) where
  conflicts-mark :
      (r s : IndexRow) → conflicts (mark_row p now r) (mark_row p now s) ≡ conflicts r s
  conflicts-mark r s = elim (Bool-cases (p r)) [
    | inl e ↦ elim (Bool-cases (p s)) [ inl f ↦ rw (e, f) | inr f ↦ rw (e, f) ]
    | inr e ↦ elim (Bool-cases (p s)) [ inl f ↦ rw (e, f) | inr f ↦ rw (e, f) ]
  ]

  any-conflicts-mark :
      (r : IndexRow) (table : List IndexRow)
      → any (conflicts (mark_row p now r)) (mark_rows p now table) ≡ any (conflicts r) table
  unfolding mark_rows
  any-conflicts-mark r [] = refl
  any-conflicts-mark r (s ∷ table) = λ i. conflicts-mark r s i || any-conflicts-mark r table i

  mark_rows-IsKeyed : (table : List IndexRow) → IsKeyed table → IsKeyed (mark_rows p now table)
  unfolding mark_rows
  mark_rows-IsKeyed [] k = k
  mark_rows-IsKeyed (r ∷ table) k = (any-conflicts-mark r table ∙ k.0, mark_rows-IsKeyed table k.1)

-- What a table has of other tenants
abbrev pub rows_but : String → List IndexRow → List IndexRow
rows_but tenant = select λ row. not (row.tenant_id == tenant)

abbrev pub bindings_but : String → List BindingRow → List BindingRow
bindings_but tenant = select λ row. not (row.tenant_id == tenant)

abbrev pub episodes_but : String → List EpisodeRow → List EpisodeRow
episodes_but tenant = select λ row. not (row.tenant_id == tenant)

-- The second catalog has what the first has of other tenants, and the keys of its index hold.
pub record KeepsOthers (tenant : String) (c c' : Catalog) : Type 0 where
  pub keyed : IsKeyed c'.index
  pub index : rows_but tenant c'.index ≡ rows_but tenant c.index
  pub bindings : bindings_but tenant c'.bindings ≡ bindings_but tenant c.bindings
  pub episodes : episodes_but tenant c'.episodes ≡ episodes_but tenant c.episodes

rows_but-of_others :
    (tenant provider : String) (table : List IndexRow)
    → rows_but tenant (rows_of_others tenant provider table) ≡ rows_but tenant table
rows_but-of_others tenant provider [] = refl
rows_but-of_others tenant provider (row ∷ table) =
    ground (arith, rows_but-of_others tenant provider table)

rows_but-mark_rows :
    (tenant : String) (p : IndexRow → Bool) (now : DateTime)
    → ((row : IndexRow) → p row ≡ true → (row.tenant_id == tenant) ≡ true)
    → (table : List IndexRow) → rows_but tenant (mark_rows p now table) ≡ rows_but tenant table
unfolding mark_rows
rows_but-mark_rows tenant p now own [] = refl
rows_but-mark_rows tenant p now own (row ∷ table) =
    let rest = rows_but-mark_rows tenant p now own table in
    elim (Bool-cases (p row)) [
      | inl e ↦ rw (e, own row e) rest
      | inr e ↦ rw e (ground (arith, rest))
    ]

bindings_but-removed :
    (tenant subject : String) (rows : List BindingRow)
    → bindings_but tenant (select (λ r. not (is_binding tenant subject r)) rows)
      ≡ bindings_but tenant rows
bindings_but-removed tenant subject [] = refl
bindings_but-removed tenant subject (row ∷ rows) =
    ground (arith, bindings_but-removed tenant subject rows)

absorbed : (own a b c : Bool) → (not (own && a && b && c) && not own) ≡ not own
absorbed true a b c = ground arith
absorbed false a b c = refl

episodes_but-erased :
    (tenant : String) (scope : Scope) (rows : List EpisodeRow)
    → episodes_but tenant (select (λ row. not (episode_in_scope tenant scope row)) rows)
      ≡ episodes_but tenant rows
episodes_but-erased tenant scope rows =
    select-select (λ row. not (row.tenant_id == tenant))
      (λ row. not (episode_in_scope tenant scope row)) rows
    ∙ select-eq _ _ rows (
        All-every _
          (λ row.
            absorbed (row.tenant_id == tenant) (row.subject == scope.subject)
              (column_is scope.agent row.agent) (column_is scope.session row.session))
          rows)

module _ (env : Env) (c : Catalog) where
  pub map_index-KeepsOthers :
      (q : Request) (d : Catalog)
      → Quiet env
      → KeepsOthers q.tenant c d
      → KeepsOthers q.tenant c (map_index env q d).1
  map_index-KeepsOthers q d quiet k =
      let (keyed, same) = map_index-IsKeyed env q d k.keyed in
      let after = (map_index env q d).1.index in
      record {
        keyed = keyed;
        index =
            sym (rows_but-of_others q.tenant q.provider after)
            ∙ ap (rows_but q.tenant) (map_index-others env q d quiet)
            ∙ rows_but-of_others q.tenant q.provider d.index
            ∙ k.index;
        bindings = ap (bindings_but q.tenant) same.0 ∙ k.bindings;
        episodes = ap (episodes_but q.tenant) same.1 ∙ k.episodes;
      }

  module _ (tenant : String) (d : Catalog) (k : KeepsOthers tenant c d) where
    pub mark_deleted-KeepsOthers :
        (gid : String) → KeepsOthers tenant c (mark_deleted env tenant gid d).1
    unfolding mark_deleted
    mark_deleted-KeepsOthers gid = record {
      keyed = mark_rows-IsKeyed _ _ d.index k.keyed;
      index =
          rows_but-mark_rows tenant (is_live_id tenant gid) (env.now d.ticks)
            (λ row h. ground (arith, h)) d.index
          ∙ k.index;
      bindings = k.bindings;
      episodes = k.episodes;
    }

    pub mark_scope_deleted-KeepsOthers :
        (scope : Scope) (provider : String)
        → KeepsOthers tenant c (mark_scope_deleted env tenant scope provider d).1
    unfolding mark_scope_deleted
    mark_scope_deleted-KeepsOthers scope provider = record {
      keyed = mark_rows-IsKeyed _ _ d.index k.keyed;
      index =
          rows_but-mark_rows tenant (in_scope tenant scope provider) (env.now d.ticks)
            (λ row h. ground (arith, h)) d.index
          ∙ k.index;
      bindings = k.bindings;
      episodes = k.episodes;
    }

    pub bind-KeepsOthers :
        (subject provider : String) → KeepsOthers tenant c (bind env tenant subject provider d).1
    unfolding bind
    bind-KeepsOthers subject provider =
        elim (Bool-cases (any (is_binding tenant subject) d.bindings)) [
          | inl e ↦ rw e (record {
            keyed = k.keyed;
            index = k.index;
            bindings = k.bindings;
            episodes = k.episodes;
          })
          | inr e ↦ rw e (record {
            keyed = k.keyed;
            index = k.index;
            bindings = rw (beq_refl tenant) (k.bindings);
            episodes = k.episodes;
          })
        ]

    pub journal-KeepsOthers :
        (scope : Scope) (payload : Json) (ingested_to : Dict String (List String))
        → KeepsOthers tenant c (journal env tenant scope payload ingested_to d).1
    unfolding journal insert_episode mint
    journal-KeepsOthers scope payload ingested_to =
        elim (Bool-cases (any (λ r. r.episode_id == (mint env "ep" d).0) d.episodes)) [
          | inl e ↦ rw e (record {
            keyed = k.keyed;
            index = k.index;
            bindings = k.bindings;
            episodes = k.episodes;
          })
          | inr e ↦ rw e (record {
            keyed = k.keyed;
            index = k.index;
            bindings = k.bindings;
            episodes = rw (beq_refl tenant) (k.episodes);
          })
        ]

    pub delete_journal-KeepsOthers :
        (scope : Scope) → KeepsOthers tenant c (delete_journal tenant scope d).1
    unfolding delete_journal
    delete_journal-KeepsOthers scope = record {
      keyed = k.keyed;
      index = k.index;
      bindings = k.bindings;
      episodes = episodes_but-erased tenant scope d.episodes ∙ k.episodes;
    }

    rebind-bindings :
        (subject provider : String)
        → bindings_but tenant (rebind env tenant subject provider d).1.bindings
          ≡ bindings_but tenant d.bindings
    unfolding rebind get_binding replace_binding
    rebind-bindings subject provider = ground (
      arith,
      count_orphans_lem tenant subject provider (bound_to tenant subject d.bindings) d,
      none_left tenant subject d.bindings,
      bindings_but-removed tenant subject d.bindings,
      eq_iff tenant tenant,
    )

    pub rebind-KeepsOthers :
        (subject provider : String) → KeepsOthers tenant c (rebind env tenant subject provider d).1
    rebind-KeepsOthers subject provider =
        let moved = rebind-moves env tenant subject provider tenant subject d in
        record {
          keyed = subst IsKeyed (sym moved.2) k.keyed;
          index = ap (rows_but tenant) moved.2 ∙ k.index;
          bindings = rebind-bindings subject provider ∙ k.bindings;
          episodes = ap (episodes_but tenant) moved.3 ∙ k.episodes;
        }
