-- ===== src/Catalog/JournalLaws.antt =====
-- Erasure from `episode_journal` of src/memgw/catalog.py.
use router_memory_services.Prelude.{
  String, ◌≡◌, refl, false, not, ◌&&◌, List, [], ◌∷◌, ◌==◌, string_eq, eq_iff, arith, select,
  is_set, if◌then◌else◌, Bool-cases, inl, inr,
}
use router_memory_services.Errors.{ok}
use router_memory_services.Types.{Scope}
use router_memory_services.Catalog.Schema.{EpisodeRow}
use router_memory_services.Catalog.Store.{Catalog}
use router_memory_services.Catalog.Journal.{
  delete_journal, journal_rows, episode_in_scope, is_episode_of,
}

select-erased :
    (tenant t s : String) (scope : Scope) (rows : List EpisodeRow)
    → is_set scope.agent ≡ false
    → is_set scope.session ≡ false
    → select (is_episode_of t s) (select (λ row. not (episode_in_scope tenant scope row)) rows)
      ≡ (if tenant == t && scope.subject == s then [] else select (is_episode_of t s) rows)
select-erased tenant t s scope [] no_agent no_session = ground arith
select-erased tenant t s scope (row ∷ rows) no_agent no_session = ground (
  arith,
  select-erased tenant t s scope rows no_agent no_session,
  eq_iff tenant t,
  eq_iff scope.subject s,
  eq_iff row.tenant_id tenant,
  eq_iff row.tenant_id t,
  eq_iff row.subject scope.subject,
  eq_iff row.subject s,
)

-- After the journal of a subject is deleted, over no particular agent or session, the tenant has no
-- episode of the subject; the episodes of every other subject, and of the same subject of another
-- tenant, are what they were; and the index and the bindings are unchanged.
pub delete_journal-erases :
    (tenant t s : String) (scope : Scope) (c : Catalog)
    → is_set scope.agent ≡ false
    → is_set scope.session ≡ false
    → ((journal_rows t s (delete_journal tenant scope c).1).0
        ≡ (if tenant == t && scope.subject == s then ok [] else (journal_rows t s c).0))
      × ((delete_journal tenant scope c).1.index ≡ c.index)
      × ((delete_journal tenant scope c).1.bindings ≡ c.bindings)
unfolding delete_journal journal_rows
delete_journal-erases tenant t s scope c no_agent no_session =
    let erased = select-erased tenant t s scope c.episodes no_agent no_session in
    (
      elim (Bool-cases (tenant == t && scope.subject == s)) [
        | inl e ↦ rw (erased, e) refl
        | inr e ↦ rw (erased, e) refl
      ],
      refl,
      refl,
    )
