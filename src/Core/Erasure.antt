-- ===== src/Core/Erasure.antt =====
-- `delete_scope` of src/memgw/core.py: what is erased when it returns.
use router_memory_services.Prelude.{
  ℕ, String, ◌≡◌, refl, ◌⊎◌, inl, inr, Bool, true, not, Option, some, List, [], ◌∷◌, string_eq,
  arith, select,
}
use router_memory_services.Errors.{Exn, ok, err, Result-cases}
use router_memory_services.Types.{reject, Scope}
use router_memory_services.Degrade.{assert_delete_supported}
use router_memory_services.Catalog.Schema.{EpisodeRow}
use router_memory_services.Catalog.Rows.{in_scope, mark_scope_deleted}
use router_memory_services.Catalog.RowLaws.{mark_scope_deleted-erases, spared}
use router_memory_services.Catalog.Journal.{episode_in_scope, delete_journal}
use router_memory_services.Router.Resolution.{home}
use router_memory_services.Core.State.{Core, World}
use router_memory_services.Core.Internals.{call, prepare}
use router_memory_services.Core.Writes.{delete_scope}
use router_memory_services.Core.Prepared.{prepare-Prepared, prepare-state}
use router_memory_services.Core.ById.{call-catalog}

select-not :
    (p : EpisodeRow → Bool) (rows : List EpisodeRow)
    → select p (select (λ row. not (p row)) rows) ≡ []
select-not p [] = refl
select-not p (row ∷ rows) = ground (arith, select-not p rows)

-- What a `delete_scope` that returns leaves at one provider: nothing live in the scope, everything
-- else that was live, and no journaled episode in the scope.
pub record Erased {P : Type 0} (tenant : String) (scope : Scope) (name : String) (w w' : World P)
    : Type 0 where
  pub none_live : select (in_scope tenant scope name) w'.catalog.index ≡ []
  pub spares :
      spared (in_scope tenant scope name) w'.catalog.index
      ≡ spared (in_scope tenant scope name) w.catalog.index
  pub no_episodes : select (episode_in_scope tenant scope) w'.catalog.episodes ≡ []
  pub bindings_same : w'.catalog.bindings ≡ w.catalog.bindings

module _ {P : Type 0} (core : Core P) (tenant : String) (scope : Scope) (asserted : Option String)
    (w : World P) where
  -- A `delete_scope` either raises, and then the catalog is as it was, or returns, and then at the
  -- subject's home nothing that the scope covers is live, everything else that was live still is, and
  -- the journal holds no episode that the scope covers; the bindings stay.
  pub delete_scope-outcome :
      ((e : Exn) × ((delete_scope core tenant scope asserted w).0 ≡ err e)
        × ((delete_scope core tenant scope asserted w).1.catalog ≡ w.catalog))
      ⊎ ((name : String) × (removed : ℕ) × ((delete_scope core tenant scope asserted w).0
            ≡ ok removed)
          × (home tenant scope.subject core.default_provider w.catalog ≡ some name)
          × Erased tenant scope name w (delete_scope core tenant scope asserted w).1)
  unfolding delete_scope mark_scope_deleted delete_journal
  delete_scope-outcome =
      let same = prepare-state core tenant scope asserted w in
      elim (Result-cases (prepare core tenant scope asserted w).0) [
        | inl (e, p) ↦ inl (e, rw (p), rw (p, same))
        | inr ((name, a, bound), p) ↦
            let pre = prepare-Prepared core tenant scope asserted w name a bound p in
            elim (Result-cases (assert_delete_supported a.capabilities reject true)) [
              | inl (e, r) ↦ inl (e, rw (p, r), rw (p, r, same))
              | inr (_, r) ↦ elim (Result-cases (call a (a.delete_scope bound) w).0) [
                | inl (e, s) ↦ inl (
                  e,
                  rw (p, same, r, s),
                  rw (p, same, r, s) (call-catalog a (a.delete_scope bound) w),
                )
                | inr (removed, s) ↦
                    let kept = call-catalog a (a.delete_scope bound) w in
                    let marked = mark_scope_deleted-erases core.env tenant name scope w.catalog in
                    inr (
                      name,
                      removed,
                      rw (p, same, r, s),
                      pre.is_home,
                      record {
                        none_live = rw (p, same, r, s, kept) (marked.1);
                        spares = rw (p, same, r, s, kept) (marked.2);
                        no_episodes = rw (p, same, r, s, kept) (select-not _ w.catalog.episodes);
                        bindings_same = rw (p, same, r, s, kept);
                      },
                    )
              ]
            ]
      ]
