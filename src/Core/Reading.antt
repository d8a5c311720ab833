-- ===== src/Core/Reading.antt =====
-- The verbs of src/memgw/core.py that read, and what they leave of the catalog.
use router_memory_services.Prelude.{
  ℕ, String, ◌≡◌, refl, sym, subst, inl, inr, false, Option, List, [], ◌∷◌, arith, min,
}
use router_memory_services.Errors.{Result, ok, err, Result-cases}
use router_memory_services.Types.{Scope, SearchQuery, ProviderMemory}
use router_memory_services.Degrade.{DegradeResult, resolve_mode}
use router_memory_services.Adapter.{Adapter}
use router_memory_services.Catalog.Store.{Env, Catalog}
use router_memory_services.Catalog.Keys.{IsKeyed}
use router_memory_services.Catalog.Mapping.{Request, ensure_many, map_index}
use router_memory_services.Catalog.MapState.{
  map_index-IsKeyed, map_index-Extends, SameOthers, Extends,
}
use router_memory_services.Core.State.{Core, World}
use router_memory_services.Core.Internals.{prepare, call, failure, map_hits, items_of}
use router_memory_services.Core.Reads.{search, list_scope, search_end, lister, check_as_of}
use router_memory_services.Core.Prepared.{prepare-state}
use router_memory_services.Core.ById.{call-catalog}

-- Nothing stored has changed: rows may have been added to the index, whose keys still hold, and the
-- bindings and the journal are the same.
pub record IsRead (c c' : Catalog) : Type 0 where
  pub extends : Extends c.index c'.index
  pub keyed : IsKeyed c'.index
  pub same : SameOthers c c'

IsRead-refl : (c : Catalog) → IsKeyed c.index → IsRead c c
IsRead-refl c k = record { extends = ([], refl); keyed = k; same = (refl, refl) }

module _ {P : Type 0} (env : Env) (tenant name : String) (scope : Scope) (w : World P) where
  map_hits-IsRead :
      (ms : List ProviderMemory)
      → IsKeyed w.catalog.index
      → IsRead w.catalog (map_hits env tenant name ms scope w).1.catalog
  unfolding map_hits ensure_many
  map_hits-IsRead [] k = IsRead-refl w.catalog k
  map_hits-IsRead (m ∷ ms) k =
      let q : Request = record {
        tenant = tenant;
        provider = name;
        items = items_of (m ∷ ms);
        scope = scope;
        revive = false;
      } in
      let kept = map_index-IsKeyed env q w.catalog k in
      let read : IsRead w.catalog (map_index env q w.catalog).1 = record {
        extends = map_index-Extends env q w.catalog refl;
        keyed = kept.0;
        same = kept.1;
      } in
      elim (Result-cases (map_index env q w.catalog).0) [
        | inl (e, p) ↦ rw (p) read
        | inr (rows, p) ↦ rw (p) read
      ]

IsRead-at : (c c' : Catalog) (same : c' ≡ c) → IsKeyed c.index → IsRead c c'
IsRead-at c c' same k = subst (IsRead c) (sym same) (IsRead-refl c k)

module _ {P : Type 0} (core : Core P) (tenant : String) (w : World P)
    (keyed : IsKeyed w.catalog.index) where
  hits :
      (name : String) (ms : List ProviderMemory) (scope : Scope) (w1 : World P)
      → w1.catalog ≡ w.catalog
      → IsRead w.catalog (map_hits core.env tenant name ms scope w1).1.catalog
  hits name ms scope w1 same =
      subst (λ c. IsRead c (map_hits core.env tenant name ms scope w1).1.catalog) same
        (map_hits-IsRead core.env tenant name scope w1 ms
          (subst (λ (c : Catalog). IsKeyed c.index) (sym same) keyed))

  search_end-IsRead :
      (name : String) (a : Adapter P) (query : SearchQuery) (decision : DegradeResult)
      (scope : Scope) (r : Result (List ProviderMemory)) (w1 : World P)
      → w1.catalog ≡ w.catalog
      → IsRead w.catalog (search_end core.env tenant name a query decision scope r w1).1.catalog
  unfolding search_end failure
  search_end-IsRead name a query decision scope (err e) w1 same =
      IsRead-at w.catalog _ (ground (arith, same)) keyed
  search_end-IsRead name a query decision scope (ok ms) w1 same =
      let read = hits name ms scope w1 same in
      elim (Result-cases (map_hits core.env tenant name ms scope w1).0) [
        | inl (e, p) ↦ rw (p) read
        | inr (rs, p) ↦ rw (p) read
      ]

  search-IsRead :
      (query : SearchQuery) (scope : Scope) (asserted : Option String)
      → IsRead w.catalog (search core tenant query scope asserted w).1.catalog
  unfolding search
  search-IsRead query scope asserted =
      let same = prepare-state core tenant scope asserted w in
      let kept = IsRead-refl w.catalog keyed in
      elim (Result-cases (prepare core tenant scope asserted w).0) [
        | inl (e, p) ↦ rw (p, same) kept
        | inr ((name, a, bound), p) ↦ elim (Result-cases (check_as_of query.as_of a.capabilities)) [
          | inl (e, q) ↦ rw (p, same, q) kept
          | inr (_, q) ↦
              elim (Result-cases (resolve_mode query.mode a.capabilities query.on_unsupported)) [
                | inl (e, r) ↦ rw (p, same, q, r) kept
                | inr (decision, r) ↦
                    rw (p, same, q, r) (search_end-IsRead name a query decision scope _ _ refl)
              ]
        ]
      ]

  pub list_scope-IsRead :
      (scope : Scope) (limit : ℕ) (asserted : Option String)
      → IsRead w.catalog (list_scope core tenant scope limit asserted w).1.catalog
  unfolding list_scope
  list_scope-IsRead scope limit asserted =
      let same = prepare-state core tenant scope asserted w in
      let kept = IsRead-refl w.catalog keyed in
      elim (Result-cases (prepare core tenant scope asserted w).0) [
        | inl (e, p) ↦ rw (p, same) kept
        | inr ((name, a, bound), p) ↦ elim (Result-cases (lister a a.list_scope)) [
          | inl (e, q) ↦ rw (p, same, q) kept
          | inr (list, q) ↦
              let n = min limit a.capabilities.max_limit in
              let untouched = call-catalog a (list bound n) w in
              elim (Result-cases (call a (list bound n) w).0) [
                | inl (e, r) ↦ rw (p, same, q, r) (IsRead-at w.catalog _ untouched keyed)
                | inr (ms, r) ↦ rw (p, same, q, r) (hits name ms scope _ untouched)
              ]
        ]
      ]

  -- Where the keys of the index hold, `search` and `list_scope`, whatever they answer or raise and whatever other processes commit,
  -- change nothing that is stored: the index may gain rows, and its keys still hold, but no row of it
  -- changes, a deleted one least of all; and the bindings and the journal are the same, so that
  -- reading never decides where a subject lives.
  pub reads-IsRead :
      (query : SearchQuery) (scope : Scope) (limit : ℕ) (asserted : Option String)
      → IsRead w.catalog (search core tenant query scope asserted w).1.catalog
        × IsRead w.catalog (list_scope core tenant scope limit asserted w).1.catalog
  reads-IsRead query scope limit asserted =
      (search-IsRead query scope asserted, list_scope-IsRead scope limit asserted)
