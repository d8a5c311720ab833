-- ===== src/Adapters/Pgvector/Served.antt =====
-- The core of src/memgw/core.py over the adapters of src/memgw/adapters/pgvector.py: what a tenant
-- reads is the tenant's.
use router_memory_services.Prelude.{
  ℕ, min, String, ◌≡◌, ◌≢◌, refl, sym, subst, ◌∙◌, true, false, Option, some, List, [], ◌∷◌, ◌==◌,
  string_eq, option_eq, option_beq_iff, eq_iff, arith, All, All-map_imp, Memᴰ, is_blank, Bool-cases,
  Option-cases, inl, inr,
}
use router_memory_services.Dict.{Dict, lookup}
use router_memory_services.Errors.{
  Exn, gateway, integrity, validation, assertion, value_error, other, Result, ok, err, Result-cases,
}
use router_memory_services.Exec.{Exec, continue-ok}
use router_memory_services.Types.{Scope, SearchQuery, ProviderMemory, MemoryRecord, under}
use router_memory_services.Degrade.{resolve_mode, DegradeResult}
use router_memory_services.Adapter.{Adapter}
use router_memory_services.Catalog.Schema.{CatalogRow, row_scope}
use router_memory_services.Catalog.Store.{Env}
use router_memory_services.Catalog.Mapping.{ensure_many}
use router_memory_services.Core.State.{Core, World, SearchResult}
use router_memory_services.Core.Internals.{
  prepare, call, map_hits, read_hits, to_record, items_of, by_native, failure, settle,
}
use router_memory_services.Core.Reads.{
  search, list_scope, search_end, lister, check_as_of, effective, is_refused,
}
use router_memory_services.Core.Prepared.{prepare-Prepared, prepare-state}
use router_memory_services.Adapters.Pgvector.Table.{Row, Store, Host}
use router_memory_services.Adapters.Pgvector.Instance.{pgvector}
use router_memory_services.Adapters.Pgvector.Reads.{list_scope as list_rows}
use router_memory_services.Adapters.Pgvector.Erasure.{belongs}
use router_memory_services.Adapters.Pgvector.Scoping.{IsHeld, search-IsHeld, list_scope-IsHeld}

-- An adapter of this kind
abbrev pub IsPgvector : Adapter Store → Type 0
IsPgvector a = (h : Host) × (a ≡ pgvector h)

-- A row that the table holds, of the tenant and the subject, with this id and this content.
abbrev pub IsOwn : String → String → List Row → String → String → Type 0
IsOwn tenant subject rows native content =
    (row : Row) × Memᴰ row rows
    × (row.tenant ≡ some tenant)
    × (row.subject ≡ subject)
    × (native ≡ row.native_id)
    × (content ≡ row.content)

lookup-All {ℓ κ} :
    {V : Type ℓ} (P : V → Type κ) (name : String) (d : Dict String V) (v : V)
    → All (λ entry. P entry.1) d
    → lookup name d ≡ some v
    → P v
unfolding lookup
lookup-All P name [] v h e = absurd (ground arith)
lookup-All P name ((k, u) ∷ d) v h e = elim (Bool-cases (k == name)) [
  | inl p ↦ subst P (ground arith) h.0
  | inr p ↦ lookup-All P name d v h.1 (ground arith)
]

read_hits-All :
    (P : String → String → Type 0) (provider : String) (rows : Dict String CatalogRow)
    (memories : List ProviderMemory) (records : List MemoryRecord)
    → All (λ memory. P memory.native_id memory.content) memories
    → read_hits provider rows memories ≡ ok records
    → All (λ out. P out.native_id out.content) records
unfolding read_hits to_record
read_hits-All P provider rows [] records h e =
    let same : [] ≡ records = ground arith in
    subst (All (λ out. P out.native_id out.content)) same tt
read_hits-All P provider rows (memory ∷ memories) records h e =
    elim (Option-cases (lookup memory.native_id rows)) [
      | inl p ↦ read_hits-All P provider rows memories records h.1 (ground arith)
      | inr (row, p) ↦ elim (Result-cases (row_scope row)) [
        | inl (x, q) ↦ absurd (ground arith)
        | inr (scope, q) ↦ elim (Result-cases (read_hits provider rows memories)) [
          | inl (x, r) ↦ absurd (ground arith)
          | inr (rest, r) ↦
              subst (All (λ out. P out.native_id out.content))
                {x = to_record row.gateway_id provider memory scope ∷ rest} (ground arith)
                (h.0, read_hits-All P provider rows memories rest h.1 r)
        ]
      ]
    ]

belongs-own :
    (tenant : String) (scope : Scope) (row : Row)
    → is_blank tenant ≡ false
    → belongs (under tenant scope) row ≡ true
    → (row.tenant ≡ some tenant) × (row.subject ≡ scope.subject)
unfolding under
belongs-own tenant scope row t e =
    ground (arith, option_beq_iff row.tenant (some tenant), eq_iff row.subject scope.subject)

-- A provider's error is never an answer.
settle-err :
    {A : Type 0} (a : Adapter Store) (y : Exn) (w : World Store) (x : A)
    → (settle {A = A} a (err y) w).0 ≢ ok x
unfolding failure
settle-err a (gateway e) w x p = absurd (ground arith)
settle-err a integrity w x p = absurd (ground arith)
settle-err a validation w x p = absurd (ground arith)
settle-err a assertion w x p = absurd (ground arith)
settle-err a value_error w x p = absurd (ground arith)
settle-err a (other cause) w x p = absurd (ground arith)

call-ok :
    {A : Type 0} (a : Adapter Store) (m : Exec Store A) (w : World Store) (x : A)
    → (call a m w).0 ≡ ok x
    → (m w.store).0 ≡ ok x
unfolding call
call-ok a m w x e = elim (Result-cases (m w.store).0) [
  | inr (y, p) ↦ ground (arith, p, e)
  | inl (y, p) ↦ absurd (
      settle-err a y (record w { store = (m w.store).1 }) x
        (sym (λ i. (settle a (p i) (record w { store = (m w.store).1 })).0) ∙ e))
]

module _ (P : String → String → Type 0) where
  map_hits-All :
      (env : Env) (tenant name : String) (memories : List ProviderMemory) (scope : Scope)
      (w : World Store) (records : List MemoryRecord)
      → All (λ memory. P memory.native_id memory.content) memories
      → (map_hits env tenant name memories scope w).0 ≡ ok records
      → All (λ out. P out.native_id out.content) records
  unfolding map_hits
  map_hits-All env tenant name [] scope w records h e =
      let same : [] ≡ records = ground arith in
      subst (All (λ out. P out.native_id out.content)) same tt
  map_hits-All env tenant name (m ∷ ms) scope w records h e =
      elim (Result-cases (ensure_many env tenant name (items_of (m ∷ ms)) scope w.catalog).0) [
        | inl (x, p) ↦ absurd (ground arith)
        | inr (rows, p) ↦
            read_hits-All P name (by_native rows) (m ∷ ms) records h (ground (arith, p, e))
      ]

  search_end-All :
      (env : Env) (tenant name : String) (found : Adapter Store) (query : SearchQuery)
      (decision : DegradeResult) (scope : Scope) (r : Result (List ProviderMemory))
      (w : World Store) (result : SearchResult)
      → ((memories : List ProviderMemory)
          → r ≡ ok memories
          → All (λ memory. P memory.native_id memory.content) memories)
      → (search_end env tenant name found query decision scope r w).0 ≡ ok result
      → All (λ out. P out.native_id out.content) result.results
  unfolding search_end failure
  search_end-All env tenant name found query decision scope (err x) w result h e =
      elim (Bool-cases (is_refused x)) [
        | inl p ↦ absurd (ground arith)
        | inr p ↦ elim (Bool-cases query.fail_open) [
          | inl q ↦
              let same : [] ≡ result.results = ground arith in
              subst (All (λ out. P out.native_id out.content)) same tt
          | inr q ↦ absurd (ground arith)
        ]
      ]
  search_end-All env tenant name found query decision scope (ok memories) w result h e =
      let (records, p, e1, e2) = continue-ok _ _ _ _ e in
      let same : records ≡ result.results = ground (arith, e1) in
      subst (All (λ out. P out.native_id out.content)) same
        (map_hits-All env tenant name memories scope w records (h memories refl) p)

module _ (core : Core Store) (tenant : String) (scope : Scope) (provider : Option String)
    (w : World Store) (kind : All (λ entry. IsPgvector entry.1) core.providers)
    (real : is_blank tenant ≡ false) where
  own :
      (bound : Scope) (rows : List Row) (memory : ProviderMemory)
      → bound ≡ under tenant scope
      → IsHeld bound rows memory
      → IsOwn tenant scope.subject rows memory.native_id memory.content
  own bound rows memory b h =
      let (row, (held, inside), id, content) = h in
      let mine = belongs-own tenant scope row real (subst (λ s. belongs s row ≡ true) b inside) in
      (row, held, mine.0, mine.1, id, content)

  found-search :
      (found : Adapter Store) (query : SearchQuery) (bound : Scope) (s : Store)
      (memories : List ProviderMemory)
      → IsPgvector found
      → (found.search query bound s).0 ≡ ok memories
      → All (IsHeld bound s.rows) memories
  unfolding pgvector
  found-search found query bound s memories (h, p) e =
      All-map_imp (λ memory x. x.0) memories
        (search-IsHeld h query bound s memories
          (subst (λ a. (a.search query bound s).0 ≡ ok memories) p e)).0

  found-list :
      (found : Adapter Store) (list : Scope → ℕ → Exec Store (List ProviderMemory)) (bound : Scope)
      (limit : ℕ) (s : Store) (memories : List ProviderMemory)
      → IsPgvector found
      → lister found found.list_scope ≡ ok list
      → (list bound limit s).0 ≡ ok memories
      → All (IsHeld bound s.rows) memories
  unfolding lister pgvector
  found-list found list bound limit s memories (h, p) q e =
      let same : list_rows ≡ list =
        ground (arith, subst (λ a. lister a a.list_scope ≡ ok list) p q) in
      (list_scope-IsHeld bound limit s memories
        (subst (λ f. (f bound limit s).0 ≡ ok memories) (sym same) e)).0

  search-IsOwn :
      (query : SearchQuery) (result : SearchResult)
      → (search core tenant query scope provider w).0 ≡ ok result
      → All
          (λ out. IsOwn tenant scope.subject w.store.rows out.native_id out.content)
          result.results
  unfolding search search_end
  search-IsOwn query result e = elim (Result-cases (prepare core tenant scope provider w).0) [
    | inl (x, p) ↦ absurd (ground (arith, p, e))
    | inr ((name, found, bound), p) ↦
        elim (Result-cases (check_as_of query.as_of found.capabilities)) [
          | inl (x, q) ↦ absurd (ground (arith, p, q, e))
          | inr (u, q) ↦
              elim (Result-cases
                (resolve_mode query.mode found.capabilities query.on_unsupported)) [
                  | inl (x, r) ↦ absurd (ground (arith, p, q, r, e))
                  | inr (decision, r) ↦
                      let ready =
                        prepare-Prepared core tenant scope provider w name found bound p in
                      let kept = prepare-state core tenant scope provider w in
                      let asked = effective query decision found.capabilities in
                      let outcome = found.search asked bound w.store in
                      let ends : search core tenant query scope provider w
                          ≡ search_end core.env tenant name found query decision scope outcome.0
                              (record w { store = outcome.1 }) =
                        rw (p, kept, q, r) in
                      search_end-All (IsOwn tenant scope.subject w.store.rows) core.env tenant name
                        found query decision scope outcome.0 (record w { store = outcome.1 }) result
                        (λ memories o.
                          All-map_imp (λ memory m. own bound w.store.rows memory ready.is_under m)
                            memories
                            (found-search found asked bound w.store memories
                              (lookup-All IsPgvector name core.providers found kind ready.is_found)
                              o))
                        (sym (λ i. (ends i).0) ∙ e)
                ]
        ]
  ]

  list_scope-IsOwn :
      (limit : ℕ) (records : List MemoryRecord)
      → (list_scope core tenant scope limit provider w).0 ≡ ok records
      → All (λ out. IsOwn tenant scope.subject w.store.rows out.native_id out.content) records
  unfolding list_scope
  list_scope-IsOwn limit records e = elim (Result-cases (prepare core tenant scope provider w).0) [
    | inl (x, p) ↦ absurd (ground (arith, p, e))
    | inr ((name, found, bound), p) ↦ elim (Result-cases (lister found found.list_scope)) [
      | inl (x, q) ↦ absurd (ground (arith, p, q, e))
      | inr (list, q) ↦
          let ready = prepare-Prepared core tenant scope provider w name found bound p in
          let kept = prepare-state core tenant scope provider w in
          let most = min limit found.capabilities.max_limit in
          let called = call found (list bound most) w in
          elim (Result-cases called.0) [
            | inl (x, r) ↦ absurd (ground (arith, p, q, kept, r, e))
            | inr (memories, r) ↦
                let ends : list_scope core tenant scope limit provider w
                    ≡ map_hits core.env tenant name memories scope called.1 =
                  rw (p, kept, q, r) in
                map_hits-All (IsOwn tenant scope.subject w.store.rows) core.env tenant name memories
                  scope called.1 records
                  (All-map_imp (λ memory m. own bound w.store.rows memory ready.is_under m) memories
                    (found-list found list bound most w.store memories
                      (lookup-All IsPgvector name core.providers found kind ready.is_found) q
                      (call-ok found (list bound most) w memories r)))
                  (sym (λ i. (ends i).0) ∙ e)
          ]
    ]
  ]

  -- Where every provider is a pgvector adapter and the tenant's name is not blank, a search and a
  -- listing that answer, answer records of rows of that tenant and of the subject that the scope names,
  -- whatever tenant the scope names; the contents are those of the rows.
  pub reads-IsOwn :
      ((query : SearchQuery) (result : SearchResult)
        → (search core tenant query scope provider w).0 ≡ ok result
        → All
            (λ out. IsOwn tenant scope.subject w.store.rows out.native_id out.content)
            result.results)
      × ((limit : ℕ) (records : List MemoryRecord)
          → (list_scope core tenant scope limit provider w).0 ≡ ok records
          → All (λ out. IsOwn tenant scope.subject w.store.rows out.native_id out.content) records)
  reads-IsOwn = (search-IsOwn, list_scope-IsOwn)
