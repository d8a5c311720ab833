-- ===== src/Core/Outcome.antt =====
-- `ingest` and `upsert` of src/memgw/core.py: what the catalog holds when they return.
use router_memory_services.Prelude.{
  String, ◌≡◌, refl, sym, subst, ap, ◌∙◌, inl, inr, Bool, true, false, Option, some, List, [], ◌∷◌,
  string_eq, arith, All, All-map_imp, map, eq_iff,
}
use router_memory_services.Errors.{ok, Result-cases}
use router_memory_services.Types.{Scope, Episode, ProviderMemory, MemoryRecord}
use router_memory_services.Catalog.Store.{Env, Catalog, mint}
use router_memory_services.Catalog.Rows.{resolve_gateway_id}
use router_memory_services.Catalog.Keys.{IsKeyed}
use router_memory_services.Catalog.Bindings.{bind, bound_to, get_binding}
use router_memory_services.Catalog.BindingLaws.{bind-get_binding, or_bound}
use router_memory_services.Catalog.Journal.{journal, insert_episode}
use router_memory_services.Catalog.MapState.{map_index-IsKeyed}
use router_memory_services.Core.State.{Core, World, WriteResult}
use router_memory_services.Core.Internals.{prepare, call, records, items_of}
use router_memory_services.Core.Writes.{ingest, upsert, require, journal_if}
use router_memory_services.Core.Prepared.{prepare-state}
use router_memory_services.Core.ById.{call-catalog}
use router_memory_services.Core.Written.{IsRecorded, records-IsRecorded, records-some, write_of}

pub bind-index :
    (env : Env) (tenant subject provider : String) (c : Catalog)
    → ((bind env tenant subject provider c).1.index ≡ c.index)
      × ((p : String) × ((bind env tenant subject provider c).0 ≡ ok p))
unfolding bind
bind-index env tenant subject provider c = (
  ground arith,
  elim (Result-cases (bind env tenant subject provider c).0) [
    | inl (x, e) ↦ absurd (ground arith)
    | inr (p, e) ↦ (p, e)
  ],
)

pub journal_if-index :
    {P : Type 0} (env : Env) (enabled : Bool) (tenant : String) (episode : Episode) (scope : Scope)
    (name : String) (natives : List String) (w : World P)
    → ((journal_if env enabled tenant episode scope name natives w).1.catalog.index
        ≡ w.catalog.index)
      × ((journal_if env enabled tenant episode scope name natives w).1.catalog.bindings
          ≡ w.catalog.bindings)
unfolding journal_if journal insert_episode mint
journal_if-index env false tenant episode scope name natives w = (refl, refl)
journal_if-index env true tenant episode scope name natives w = (ground arith, ground arith)

-- `_records` changes no binding.
records-bindings :
    {P : Type 0} (env : Env) (tenant name : String) (ms : List ProviderMemory) (scope : Scope)
    (w : World P) (rs : List MemoryRecord)
    → IsKeyed w.catalog.index
    → (records env tenant name ms scope w).0 ≡ ok rs
    → (records env tenant name ms scope w).1.catalog.bindings ≡ w.catalog.bindings
unfolding records
records-bindings env tenant name [] scope w rs keyed h = refl
records-bindings env tenant name (m ∷ ms) scope w rs keyed h =
    let (rows, answered, are, after) = records-some env tenant name scope w m ms rs h in
    let q = write_of tenant name (items_of (m ∷ ms)) scope in
    ap (λ (c : Catalog). c.bindings) after ∙ (map_index-IsKeyed env q w.catalog keyed).1.0

-- What a write that answers leaves in the catalog.
abbrev pub Outcome : {P : Type 0} → String → String → WriteResult → World P → World P → Type 0
Outcome tenant subject result w w' =
    All (IsRecorded tenant result.provider w'.catalog) result.results
    × ((get_binding tenant subject w'.catalog).0
        ≡ ok (some (or_bound (bound_to tenant subject w.catalog.bindings) result.provider)))

IsRecorded-same :
    (tenant name : String) (c c' : Catalog)
    → c'.index ≡ c.index
    → (r : MemoryRecord) → IsRecorded tenant name c r
    → IsRecorded tenant name c' r
unfolding resolve_gateway_id
IsRecorded-same tenant name c c' same r h = rw same h

-- The binding and the index after `bind` of the subject.
bound_after :
    (env : Env) (tenant subject name : String) (c c' : Catalog)
    → c'.bindings ≡ (bind env tenant subject name c).1.bindings
    → (get_binding tenant subject c').0
      ≡ ok (some (or_bound (bound_to tenant subject c.bindings) name))
unfolding get_binding
bound_after env tenant subject name c c' same = ground (
  arith,
  bind-get_binding env tenant subject name tenant subject c,
  eq_iff tenant tenant,
  eq_iff subject subject,
)

-- The outcome of a write, from what it has recorded and the binding that it has made.
finish :
    {P : Type 0} (env : Env) (tenant name : String) (scope : Scope) (w w1 w' : World P)
    (ms : List ProviderMemory) (rs : List MemoryRecord) (result : WriteResult)
    → IsKeyed w.catalog.index
    → w1.catalog ≡ w.catalog
    → (records env tenant name ms scope w1).0 ≡ ok rs
    → result ≡ record { results = rs; provider = name }
    → w'.catalog.index ≡ (records env tenant name ms scope w1).1.catalog.index
    → w'.catalog.bindings
      ≡ (bind env tenant scope.subject name
          (records env tenant name ms scope w1).1.catalog).1.bindings
    → Outcome tenant scope.subject result w w'
finish env tenant name scope w w1 w' ms rs result keyed same t is index bindings =
    let c2 = (records env tenant name ms scope w1).1.catalog in
    let keyed1 : IsKeyed w1.catalog.index =
      subst (λ (c : Catalog). IsKeyed c.index) (sym same) keyed in
    let before =
      records-bindings env tenant name ms scope w1 rs keyed1 t
      ∙ ap (λ (c : Catalog). c.bindings) same in
    subst (λ r. Outcome tenant scope.subject r w w') (sym is)
      (
        All-map_imp (IsRecorded-same tenant name c2 w'.catalog index) rs
            (records-IsRecorded env tenant name scope w1 ms rs keyed1 t),
        bound_after env tenant scope.subject name c2 w'.catalog bindings
            ∙ ap (λ b. ok (some (or_bound (bound_to tenant scope.subject b) name))) before,
      )

module _ {P : Type 0} (core : Core P) (tenant : String) (scope : Scope) (asserted : Option String)
    (w : World P) (keyed : IsKeyed w.catalog.index) (result : WriteResult) where
  -- Where the keys of the index hold, an `ingest` that answers has recorded what it answers: each record's id resolves, for the tenant,
  -- to a live row with the record's provider and native id; and the subject is bound to what it was
  -- bound to before, or else to the provider that took the episode.
  pub ingest-Outcome :
      (episode : Episode)
      → (ingest core tenant episode scope asserted w).0 ≡ ok result
      → Outcome tenant scope.subject result w (ingest core tenant episode scope asserted w).1
  unfolding ingest
  ingest-Outcome episode h =
      let w' = (ingest core tenant episode scope asserted w).1 in
      let same = prepare-state core tenant scope asserted w in
      elim (Result-cases (prepare core tenant scope asserted w).0) [
        | inl (e, p) ↦ absurd (ground arith)
        | inr ((name, a, bound), p) ↦ elim (Result-cases (require a.capabilities.supports_ingest)) [
          | inl (e, r) ↦ absurd (ground (arith, same))
          | inr (_, r) ↦ elim (Result-cases (call a (a.ingest episode bound) w).0) [
            | inl (e, s) ↦ absurd (ground (arith, same))
            | inr (ms, s) ↦
                let w1 = (call a (a.ingest episode bound) w).1 in
                elim (Result-cases (records core.env tenant name ms scope w1).0) [
                  | inl (e, t) ↦ absurd (ground (arith, same))
                  | inr (rs, t) ↦
                      let w2 = (records core.env tenant name ms scope w1).1 in
                      let b = bind-index core.env tenant scope.subject name w2.catalog in
                      let w3 = record w2 {
                        catalog = (bind core.env tenant scope.subject name w2.catalog).1;
                      } in
                      let natives = map (λ (m : ProviderMemory). m.native_id) ms in
                      let j =
                        journal_if-index core.env core.journal_enabled tenant episode scope name
                          natives w3 in
                      let w4 =
                        journal_if core.env core.journal_enabled tenant episode scope name natives
                          w3 in
                      elim (Result-cases w4.0) [
                        | inl (e, q) ↦ absurd (ground (arith, same, b.1.1))
                        | inr (_, q) ↦
                            finish core.env tenant name scope w w1 w' ms rs result keyed
                              (call-catalog a (a.ingest episode bound) w) t
                              (ground (arith, same, b.1.1))
                              (rw (p, same, r, s, t, b.1.1, q) (j.0 ∙ b.0))
                              (rw (p, same, r, s, t, b.1.1, q) (j.1))
                      ]
                ]
          ]
        ]
      ]

  -- Where the keys of the index hold, an `upsert` that answers has recorded what it answers: each record's id resolves, for the tenant,
  -- to a live row with the record's provider and native id; and the subject is bound to what it was
  -- bound to before, or else to the provider that took the facts.
  pub upsert-Outcome :
      (facts : List String)
      → (upsert core tenant facts scope asserted w).0 ≡ ok result
      → Outcome tenant scope.subject result w (upsert core tenant facts scope asserted w).1
  unfolding upsert
  upsert-Outcome [] h = absurd (ground arith)
  upsert-Outcome (fact ∷ facts) h =
      let w' = (upsert core tenant (fact ∷ facts) scope asserted w).1 in
      let same = prepare-state core tenant scope asserted w in
      elim (Result-cases (prepare core tenant scope asserted w).0) [
        | inl (e, p) ↦ absurd (ground arith)
        | inr ((name, a, bound), p) ↦ elim (Result-cases (require a.capabilities.supports_upsert)) [
          | inl (e, r) ↦ absurd (ground (arith, same))
          | inr (_, r) ↦ elim (Result-cases (call a (a.upsert (fact ∷ facts) bound) w).0) [
            | inl (e, s) ↦ absurd (ground (arith, same))
            | inr (ms, s) ↦
                let w1 = (call a (a.upsert (fact ∷ facts) bound) w).1 in
                elim (Result-cases (records core.env tenant name ms scope w1).0) [
                  | inl (e, t) ↦ absurd (ground (arith, same))
                  | inr (rs, t) ↦
                      let w2 = (records core.env tenant name ms scope w1).1 in
                      let b = bind-index core.env tenant scope.subject name w2.catalog in
                      finish core.env tenant name scope w w1 w' ms rs result keyed
                        (call-catalog a (a.upsert (fact ∷ facts) bound) w) t
                        (ground (arith, same, b.1.1)) (rw (p, same, r, s, t, b.1.1) (b.0))
                        (rw (p, same, r, s, t, b.1.1))
                ]
          ]
        ]
      ]
