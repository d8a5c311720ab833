-- ===== src/Adapters/Pgvector/Updating.antt =====
-- `update` of src/memgw/adapters/pgvector.py: what the table holds after it.
use router_memory_services.Prelude.{
  suc, String, ◌≡◌, ◌≢◌, refl, sym, subst, ap, ◌∙◌, true, false, none, some, List, [], ◌∷◌,
  string_eq, eq_iff, arith, any, map, select, length, nat_beq, Bool-cases, Option-cases, inl, inr,
  if◌then◌else◌,
}
use router_memory_services.Json.{Float}
use router_memory_services.Errors.{Result, ok, raise, memory_not_found, Result-cases}
use router_memory_services.Types.{DateTime, ProviderMemory}
use router_memory_services.Adapters.Pgvector.Table.{Row, Store, Host, has_id, to_memory}
use router_memory_services.Adapters.Pgvector.Writes.{
  only, find_row, get, rewritten, rewrite, rewrite_rows, update,
}
use router_memory_services.Adapters.Pgvector.Keys.{IsKeyed}

-- The row after the statement
abbrev pub rewritten_at : String → String → List Float → DateTime → Row → Row
rewritten_at id content vector now row =
    if has_id id row then rewritten content vector now row else row

pub rewrite-map :
    (h : Host) (id content : String) (vector : List Float) (now : DateTime) (rows rows' : List Row)
    → rewrite h id content vector now rows ≡ ok rows'
    → rows' ≡ map (rewritten_at id content vector now) rows
unfolding rewrite
rewrite-map h id content vector now [] rows' e = ground arith
rewrite-map h id content vector now (row ∷ rows) rows' e =
    elim (Result-cases (rewrite h id content vector now rows)) [
      | inl (x, p) ↦ absurd (ground (arith, p, e))
      | inr (rest, p) ↦ elim (Bool-cases (has_id id row)) [
        | inr q ↦ ground (arith, p, q, e, rewrite-map h id content vector now rows rest p)
        | inl q ↦ elim (Option-cases (h.refuses (rewritten content vector now row))) [
          | inr (x, r) ↦ absurd (ground (arith, p, q, r, e))
          | inl r ↦ ground (arith, p, q, r, e, rewrite-map h id content vector now rows rest p)
        ]
      ]
    ]

module _ (id content : String) (vector : List Float) (now : DateTime) where
  abbrev change : List Row → List Row
  change = map (rewritten_at id content vector now)

  any-change :
      (key : String) (rows : List Row) → any (has_id key) (change rows) ≡ any (has_id key) rows
  any-change key [] = refl
  any-change key (row ∷ rows) = ground (arith, any-change key rows)

  pub change-IsKeyed : (rows : List Row) → IsKeyed rows → IsKeyed (change rows)
  change-IsKeyed [] k = tt
  change-IsKeyed (row ∷ rows) k =
      (ground (arith, k.0, any-change row.native_id rows), change-IsKeyed rows k.1)

  find_row-change :
      (key : String) (rows : List Row)
      → find_row key (change rows) ≡ elim (find_row key rows) [
        | none ↦ none
        | some row ↦ some (rewritten_at id content vector now row)
      ]
  unfolding find_row
  find_row-change key [] = refl
  find_row-change key (row ∷ rows) = ground (arith, find_row-change key rows)

find_row-count :
    (id : String) (rows : List Row)
    → nat_beq (length (select (has_id id) rows)) 0
      ≡ elim (find_row id rows) [ none ↦ true | some row ↦ false ]
unfolding find_row
find_row-count id [] = refl
find_row-count id (row ∷ rows) = ground (arith, find_row-count id rows)

find_row-id :
    (id : String) (rows : List Row) (row : Row) → find_row id rows ≡ some row → row.native_id ≡ id
unfolding find_row
find_row-id id [] row e = absurd (ground arith)
find_row-id id (r ∷ rows) row e = ground (arith, eq_iff r.native_id id, find_row-id id rows row)

rewrite-absent :
    (h : Host) (id content : String) (vector : List Float) (now : DateTime) (rows : List Row)
    → find_row id rows ≡ none
    → rewrite h id content vector now rows ≡ ok rows
unfolding rewrite find_row
rewrite-absent h id content vector now [] e = refl
rewrite-absent h id content vector now (row ∷ rows) e =
    ground (arith, rewrite-absent h id content vector now rows)

-- What an update that answers has done: the id's row has the new content and keeps what else it had,
-- and every other id finds what it found.
pub record IsUpdated (id content : String) (s s' : Store) (memory : ProviderMemory) : Type 0 where
  pub content_is : memory.content ≡ content
  pub id_is : memory.native_id ≡ id
  pub got : (get id s').0 ≡ ok (some memory)
  pub born : (row : Row) → find_row id s.rows ≡ some row → memory.created_at ≡ some row.created_at
  pub others : (key : String) → key ≢ id → find_row key s'.rows ≡ find_row key s.rows
  pub keyed : IsKeyed s.rows → IsKeyed s'.rows

module _ (id content : String) (vector : List Float) (now : DateTime) (s s' : Store) (row : Row)
    (found : find_row id s.rows ≡ some row)
    (changed : s'.rows ≡ map (rewritten_at id content vector now) s.rows) where
  finds : find_row id s'.rows ≡ some (rewritten content vector now row)
  finds =
      ap (find_row id) changed
      ∙ rw (find_row-change id content vector now id s.rows, found)
          (ground (arith, find_row-id id s.rows row found, eq_iff row.native_id id))

  finds_others : (key : String) → key ≢ id → find_row key s'.rows ≡ find_row key s.rows
  finds_others key ne = elim (Option-cases (find_row key s.rows)) [
    | inl p ↦
        ap (find_row key) changed ∙ rw (find_row-change id content vector now key s.rows, p) refl
    | inr (other, p) ↦
        ap (find_row key) changed
        ∙ rw (find_row-change id content vector now key s.rows, p)
            (ground (arith, find_row-id key s.rows other p, eq_iff other.native_id id, ne))
  ]

  updated : IsUpdated id content s s' (to_memory none (rewritten content vector now row))
  unfolding get
  updated = record {
    content_is = refl;
    id_is = find_row-id id s.rows row found;
    got = rw finds refl;
    born = λ other p. ground (arith, found, p);
    others = finds_others;
    keyed = λ k. subst IsKeyed (sym changed) (change-IsKeyed id content vector now s.rows k);
  }

-- An update that answers gives the id's row the new content, keeps when it was created and every
-- other row, and the keys; an update of an id that is not there raises MemoryNotFound and changes no
-- row, if the embedder gives one vector.
pub update-IsUpdated :
    (h : Host) (id content : String) (s : Store)
    → ((memory : ProviderMemory)
        → (update h id content s).0 ≡ ok memory
        → IsUpdated id content s (update h id content s).1 memory)
      × ((vector : List Float)
          → h.embed s.ticks (content ∷ []) ≡ ok (vector ∷ [])
          → find_row id s.rows ≡ none
          → ((update h id content s).0 ≡ raise memory_not_found)
            × ((update h id content s).1.rows ≡ s.rows))
unfolding update rewrite_rows get
update-IsUpdated h id content s = (
  (λ memory e. elim (Result-cases (h.embed s.ticks (content ∷ []))) [
    | inl (x, p) ↦ absurd (ground (arith, p, e))
    | inr (vectors, p) ↦ elim (Result-cases (only vectors)) [
      | inl (x, q) ↦ absurd (ground (arith, p, q, e))
      | inr (vector, q) ↦
          let now = h.now (suc s.ticks) in
          elim (Result-cases (rewrite h id content vector now s.rows)) [
            | inl (x, r) ↦ absurd (ground (arith, p, q, r, e))
            | inr (rows, r) ↦ elim (Option-cases (find_row id s.rows)) [
              | inl t ↦ absurd (ground (arith, p, q, r, find_row-count id s.rows, t, e))
              | inr (row, t) ↦
                  let s' : Store = record s { rows = rows; ticks = suc (suc s.ticks) } in
                  let changed = rewrite-map h id content vector now s.rows rows r in
                  let answer = to_memory none (rewritten content vector now row) in
                  let ends : update h id content s ≡ (ok answer, s') =
                    rw
                      (
                        p,
                        q,
                        r,
                        find_row-count id s.rows,
                        t,
                        finds id content vector now s s' row t changed,
                      )
                      refl in
                  let same : ◌≡◌ {A = Result ProviderMemory} (ok answer) (ok memory) =
                    sym (λ i. (ends i).0) ∙ e in
                  let as_answered : answer ≡ memory = ground arith in
                  subst (IsUpdated id content s (update h id content s).1) as_answered (
                    subst (λ v. IsUpdated id content s v answer) (sym (λ i. (ends i).1))
                      (updated id content vector now s s' row t changed))
            ]
          ]
    ]
  ]),
  λ vector p t.
      rw
        (
          p,
          rewrite-absent h id content vector (h.now (suc s.ticks)) s.rows t,
          find_row-count id s.rows,
          t,
        )
        (refl, refl),
)
