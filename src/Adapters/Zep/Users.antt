-- ===== src/Adapters/Zep/Users.antt =====
-- The writes of src/memgw/adapters/zep.py, and the users that it knows.
use router_memory_services.Prelude.{
  String, ◌≡◌, refl, sym, ap, ◌∙◌, true, false, List, [], ◌∷◌, ◌++◌, string_eq, beq_refl, elem, map,
  arith, Bool-cases, ◌⊎◌, inl, inr, is_empty,
}
use router_memory_services.Json.{Json}
use router_memory_services.Errors.{Result, ok, err, Result-cases}
use router_memory_services.Types.{Scope, ProviderMemory}
use router_memory_services.Adapters.Mem0.Items.{Reader, truthy, or_else}
use router_memory_services.Adapters.Zep.Edges.{zep_user_id, attr}
use router_memory_services.Adapters.Zep.Calls.{
  Client, Zep, at_service, ensure_user, remember, is_conflict, add, added, upsert,
}

module _ {P : Type 0} (c : Client P) where
  -- What a user that is ensured leaves: it is known, and so is who was known.
  pub record IsEnsured (user : String) (z z' : Zep P) : Type 0 where
    pub is_known : elem user z'.known ≡ true
    pub still_known : (other : String) → elem other z.known ≡ true → elem other z'.known ≡ true

  noted : (user : String) (z z1 : Zep P) → IsEnsured user z (record z1 { known = user ∷ z.known })
  noted user z z1 = record {
    is_known = rw (beq_refl user) refl;
    still_known = λ other h. ground (arith, h);
  }

  remember-IsEnsured :
      (user : String) (outcome : Result (Unit {0})) (z z1 : Zep P) (name : String)
      → z1.known ≡ z.known
      → (remember c user outcome z1).0 ≡ ok name
      → (name ≡ user) × IsEnsured user z (remember c user outcome z1).1
  remember-IsEnsured user (ok u) z z1 name same e = (ground arith, rw same (noted user z z1))
  remember-IsEnsured user (err x) z z1 name same e = elim (Bool-cases (is_conflict c x)) [
    | inl t ↦ (ground (arith, t, e), rw (t, same) (noted user z z1))
    | inr t ↦ absurd (ground (arith, t, e))
  ]

  ensure_user-IsEnsured :
      (scope : Scope) (z : Zep P) (user : String)
      → (ensure_user c scope z).0 ≡ ok user
      → (user ≡ zep_user_id scope) × IsEnsured (zep_user_id scope) z (ensure_user c scope z).1
  unfolding ensure_user
  ensure_user-IsEnsured scope z user e = elim (Bool-cases (elem (zep_user_id scope) z.known)) [
    | inl p ↦ (ground (arith, p, e), rw p (record { is_known = p; still_known = λ other h. h }))
    | inr p ↦
        let outcome = at_service c (c.add_user (zep_user_id scope)) z in
        let ends : ensure_user c scope z ≡ remember c (zep_user_id scope) outcome.0 outcome.1 =
          rw p refl in
        rw p (
          remember-IsEnsured (zep_user_id scope) outcome.0 z outcome.1 user refl
            (sym (λ i. (ends i).0) ∙ e))
  ]

abbrev contents : List ProviderMemory → List String
contents = map λ memory. memory.content

-- The contents of an answer
abbrev answered : Result (List ProviderMemory) → List String
answered (ok memories) = contents memories
answered (err e) = []

contents-append : (xs ys : List ProviderMemory) → contents (xs ++ ys) ≡ contents xs ++ contents ys
contents-append [] ys = refl
contents-append (x ∷ xs) ys = ap (◌∷◌ x.content) (contents-append xs ys)

module _ {P : Type 0} (c : Client P) (r : Reader) where
  added-content :
      (fact : String) (raw : Json) (memories : List ProviderMemory)
      → added c r fact raw ≡ ok memories
      → map (λ (m : ProviderMemory). m.content) memories ≡ fact ∷ []
  added-content fact raw memories e =
      elim (Bool-cases (truthy r (or_else r (attr raw "uuid_") (attr raw "uuid")))) [
        | inl t ↦ sym (ap answered e) ∙ rw t refl
        | inr t ↦ absurd (ground (arith, t, e))
      ]

  -- What an addition that answers gives: one memory, with the text that was added.
  add-IsEnsured :
      (fact : String) (scope : Scope) (z : Zep P) (memories : List ProviderMemory)
      → (add c r fact scope z).0 ≡ ok memories
      → (map (λ (m : ProviderMemory). m.content) memories ≡ fact ∷ [])
        × IsEnsured c (zep_user_id scope) z (add c r fact scope z).1
  unfolding add
  add-IsEnsured fact scope z memories e = elim (Result-cases (ensure_user c scope z).0) [
    | inl (x, p) ↦ absurd (ground (arith, p, e))
    | inr (user, p) ↦
        let z1 = (ensure_user c scope z).1 in
        let one = (ensure_user-IsEnsured c scope z user p).1 in
        elim (Result-cases (c.add user fact z1.service).0) [
          | inl (x, q) ↦ absurd (ground (arith, p, q, e))
          | inr (raw, q) ↦
              let ends : (add c r fact scope z).0 ≡ added c r fact raw = rw (p, q) refl in
              (
                added-content fact raw memories (sym ends ∙ e),
                rw (p, q) (record { is_known = one.is_known; still_known = one.still_known }),
              )
        ]
  ]

  upsert-added :
      (facts : List String) (scope : Scope) (z : Zep P) (memories : List ProviderMemory)
      → (upsert c r facts scope z).0 ≡ ok memories
      → (map (λ (m : ProviderMemory). m.content) memories ≡ facts)
        × ((is_empty facts ≡ false) ⊎ (elem (zep_user_id scope) z.known ≡ true)
            → elem (zep_user_id scope) (upsert c r facts scope z).1.known ≡ true)
  unfolding upsert
  upsert-added [] scope z memories e =
      (sym (ap answered e), λ h. elim h [ inl x ↦ absurd (ground (arith, x)) | inr x ↦ x ])
  upsert-added (fact ∷ facts) scope z memories e = elim (Result-cases (add c r fact scope z).0) [
    | inl (x, p) ↦ absurd (ground (arith, p, e))
    | inr (first, p) ↦
        let z1 = (add c r fact scope z).1 in
        let one = add-IsEnsured fact scope z first p in
        elim (Result-cases (upsert c r facts scope z1).0) [
          | inl (x, q) ↦ absurd (ground (arith, p, q, e))
          | inr (rest, q) ↦
              let more = upsert-added facts scope z1 rest q in
              (
                sym (ap answered e) ∙ rw (p, q, contents-append first rest, one.0, more.0) refl,
                λ h. rw (p, q) (more.1 (inr one.1.is_known)),
              )
        ]
  ]

  -- An upsert that answers gives one memory for each fact, in order and with its text; and when there
  -- was a fact, the scope's user is known, so that the next write does not create it.
  pub upsert-contents :
      (facts : List String) (scope : Scope) (z : Zep P) (memories : List ProviderMemory)
      → (upsert c r facts scope z).0 ≡ ok memories
      → (map (λ (m : ProviderMemory). m.content) memories ≡ facts)
        × (is_empty facts ≡ false
            → ensure_user c scope (upsert c r facts scope z).1
              ≡ (ok (zep_user_id scope), (upsert c r facts scope z).1))
  unfolding ensure_user
  upsert-contents facts scope z memories e =
      let made = upsert-added facts scope z memories e in
      (made.0, λ some_fact. rw (made.1 (inl some_fact)) refl)
