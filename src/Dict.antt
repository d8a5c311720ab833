-- ===== src/Dict.antt =====
-- Python's `dict`, in insertion order: an association list without repeated keys.
use router_memory_services.Prelude.{
  ◌≡◌, refl, Bool, true, false, Option, none, some, List, [], ◌∷◌, arith, Eq, ◌==◌, beq_refl,
  if◌then◌else◌,
}

abbrev pub Dict {ℓ κ} : Type ℓ → Type κ → Type (ℓ ⊔ κ)
Dict K V = List (K × V)

module _ {ℓ κ} {K : Type ℓ} {V : Type κ} ⦃e : Eq K⦄ where
  -- d.get(k)
  unfoldable pub lookup : K → Dict K V → Option V
  lookup k [] = none
  lookup k ((j, v) ∷ d) = if j == k then some v else lookup k d

  -- k in d
  abbrev pub has : K → Dict K V → Bool
  has k d = elim (lookup k d) [ none ↦ false | some v ↦ true ]

  -- d[k] = v
  unfoldable pub insert : K → V → Dict K V → Dict K V
  insert k v [] = (k, v) ∷ []
  insert k v ((j, w) ∷ d) = if j == k then (j, v) ∷ d else (j, w) ∷ insert k v d

  -- d.update(pairs), and dict(pairs) on the empty dictionary: the last of two values for one key
  -- stays.
  unfoldable pub update_all : Dict K V → List (K × V) → Dict K V
  unfolding insert
  update_all d [] = d
  update_all d ((k, v) ∷ pairs) = update_all (insert k v d) pairs

  -- d.update(new) for a dictionary `new`, whose keys are distinct: the order of the writes does not
  -- matter.
  unfoldable pub merge : Dict K V → Dict K V → Dict K V
  unfolding insert
  merge d [] = d
  merge d ((k, v) ∷ new) = insert k v (merge d new)

module _ {ℓ κ} {K : Type ℓ} {V : Type κ} ⦃e : Eq K⦄ where
  pub lookup-insert :
      (k j : K) (v : V) (d : Dict K V)
      → lookup j (insert k v d) ≡ (if k == j then some v else lookup j d)
  unfolding lookup insert
  lookup-insert k j v [] = refl
  lookup-insert k j v ((i, w) ∷ d) =
      ground (arith, e.beq_iff k j, e.beq_iff i k, e.beq_iff i j, lookup-insert k j v d)

  pub lookup-insert_self : (k : K) (v : V) (d : Dict K V) → lookup k (insert k v d) ≡ some v
  lookup-insert_self k v d = rw (lookup-insert k k v d, beq_refl k)

  pub lookup-merge :
      (j : K) (d new : Dict K V)
      → lookup j (merge d new) ≡ elim (lookup j new) [ none ↦ lookup j d | some v ↦ some v ]
  unfolding lookup merge
  lookup-merge j d [] = refl
  lookup-merge j d ((k, v) ∷ new) =
      ground (arith, lookup-insert k j v (merge d new), lookup-merge j d new)
