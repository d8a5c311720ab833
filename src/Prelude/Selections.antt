-- ===== src/Prelude/Selections.antt =====
-- What holds of a list holds of its parts; and lists that are sorted.
use Prim.Native.Nat.{ℕ, zero, suc, ◌≤◌}
use mathlib.Core.Path.{◌≡◌, refl, ap, ◌∙◌}
use mathlib.Core.Logic.{◌⊎◌, inl, inr}
use mathlib.Core.Bool.{Bool, true, false, not, ◌&&◌, ◌||◌}
use mathlib.Core.List.{List, [], ◌∷◌, map, Memᴰ}
use native.Mathlib.Omega.{arith}
use router_memory_services.Prelude.Tests.{Bool-cases}
use router_memory_services.Prelude.Lists.{
  length, take, drop, all, select, is_empty, All, All-map_imp,
}
use router_memory_services.Prelude.Sort.{insert_by, sort_by}

module _ {ℓ κ} {A : Type ℓ} (P : A → Type κ) where
  pub All-take : (n : ℕ) (xs : List A) → All P xs → All P (take n xs)
  All-take zero xs h = tt
  All-take (suc n) [] h = tt
  All-take (suc n) (x ∷ xs) h = (h.0, All-take n xs h.1)

  pub All-drop : (n : ℕ) (xs : List A) → All P xs → All P (drop n xs)
  All-drop zero xs h = h
  All-drop (suc n) [] h = tt
  All-drop (suc n) (x ∷ xs) h = All-drop n xs h.1

  -- A selection has what the list has, and passes the test.
  pub All-select :
      (p : A → Bool) (xs : List A) → All P xs → All (λ x. P x × (p x ≡ true)) (select p xs)
  All-select p [] h = tt
  All-select p (x ∷ xs) h = elim (Bool-cases (p x)) [
    | inl e ↦ rw e ((h.0, e), All-select p xs h.1)
    | inr e ↦ rw e (All-select p xs h.1)
  ]

  module _ (before : A → A → Bool) where
    All-insert_by : (a : A) (xs : List A) → P a → All P xs → All P (insert_by before a xs)
    unfolding insert_by
    All-insert_by a [] ha h = (ha, tt)
    All-insert_by a (x ∷ xs) ha h = elim (Bool-cases (before a x)) [
      | inl e ↦ rw e (ha, h)
      | inr e ↦ rw e (h.0, All-insert_by a xs ha h.1)
    ]

    pub All-sort_by : (xs : List A) → All P xs → All P (sort_by before xs)
    unfolding sort_by
    All-sort_by [] h = tt
    All-sort_by (x ∷ xs) h = All-insert_by x (sort_by before xs) h.0 (All-sort_by xs h.1)

-- Every element is one of the list's.
pub All-Memᴰ {ℓ} : {A : Type ℓ} (xs : List A) → All (λ x. Memᴰ x xs) xs
All-Memᴰ [] = tt
All-Memᴰ (x ∷ xs) =
    (Memᴰ.head refl, All-map_imp {P = λ y. Memᴰ y xs} (λ y h. Memᴰ.tail h) xs (All-Memᴰ xs))

module _ {ℓ κ ι} {A : Type ℓ} (P : A → Type κ) (Q : A → Type ι) where
  pub All-both : (xs : List A) → All P xs → All Q xs → All (λ x. P x × Q x) xs
  All-both [] hp hq = tt
  All-both (x ∷ xs) hp hq = ((hp.0, hq.0), All-both xs hp.1 hq.1)

module _ {ℓ κ ι} {A : Type ℓ} {B : Type κ} (P : B → Type ι) (f : A → B) where
  pub All-map : (xs : List A) → All (λ x. P (f x)) xs → All P (map f xs)
  All-map [] h = tt
  All-map (x ∷ xs) h = (h.0, All-map xs h.1)

module _ {ℓ} {A : Type ℓ} (before : A → A → Bool) where
  -- Each element comes before all that follow it.
  abbrev pub IsSorted : List A → Type ℓ
  IsSorted [] = Unit
  IsSorted (x ∷ xs) = All (λ y. before x y ≡ true) xs × IsSorted xs

  module _ (total : (a b : A) → before a b ≡ false → before b a ≡ true)
      (trans : (a b c : A) → before a b ≡ true → before b c ≡ true → before a c ≡ true) where
    insert_by-IsSorted : (a : A) (xs : List A) → IsSorted xs → IsSorted (insert_by before a xs)
    unfolding insert_by
    insert_by-IsSorted a [] s = (tt, tt)
    insert_by-IsSorted a (x ∷ xs) s = elim (Bool-cases (before a x)) [
      | inl e ↦ rw e ((e, All-map_imp (λ y h. trans a x y e h) xs s.0), s)
      | inr e ↦ rw e (
        All-insert_by (λ y. before x y ≡ true) before a xs (total a x e) s.0,
        insert_by-IsSorted a xs s.1,
      )
    ]

    pub sort_by-IsSorted : (xs : List A) → IsSorted (sort_by before xs)
    unfolding sort_by
    sort_by-IsSorted [] = tt
    sort_by-IsSorted (x ∷ xs) = insert_by-IsSorted x (sort_by before xs) (sort_by-IsSorted xs)

  pub take-IsSorted : (n : ℕ) (xs : List A) → IsSorted xs → IsSorted (take n xs)
  take-IsSorted zero xs s = tt
  take-IsSorted (suc n) [] s = tt
  take-IsSorted (suc n) (x ∷ xs) s =
      (All-take (λ y. before x y ≡ true) n xs s.0, take-IsSorted n xs s.1)

  -- In a sorted list, what is cut off comes after all that is kept.
  pub take-before-drop :
      (n : ℕ) (xs : List A)
      → IsSorted xs
      → All (λ x. All (λ y. before x y ≡ true) (drop n xs)) (take n xs)
  take-before-drop zero xs s = tt
  take-before-drop (suc n) [] s = tt
  take-before-drop (suc n) (x ∷ xs) s =
      (All-drop (λ y. before x y ≡ true) n xs s.0, take-before-drop n xs s.1)

module _ {ℓ κ} {A : Type ℓ} {B : Type κ} (f : B → A) (before : A → A → Bool)
    (before' : B → B → Bool)
    (rises : (a b : B) → before' a b ≡ true → before (f a) (f b) ≡ true) where
  pub IsSorted-map : (xs : List B) → IsSorted before' xs → IsSorted before (map f xs)
  IsSorted-map [] s = tt
  IsSorted-map (x ∷ xs) s = (
    All-map (λ y. before (f x) y ≡ true) f xs (All-map_imp (λ y h. rises x y h) xs s.0),
    IsSorted-map xs s.1,
  )

module _ {ℓ} {A : Type ℓ} where
  pub length-take_le : (n : ℕ) (xs : List A) → length (take n xs) ≤ n
  length-take_le zero xs = omega arith
  length-take_le (suc n) [] = omega arith
  length-take_le (suc n) (x ∷ xs) = omega (arith, length-take_le n xs)

  -- A list is cut to a length only where it has more.
  pub take-full : (n : ℕ) (xs : List A) → (drop n xs ≡ []) ⊎ (length (take n xs) ≡ n)
  take-full zero xs = inr refl
  take-full (suc n) [] = inl refl
  take-full (suc n) (x ∷ xs) = elim (take-full n xs) [ inl e ↦ inl e | inr e ↦ inr (ap suc e) ]

  -- Two selections that differ nowhere on the list.
  pub select-eq :
      (p q : A → Bool) (xs : List A) → All (λ x. p x ≡ q x) xs → select p xs ≡ select q xs
  select-eq p q [] h = refl
  select-eq p q (x ∷ xs) h = ground (arith, select-eq p q xs h.1)

  pub select-select :
      (p q : A → Bool) (xs : List A) → select p (select q xs) ≡ select (λ x. q x && p x) xs
  select-select p q [] = refl
  select-select p q (x ∷ xs) = ground (arith, select-select p q xs)

  pub length-map {κ} : {B : Type κ} (f : A → B) (xs : List A) → length (map f xs) ≡ length xs
  length-map f [] = refl
  length-map f (x ∷ xs) = ap suc (length-map f xs)

  pub is_empty-nil : (xs : List A) → is_empty xs ≡ true → xs ≡ []
  is_empty-nil [] h = refl
  is_empty-nil (x ∷ xs) h = absurd (ground arith)

  -- A selection that takes everything, and one that takes nothing.
  pub select-all : (p : A → Bool) (xs : List A) → All (λ x. p x ≡ true) xs → select p xs ≡ xs
  select-all p [] h = refl
  select-all p (x ∷ xs) h = ground (arith, select-all p xs h.1)

  pub All-every {κ} : (P : A → Type κ) → ((x : A) → P x) → (xs : List A) → All P xs
  All-every P f [] = tt
  All-every P f (x ∷ xs) = (f x, All-every P f xs)

  pub select-none : (p : A → Bool) (xs : List A) → select p xs ≡ [] → All (λ x. p x ≡ false) xs
  select-none p [] h = tt
  select-none p (x ∷ xs) h = elim (Bool-cases (p x)) [
    | inl e ↦ absurd (ground arith)
    | inr e ↦ (e, select-none p xs (ground arith))
  ]

  pub is_empty-map {κ} : {B : Type κ} (f : A → B) (xs : List A) → is_empty (map f xs) ≡ is_empty xs
  is_empty-map f [] = refl
  is_empty-map f (x ∷ xs) = refl

  pub all-is_empty : (p : A → Bool) (xs : List A) → is_empty xs ≡ true → all p xs ≡ true
  all-is_empty p [] h = refl
  all-is_empty p (x ∷ xs) h = absurd (ground arith)

pub and_right : (a : Bool) {b : Bool} → b ≡ true → a ≡ (a && b)
and_right true h = ground arith
and_right false h = refl

pub not_or : (a b : Bool) → (not a && not b) ≡ not (a || b)
not_or true b = refl
not_or false b = refl

module _ {ℓ κ} {A : Type ℓ} {B : Type κ} (f : A → B) where
  pub map-take : (n : ℕ) (xs : List A) → map f (take n xs) ≡ take n (map f xs)
  map-take zero xs = refl
  map-take (suc n) [] = refl
  map-take (suc n) (x ∷ xs) = ap (◌∷◌ (f x)) (map-take n xs)

  pub map-select :
      (p : B → Bool) (xs : List A) → map f (select (λ x. p (f x)) xs) ≡ select p (map f xs)
  map-select p [] = refl
  map-select p (x ∷ xs) = elim (Bool-cases (p (f x))) [
    | inl e ↦ rw (e, map-select p xs)
    | inr e ↦ rw (e, map-select p xs)
  ]

  module _ (leb : A → A → Bool) (leb' : B → B → Bool)
      (same : (a b : A) → leb a b ≡ leb' (f a) (f b)) where
    map-insert_by :
        (a : A) (xs : List A) → map f (insert_by leb a xs) ≡ insert_by leb' (f a) (map f xs)
    unfolding insert_by
    map-insert_by a [] = refl
    map-insert_by a (x ∷ xs) = elim (Bool-cases (leb' (f a) (f x))) [
      | inl e ↦ rw (same a x, e) refl
      | inr e ↦ rw (same a x, e, map-insert_by a xs) refl
    ]

    pub map-sort_by : (xs : List A) → map f (sort_by leb xs) ≡ sort_by leb' (map f xs)
    unfolding sort_by
    map-sort_by [] = refl
    map-sort_by (x ∷ xs) =
        map-insert_by x (sort_by leb xs) ∙ ap (insert_by leb' (f x)) (map-sort_by xs)
