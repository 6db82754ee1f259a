-- ===== src/StableSort.antt =====
-- `Array.prototype.sort`, which is stable: insertion sort by a test that says "not after".
use node_red_contrib_mavlink.Common.{
  tally, ◌≡◌, refl, Bool, true, false, List, [], ◌∷◌, arith, inl, inr, if◌then◌else◌, length, All,
  All-map, Bool-cases,
}

module _ {ℓ} {A : Type ℓ} (le : A → A → Bool) where
  unfoldable pub insert : A → List A → List A
  insert x [] = x ∷ []
  insert x (y ∷ ys) = if le x y then x ∷ y ∷ ys else y ∷ insert x ys

  unfoldable pub sort : List A → List A
  unfolding insert
  sort [] = []
  sort (x ∷ xs) = insert x (sort xs)

  pub length-insert : (x : A) (xs : List A) → length (insert x xs) ≡ length (x ∷ xs)
  unfolding insert
  length-insert x [] = refl
  length-insert x (y ∷ ys) = ground (arith, length-insert x ys)

  pub length-sort : (xs : List A) → length (sort xs) ≡ length xs
  unfolding sort
  length-sort [] = refl
  length-sort (x ∷ xs) = ground (arith, length-insert x (sort xs), length-sort xs)

  pub insert-All {κ} : (P : A → Type κ) (x : A) (xs : List A) → P x → All P xs → All P (insert x xs)
  unfolding insert
  insert-All P x [] h k = (h, k)
  insert-All P x (y ∷ ys) h k = elim (Bool-cases (le x y)) [
    | inl e ↦ rw e (h, k)
    | inr e ↦ rw e (k.0, insert-All P x ys h k.1)
  ]

  pub sort-All {κ} : (P : A → Type κ) (xs : List A) → All P xs → All P (sort xs)
  unfolding sort
  sort-All P [] h = tt
  sort-All P (x ∷ xs) h = insert-All P x (sort xs) h.0 (sort-All P xs h.1)

  abbrev pub IsSorted : List A → Type ℓ
  IsSorted [] = Unit
  IsSorted (x ∷ xs) = All (λ y. le x y ≡ true) xs × IsSorted xs

  pub tally-insert : (p : A → Bool) (x : A) (xs : List A) → tally p (insert x xs) ≡ tally p (x ∷ xs)
  unfolding insert
  tally-insert p x [] = refl
  tally-insert p x (y ∷ ys) = elim (Bool-cases (le x y)) [
    | inl e ↦ rw e
    | inr e ↦ rw e (omega (arith, tally-insert p x ys))
  ]

  -- Sorting keeps the elements, each as often as before.
  pub tally-sort : (p : A → Bool) (xs : List A) → tally p (sort xs) ≡ tally p xs
  unfolding sort
  tally-sort p [] = refl
  tally-sort p (x ∷ xs) = omega (arith, tally-insert p x (sort xs), tally-sort p xs)

-- A test that is total and transitive sorts.
module _ {ℓ} {A : Type ℓ} (le : A → A → Bool)
    (le_total : (x y : A) → le x y ≡ false → le y x ≡ true)
    (le_trans : (x y z : A) → le x y ≡ true → le y z ≡ true → le x z ≡ true) where
  le-All :
      (x y : A) (ys : List A)
      → le x y ≡ true
      → All (λ z. le y z ≡ true) ys
      → All (λ z. le x z ≡ true) ys
  le-All x y ys h = All-map _ _ (λ z k. le_trans x y z h k) ys

  insert-IsSorted : (x : A) (xs : List A) → IsSorted le xs → IsSorted le (insert le x xs)
  unfolding insert
  insert-IsSorted x [] h = (tt, tt)
  insert-IsSorted x (y ∷ ys) h = elim (Bool-cases (le x y)) [
    | inl e ↦ rw e ((e, le-All x y ys e h.0), h)
    | inr e ↦
        rw e
          (insert-All le (λ z. le y z ≡ true) x ys (le_total x y e) h.0, insert-IsSorted x ys h.1)
  ]

  pub sort-IsSorted : (xs : List A) → IsSorted le (sort le xs)
  unfolding sort
  sort-IsSorted [] = tt
  sort-IsSorted (x ∷ xs) = insert-IsSorted x (sort le xs) (sort-IsSorted xs)
