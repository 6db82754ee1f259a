-- ===== src/Param/Listing/Finished.antt =====
-- What ParamList._finish and _firstMissingIndex (lib/param/param-workflow.js) make of what was received.
use node_red_contrib_mavlink.Common.{
  ℕ, zero, suc, ◌+◌, ◌≤◌, ◌<◌, ◌≡◌, refl, ◌∙◌, subst, Bool, true, none, some, List, [], ◌∷◌, arith,
  ◌==◌, length, tally, All, Bool-cases, inl, inr, if◌then◌else◌, if_cases, nat_eq,
}
use node_red_contrib_mavlink.JsMap.{has, set, delete}
use node_red_contrib_mavlink.JsMap.Laws.{Keyed, has-delete_other}
use node_red_contrib_mavlink.StableSort.{
  sort, sort-All, sort-IsSorted, tally-sort, length-sort, IsSorted,
}
use node_red_contrib_mavlink.Param.{
  Config, Value, Param, Floats, project_param, project_as, union_view,
}
use node_red_contrib_mavlink.Param.Listing.{index_le, first_missing, project_all}
use node_red_contrib_mavlink.Param.Listing.Ascending.{
  InOrder, at, Differ, Below, few-Below, full-InOrder, all-From,
}

module _ {X : Type 0} where
  abbrev pub IsEntry : ℕ → ℕ × Value X → Type 0
  IsEntry n (i, v) = (i ≡ v.index) × (i < n)

  sort_index-IsSorted : (ps : List (Param X)) → IsSorted index_le (sort index_le ps)
  sort_index-IsSorted ps =
      sort-IsSorted index_le (λ p q h. ground (arith, h)) (λ p q r h k. ground (arith, h, k)) ps

  pub set-IsEntry :
      (n : ℕ) (m : List (ℕ × Value X)) (v : Value X)
      → v.index < n
      → All (IsEntry n) m
      → All (IsEntry n) (set m v.index v)
  unfolding set
  set-IsEntry n [] v h a = ((refl, h), tt)
  set-IsEntry n ((i, w) ∷ m) v h a =
      if_cases (All (IsEntry n)) (i == v.index) (λ e. ((ground arith, a.0.1), a.1))
        (λ e. (a.0, set-IsEntry n m v h a.1))

  length-delete-has :
      (m : List (ℕ × Value X)) (k : ℕ) → has m k ≡ true → suc (length (delete m k)) ≡ length m
  unfolding has delete
  length-delete-has [] k h = ground arith
  length-delete-has ((i, w) ∷ m) k h = ground (arith, length-delete-has m k)

  -- A map with all keys below `n` has at least `n` entries.
  pub covers-size :
      (n : ℕ) (m : List (ℕ × Value X)) → ((j : ℕ) → j < n → has m j ≡ true) → n ≤ length m
  covers-size zero m h = omega arith
  covers-size (suc n) m h =
      let rest =
        covers-size n (delete m n)
          (λ j k. has-delete_other m n j (ground arith) ∙ h j (omega (arith, k))) in
      omega (arith, rest, length-delete-has m n (h n (omega arith)))

  pub first_missing-none :
      (m : List (ℕ × Value X)) (i k : ℕ)
      → first_missing m i k ≡ none
      → (j : ℕ) → i ≤ j
      → j < i + k
      → has m j ≡ true
  first_missing-none m i zero e j h l = absurd (omega (arith, h, l))
  first_missing-none m i (suc k) e j h l = elim (Bool-cases (has m i)) [
    | inl f ↦ elim (Bool-cases (i == j)) [
      | inl g ↦ subst (λ x. has m x ≡ true) {x = i} (ground arith) f
      | inr g ↦ first_missing-none m (suc i) k (ground arith) j (ground arith) (omega (arith, l))
    ]
    | inr f ↦ ground arith
  ]

module _ {X : Type 0} (fl : Floats X) (c : Config) (bytewise : Bool) where
  index-project_as : (o : _) (v : Value X) → (project_as fl o v).index ≡ v.index
  index-project_as none v = refl
  index-project_as (some view) v = refl

  index-project : (v : Value X) → (project_param fl c bytewise v).index ≡ v.index
  unfolding project_param
  index-project v = index-project_as (union_view c bytewise v.type_num) v

  length-project_all : (m : List (ℕ × Value X)) → length (project_all fl c bytewise m) ≡ length m
  length-project_all [] = refl
  length-project_all ((i, v) ∷ m) = omega (arith, length-project_all m)

  tally-project_all :
      (n : ℕ) (m : List (ℕ × Value X)) (i : ℕ)
      → Keyed m
      → All (IsEntry n) m
      → tally (at i) (project_all fl c bytewise m) ≡ (if has m i then 1 else 0)
  unfolding has
  tally-project_all n [] i k a = refl
  tally-project_all n ((j, v) ∷ m) i k a =
      ground (arith, index-project v, a.0.0, k.0, tally-project_all n m i k.1 a.1)

  project_all-Below :
      (n : ℕ) (m : List (ℕ × Value X))
      → All (IsEntry n) m
      → All (Below n) (project_all fl c bytewise m)
  project_all-Below n [] a = tt
  project_all-Below n ((i, v) ∷ m) a =
      (ground (arith, index-project v, a.0), project_all-Below n m a.1)

  -- What the sort of `_finish` is given.
  sorted-Differ :
      (n : ℕ) (m : List (ℕ × Value X))
      → Keyed m
      → All (IsEntry n) m
      → Differ (sort index_le (project_all fl c bytewise m))
  sorted-Differ n m k a i =
      ground (
        arith,
        tally-sort index_le (at i) (project_all fl c bytewise m),
        tally-project_all n m i k a,
      )

  pub finished :
      (n : ℕ) (m : List (ℕ × Value X))
      → Keyed m
      → All (IsEntry n) m
      → n ≤ length m
      → InOrder 0 (sort index_le (project_all fl c bytewise m))
        × (length (sort index_le (project_all fl c bytewise m)) ≡ n)
  finished n m k a h =
      let ps = project_all fl c bytewise m in
      let s = sort_index-IsSorted ps in
      let d = sorted-Differ n m k a in
      let l = sort-All index_le (Below n) ps (project_all-Below n m a) in
      let e = length-sort index_le ps ∙ length-project_all m in
      let f = all-From (sort index_le ps) in
      let most = few-Below n 0 (sort index_le ps) s d f l (omega arith) in
      (full-InOrder n 0 (sort index_le ps) s d f l (omega (arith, e, h)), omega (arith, most, e, h))
