-- ===== src/Param/Listing/Ascending.antt =====
-- Sorted parameters whose indices differ and stay below a bound, as ParamList._finish
-- (lib/param/param-workflow.js) makes them: as many as the bound are numbered 0, 1, 2, ...
use node_red_contrib_mavlink.Common.{
  ℕ, suc, ◌+◌, ◌≤◌, ◌<◌, ◌≡◌, Bool, true, List, [], ◌∷◌, arith, ltb, ◌==◌, length, tally, All,
  All-map, Bool-cases, inl, inr,
}
use node_red_contrib_mavlink.StableSort.{IsSorted}
use node_red_contrib_mavlink.Param.{Param}
use node_red_contrib_mavlink.Param.Listing.{index_le}

abbrev pub InOrder : {X : Type 0} → ℕ → List (Param X) → Type 0
InOrder i [] = Unit
InOrder i (p ∷ ps) = (p.index ≡ i) × InOrder (suc i) ps

abbrev pub at : {X : Type 0} → ℕ → Param X → Bool
at i p = p.index == i

module _ {X : Type 0} where
  abbrev pub From : ℕ → Param X → Type 0
  From b p = b ≤ p.index

  abbrev pub Below : ℕ → Param X → Type 0
  Below n p = p.index < n

  -- No index stands twice.
  abbrev pub Differ : List (Param X) → Type 0
  Differ ps = (i : ℕ) → tally (at i) ps ≤ 1

  Differ-tail : (p : Param X) (ps : List (Param X)) → Differ (p ∷ ps) → Differ ps
  Differ-tail p ps h i = ground (arith, h i)

  From-next :
      (b : ℕ) (ps : List (Param X)) → All (From b) ps → tally (at b) ps ≡ 0 → All (From (suc b)) ps
  From-next b [] h k = tt
  From-next b (p ∷ ps) h k = (ground (arith, h.0), From-next b ps h.1 (ground arith))

  From-after :
      (b : ℕ) (p : Param X) (ps : List (Param X))
      → b < p.index
      → All (λ q. index_le p q ≡ true) ps
      → All (From (suc b)) ps
  From-after b p ps h k = All-map _ _ (λ q e. ground (arith, e)) ps k

  -- Behind the least parameter the others start at the next index.
  From-tail :
      (b : ℕ) (p : Param X) (ps : List (Param X))
      → b ≤ p.index
      → IsSorted index_le (p ∷ ps)
      → Differ (p ∷ ps)
      → All (From (suc b)) ps
  From-tail b p ps h s k = elim (Bool-cases (p.index == b)) [
    | inl e ↦ From-next b ps (All-map _ _ (λ q f. ground (arith, f)) ps s.0) (ground (arith, k b))
    | inr e ↦ From-after b p ps (ground arith) s.0
  ]

  pub few-Below :
      (n b : ℕ) (ps : List (Param X))
      → IsSorted index_le ps
      → Differ ps
      → All (From b) ps
      → All (Below n) ps
      → b ≤ n
      → length ps + b ≤ n
  few-Below n b [] s k f l h = omega (arith, h)
  few-Below n b (p ∷ ps) s k f l h = omega (
    arith,
    few-Below n (suc b) ps s.1 (Differ-tail p ps k) (From-tail b p ps f.0 s k) l.1
        (omega (arith, f.0, l.0)),
  )

  -- The least index is taken, for otherwise there are too few left.
  least :
      (n a : ℕ) (p : Param X) (ps : List (Param X))
      → IsSorted index_le (p ∷ ps)
      → Differ (p ∷ ps)
      → All (From a) (p ∷ ps)
      → All (Below n) (p ∷ ps)
      → n ≤ length (p ∷ ps) + a
      → p.index ≡ a
  least n a p ps s k f l h = elim (Bool-cases (ltb a p.index)) [
    | inl e ↦ omega (
      arith,
      few-Below n (suc a) (p ∷ ps) s k (ground arith, From-after a p ps (ground arith) s.0) l
          (ground (arith, l.0)),
      h,
    )
    | inr e ↦ ground (arith, f.0)
  ]

  pub full-InOrder :
      (n a : ℕ) (ps : List (Param X))
      → IsSorted index_le ps
      → Differ ps
      → All (From a) ps
      → All (Below n) ps
      → n ≤ length ps + a
      → InOrder a ps
  full-InOrder n a [] s k f l h = tt
  full-InOrder n a (p ∷ ps) s k f l h = (
    least n a p ps s k f l h,
    full-InOrder n (suc a) ps s.1 (Differ-tail p ps k) (From-tail a p ps f.0 s k) l.1
        (omega (arith, h)),
  )

  pub all-From : (ps : List (Param X)) → All (From 0) ps
  all-From [] = tt
  all-From (p ∷ ps) = (omega arith, all-From ps)
