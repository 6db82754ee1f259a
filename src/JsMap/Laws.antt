-- ===== src/JsMap/Laws.antt =====
-- The laws of the built-in Map, in the form that the components use.
use node_red_contrib_mavlink.Common.{
  suc, ◌≤◌, ◌≡◌, refl, subst, true, false, Option, none, some, List, [], ◌∷◌, Eq, arith,
  if◌then◌else◌, if_cases, length, All,
}
use mathlib.Core.Option.{some-injective}
use node_red_contrib_mavlink.JsMap.{get, has, set, delete}

pub beq_refl {ℓ} : {K : Type ℓ} ⦃e : Eq K⦄ (k : K) → e.beq k k ≡ true
beq_refl ⦃e⦄ k = (e.beq_iff k k).1 refl

module _ {ℓ κ} {K : Type ℓ} {V : Type κ} ⦃e : Eq K⦄ where
  pub get-set :
      (m : List (K × V)) (k j : K) (v : V)
      → get (set m k v) j ≡ (if e.beq k j then some v else get m j)
  unfolding get set
  get-set [] k j v = refl
  get-set ((i, w) ∷ m) k j v =
      ground (arith, e.beq_iff k j, e.beq_iff i k, e.beq_iff i j, get-set m k j v)

  pub get-set_self : (m : List (K × V)) (k : K) (v : V) → get (set m k v) k ≡ some v
  get-set_self m k v = rw (get-set m k k v, beq_refl k)

  pub has-get : (m : List (K × V)) (k : K) → has m k ≡ false → get m k ≡ none
  unfolding get has
  has-get [] k h = refl
  has-get ((i, w) ∷ m) k h = ground (arith, has-get m k)

  pub get-has : (m : List (K × V)) (k : K) → get m k ≡ none → has m k ≡ false
  unfolding get has
  get-has [] k h = refl
  get-has ((i, w) ∷ m) k h = ground (arith, get-has m k)

  -- Deleting another key changes nothing.
  pub get-delete_ne :
      (m : List (K × V)) (k j : K) → e.beq k j ≡ false → get (delete m k) j ≡ get m j
  unfolding get delete
  get-delete_ne [] k j h = refl
  get-delete_ne ((i, w) ∷ m) k j h =
      ground (arith, e.beq_iff k j, e.beq_iff i k, e.beq_iff i j, get-delete_ne m k j)

  -- No key stands twice.
  abbrev pub Keyed : List (K × V) → Type 0
  Keyed [] = Unit
  Keyed ((k, v) ∷ m) = (has m k ≡ false) × Keyed m

  pub has-set :
      (m : List (K × V)) (k j : K) (v : V)
      → has (set m k v) j ≡ (if e.beq k j then true else has m j)
  unfolding has set
  has-set [] k j v = refl
  has-set ((i, w) ∷ m) k j v =
      ground (arith, e.beq_iff k j, e.beq_iff i k, e.beq_iff i j, has-set m k j v)

  pub set-Keyed : (m : List (K × V)) (k : K) (v : V) → Keyed m → Keyed (set m k v)
  unfolding set has
  set-Keyed [] k v h = (refl, tt)
  set-Keyed ((i, w) ∷ m) k v h =
      ground (arith, e.beq_iff i k, e.beq_iff k i, has-set m k i v, set-Keyed m k v)

  pub has-delete_ne : (m : List (K × V)) (k j : K) → has m j ≡ false → has (delete m k) j ≡ false
  unfolding has delete
  has-delete_ne [] k j h = refl
  has-delete_ne ((i, w) ∷ m) k j h = ground (arith, has-delete_ne m k j)

  pub delete-Keyed : (m : List (K × V)) (k : K) → Keyed m → Keyed (delete m k)
  unfolding delete
  delete-Keyed [] k h = tt
  delete-Keyed ((i, w) ∷ m) k h = ground (arith, has-delete_ne m k i, delete-Keyed m k)

  pub has-delete : (m : List (K × V)) (k : K) → Keyed m → has (delete m k) k ≡ false
  unfolding has delete
  has-delete [] k h = refl
  has-delete ((i, w) ∷ m) k h = ground (arith, e.beq_iff i k, has-delete m k)

  -- A write to a known key keeps the size, a new one adds one entry.
  pub length-set :
      (m : List (K × V)) (k : K) (v : V)
      → length (set m k v) ≡ (if has m k then length m else suc (length m))
  unfolding has set
  length-set [] k v = refl
  length-set ((i, w) ∷ m) k v = ground (arith, length-set m k v)

  pub length-delete : (m : List (K × V)) (k : K) → length (delete m k) ≤ length m
  unfolding delete
  length-delete [] k = omega arith
  length-delete ((i, w) ∷ m) k = ground (arith, length-delete m k)

  pub has-delete_other :
      (m : List (K × V)) (k j : K) → e.beq k j ≡ false → has (delete m k) j ≡ has m j
  unfolding has delete
  has-delete_other [] k j h = refl
  has-delete_other ((i, w) ∷ m) k j h =
      ground (arith, e.beq_iff k j, e.beq_iff i k, e.beq_iff i j, has-delete_other m k j)

  -- A predicate on the entries, and what a write and a read do with it.
  pub set-All {μ} :
      (P : K × V → Type μ) (m : List (K × V)) (k : K) (v : V)
      → ((j : K) → e.beq j k ≡ true → P (j, v))
      → All P m
      → All P (set m k v)
  unfolding set
  set-All P [] k v h a = (h k (beq_refl k), tt)
  set-All P ((j, w) ∷ m) k v h a =
      if_cases (All P) (e.beq j k) (λ same. (h j same, a.1)) (λ new. (a.0, set-All P m k v h a.1))

  pub get-All {μ} :
      (P : K × V → Type μ) (m : List (K × V)) (k : K) (v : V)
      → get m k ≡ some v
      → All P m
      → (j : K) × (e.beq j k ≡ true) × P (j, v)
  unfolding get
  get-All P [] k v h a = ground (arith, h)
  get-All P ((j, w) ∷ m) k v h a =
      if_cases {A = Option V} (λ o. o ≡ some v → (i : K) × (e.beq i k ≡ true) × P (i, v))
        (e.beq j k) (λ same p. (j, same, subst (λ x. P (j, x)) (some-injective w v p) a.0))
        (λ new p. get-All P m k v p a.1) h
