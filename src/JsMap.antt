-- ===== src/JsMap.antt =====
-- The built-in Map as far as the program uses it: an association list in insertion order, whose
-- `set` keeps the place of an old key and puts a new one at the end.
pub mod Laws
use node_red_contrib_mavlink.Common.{
  ℕ, Bool, true, false, Option, none, some, List, [], ◌∷◌, Eq, if◌then◌else◌, length,
}

module _ {ℓ κ} {K : Type ℓ} {V : Type κ} ⦃e : Eq K⦄ where
  unfoldable pub get : List (K × V) → K → Option V
  get [] k = none
  get ((j, v) ∷ m) k = if e.beq j k then some v else get m k

  unfoldable pub has : List (K × V) → K → Bool
  has [] k = false
  has ((j, v) ∷ m) k = if e.beq j k then true else has m k

  unfoldable pub set : List (K × V) → K → V → List (K × V)
  set [] k v = (k, v) ∷ []
  set ((j, w) ∷ m) k v = if e.beq j k then (j, v) ∷ m else (j, w) ∷ set m k v

  unfoldable pub delete : List (K × V) → K → List (K × V)
  delete [] k = []
  delete ((j, v) ∷ m) k = if e.beq j k then m else (j, v) ∷ delete m k

-- `map.size`
abbrev pub size {ℓ κ} : {K : Type ℓ} {V : Type κ} → List (K × V) → ℕ
size m = length m
