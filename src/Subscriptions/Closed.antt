-- ===== src/Subscriptions/Closed.antt =====
-- What the id filters of lib/runtime/subscription-registry.js let through.
use node_red_contrib_mavlink.Common.{
  ℕ, ◌≡◌, refl, sym, subst, ap, ◌∙◌, Bool, true, false, ◌||◌, Option, none, some, List, [], ◌∷◌,
  arith, if_cases, includes, ◌==◌,
}
use mathlib.Core.Option.{some-injective}
use node_red_contrib_mavlink.Routing.{id_accepted}
use node_red_contrib_mavlink.Subscriptions.{
  IdEntry, not_integer, integer, IdList, absent, not_array, array, id_of, cons_id, ids_of,
  strict_id_array, FilterInput, Filter, make_filter, normalize_filter, Message, filter_matches,
}

-- The entries that name an id.
abbrev pub supplied : List IdEntry → ℕ → Bool
supplied [] n = false
supplied (not_integer ∷ xs) n = supplied xs n
supplied (integer k ∷ xs) n = k == n || supplied xs n

-- Of a list that was supplied and is not empty, only the ids that it names.
abbrev pub Allows : IdList → ℕ → Type 0
Allows (array (x ∷ xs)) n = supplied (x ∷ xs) n ≡ true
Allows (array []) n = Unit
Allows absent n = Unit
Allows not_array n = ⊥

cons_id-some :
    (a : Option ℕ) (b : Option (List ℕ)) (ns : List ℕ)
    → cons_id a b ≡ some ns
    → (n : ℕ) × (q : List ℕ) × (a ≡ some n) × (b ≡ some q) × (n ∷ q ≡ ns)
cons_id-some (some n) (some q) ns h = (n, q, refl, refl, some-injective (n ∷ q) ns h)
cons_id-some none b ns h = ground arith
cons_id-some (some n) none ns h = ground arith

id_of-same : (c a : ℕ) → id_of (integer c) ≡ some a → c ≡ a
id_of-same c a h = ground (arith, some-injective c a)

includes-supplied :
    (xs : List IdEntry) (ns : List ℕ) (n : ℕ)
    → ids_of xs ≡ some ns
    → includes ns n ≡ true
    → supplied xs n ≡ true
includes-supplied [] ns n h k = subst (λ z. includes z n ≡ true) (sym (some-injective [] ns h)) k
includes-supplied (not_integer ∷ xs) ns n h k =
    let (a, q, ha, hq, e) = cons_id-some none (ids_of xs) ns h in ground (arith, ha)
includes-supplied (integer c ∷ xs) ns n h k =
    let (a, q, ha, hq, e) = cons_id-some (id_of (integer c)) (ids_of xs) ns h in
    let hit = subst (λ z. includes z n ≡ true) (sym e) k in
    ground (arith, hit, id_of-same c a ha, includes-supplied xs q n hq)

strict_id_array-Allows :
    (l : IdList) (ns : List ℕ) (n : ℕ)
    → strict_id_array l ≡ some ns
    → id_accepted n ns ≡ true
    → Allows l n
unfolding strict_id_array id_accepted
strict_id_array-Allows absent ns n h k = tt
strict_id_array-Allows not_array ns n h k = ground arith
strict_id_array-Allows (array []) ns n h k = tt
strict_id_array-Allows (array (x ∷ xs)) ns n h k =
    let (a, q, ha, hq, e) = cons_id-some (id_of x) (ids_of xs) ns h in
    includes-supplied (x ∷ xs) (a ∷ q) n (h ∙ sym (ap some e))
      (subst (λ z. id_accepted n z ≡ true) (sym e) k)

make_filter-some :
    (f : FilterInput) (a b : Option (List ℕ)) (g : Filter)
    → make_filter f a b ≡ some g
    → (a ≡ some g.sysids) × (b ≡ some g.compids)
make_filter-some f (some s) (some c) g h = (
  ap (λ (x : Filter). some x.sysids) (some-injective _ g h),
  ap (λ (x : Filter). some x.compids) (some-injective _ g h),
)
make_filter-some f none b g h = ground arith
make_filter-some f (some s) none g h = ground arith

normalize_filter-some :
    (f : FilterInput) (g : Filter)
    → normalize_filter f ≡ some g
    → (strict_id_array f.sysids ≡ some g.sysids) × (strict_id_array f.compids ≡ some g.compids)
unfolding normalize_filter
normalize_filter-some f g h =
    if_cases {A = Option Filter}
      (λ o.
        o ≡ some g
        → (strict_id_array f.sysids ≡ some g.sysids) × (strict_id_array f.compids ≡ some g.compids))
      f.has_singular (λ on k. ground arith) (λ off k. make_filter-some f _ _ g k) h

-- A filter that is accepted with a list of ids that is not empty delivers only messages whose
-- system, and component, one of the supplied entries names: no malformed entry widens it.
pub filter_matches-Allows :
    (f : FilterInput) (g : Filter) (m : Message)
    → normalize_filter f ≡ some g
    → filter_matches g m ≡ true
    → Allows f.sysids m.sysid × Allows f.compids m.compid
unfolding filter_matches
filter_matches-Allows f g m h k = (
  strict_id_array-Allows f.sysids g.sysids m.sysid (normalize_filter-some f g h).0 (ground arith),
  strict_id_array-Allows f.compids g.compids m.compid (normalize_filter-some f g h).1
      (ground arith),
)
