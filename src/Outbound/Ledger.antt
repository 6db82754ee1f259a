-- ===== src/Outbound/Ledger.antt =====
-- Who has been answered: the promises owed and settled of lib/runtime/outbound-queue.js, counted
-- for each number of a call.
use node_red_contrib_mavlink.Common.{
  ℕ, ◌+◌, ◌≤◌, ◌≡◌, refl, Bool, true, false, Option, none, some, List, [], ◌∷◌, arith, inl, inr,
  ◌==◌, ==_iff, if◌then◌else◌, length, tally, Bool-cases, nat_eq,
}
use node_red_contrib_mavlink.JsMap.{has}
use node_red_contrib_mavlink.JsMap.Laws.{Keyed}
use node_red_contrib_mavlink.StableSort.{tally-sort, length-sort}
use node_red_contrib_mavlink.Outbound.{
  Item, Outcome, Outbound, settle_promise, settle_promises, sort_queue, remove_matching,
  take_direct, not_after,
}

-- One for a settled promise, none for another.
abbrev pub paid : ℕ → List (ℕ × Outcome) → ℕ
paid i log = if has log i then 1 else 0

pub paid-settle_promise :
    (i j : ℕ) (o : Outcome) (log : List (ℕ × Outcome))
    → paid j (settle_promise i o log) ≡ (if i == j then 1 else paid j log)
unfolding settle_promise has
paid-settle_promise i j o log = elim (Bool-cases (has log i)) [
  | inl e ↦ ground (arith, ==_iff i j)
  | inr e ↦ ground (arith, ==_iff i j)
]

pub settle_promise-Keyed :
    (i : ℕ) (o : Outcome) (log : List (ℕ × Outcome)) → Keyed log → Keyed (settle_promise i o log)
unfolding settle_promise
settle_promise-Keyed i o log h = ground arith

module _ {K P : Type 0} where
  abbrev pub is_id : ℕ → Item K P → Bool
  is_id i x = x.id == i

  abbrev pub in_flight_owed : Bool → ℕ → Option (Item K P) → ℕ
  in_flight_owed cleared i none = 0
  in_flight_owed true i (some x) = 0
  in_flight_owed false i (some x) = if x.id == i then 1 else 0

  -- The promises of call `i` that are still open.
  abbrev pub owed : ℕ → Outbound K P → ℕ
  owed i s =
      tally (is_id i) s.queue + in_flight_owed s.cleared i s.in_flight + tally (is_id i) s.direct

  -- Settling items that are owed once each moves them from one side to the other.
  pub paid-settle_promises :
      (xs : List (Item K P)) (i : ℕ) (o : Outcome) (log : List (ℕ × Outcome))
      → tally (is_id i) xs + paid i log ≤ 1
      → paid i (settle_promises xs o log) ≡ tally (is_id i) xs + paid i log
  unfolding settle_promises
  paid-settle_promises [] i o log h = omega arith
  paid-settle_promises (x ∷ xs) i o log h = ground (
    arith,
    paid-settle_promise x.id i o log,
    paid-settle_promises xs i o (settle_promise x.id o log),
  )

  pub settle_promises-Keyed :
      (xs : List (Item K P)) (o : Outcome) (log : List (ℕ × Outcome))
      → Keyed log
      → Keyed (settle_promises xs o log)
  unfolding settle_promises
  settle_promises-Keyed [] o log h = h
  settle_promises-Keyed (x ∷ xs) o log h =
      settle_promises-Keyed xs o _ (settle_promise-Keyed x.id o log h)

  pub paid-mono_settle_promises :
      (xs : List (Item K P)) (i : ℕ) (o : Outcome) (log : List (ℕ × Outcome))
      → paid i log ≤ paid i (settle_promises xs o log)
  unfolding settle_promises
  paid-mono_settle_promises [] i o log = omega arith
  paid-mono_settle_promises (x ∷ xs) i o log = ground (
    arith,
    paid-settle_promise x.id i o log,
    paid-mono_settle_promises xs i o (settle_promise x.id o log),
  )

  pub tally-sort_queue :
      (age : Option ℕ) (now : ℕ) (q : List (Item K P)) (i : ℕ)
      → tally (is_id i) (sort_queue age now q) ≡ tally (is_id i) q
  unfolding sort_queue
  tally-sort_queue age now q i = tally-sort (not_after age now) (is_id i) q

  pub length-sort_queue :
      (age : Option ℕ) (now : ℕ) (q : List (Item K P)) → length (sort_queue age now q) ≡ length q
  unfolding sort_queue
  length-sort_queue age now q = length-sort (not_after age now) q

  -- What is removed and what stays make up the queue.
  pub tally-remove_matching :
      (p : Option K → Bool) (f : Item K P → Bool) (q : List (Item K P))
      → tally f (remove_matching p q).0 + tally f (remove_matching p q).1 ≡ tally f q
  unfolding remove_matching
  tally-remove_matching p f [] = refl
  tally-remove_matching p f (x ∷ xs) = elim (Bool-cases (p x.coalesce_key)) [
    | inl e ↦ rw e (omega (arith, tally-remove_matching p f xs))
    | inr e ↦ rw e (omega (arith, tally-remove_matching p f xs))
  ]

  pub length-remove_matching :
      (p : Option K → Bool) (q : List (Item K P))
      → length (remove_matching p q).0 + length (remove_matching p q).1 ≡ length q
  unfolding remove_matching
  length-remove_matching p [] = refl
  length-remove_matching p (x ∷ xs) = elim (Bool-cases (p x.coalesce_key)) [
    | inl e ↦ rw e (omega (arith, length-remove_matching p xs))
    | inr e ↦ rw e (omega (arith, length-remove_matching p xs))
  ]

  -- A pass-through write that is found is taken out once.
  abbrev pub found_owed : ℕ → Option (Item K P) → ℕ
  found_owed i none = 0
  found_owed i (some x) = if x.id == i then 1 else 0

  pub tally-take_direct :
      (k i : ℕ) (q : List (Item K P))
      → found_owed i (take_direct k q).0 + tally (is_id i) (take_direct k q).1 ≡ tally (is_id i) q
  unfolding take_direct
  tally-take_direct k i [] = refl
  tally-take_direct k i (x ∷ xs) = elim (Bool-cases (x.id == k)) [
    | inl e ↦ rw e (omega arith)
    | inr e ↦ rw e (omega (arith, tally-take_direct k i xs))
  ]

  pub take_direct-id :
      (k : ℕ) (q : List (Item K P)) (x : Item K P) → (take_direct k q).0 ≡ some x → x.id ≡ k
  unfolding take_direct
  take_direct-id k [] x h = ground arith
  take_direct-id k (y ∷ ys) x h = ground (arith, take_direct-id k ys x)
