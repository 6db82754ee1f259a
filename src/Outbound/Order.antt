-- ===== src/Outbound/Order.antt =====
-- Which item lib/runtime/outbound-queue.js sends next: the age promotion against the emergency band.
use node_red_contrib_mavlink.Common.{
  ℕ, ◌-◌, ◌*◌, ◌≤◌, ◌<◌, ◌≡◌, subst, true, false, Option, some, List, [], ◌∷◌, arith, ◌⊎◌, All,
  All-map,
}
use native.Mathlib.Nat.{le-div_iff_mul-le}
use mathlib.Core.Option.{some-injective}
use node_red_contrib_mavlink.StableSort.{sort-IsSorted, IsSorted}
use node_red_contrib_mavlink.Outbound.{
  Item, Outbound, effective_priority, not_after, sort_queue, shift_item, drain_next,
}

module _ {K P : Type 0} (age : Option ℕ) (now : ℕ) where
  not_after_total : (x y : Item K P) → not_after age now x y ≡ false → not_after age now y x ≡ true
  unfolding not_after
  not_after_total x y h = ground arith

  not_after_trans :
      (x y z : Item K P)
      → not_after age now x y ≡ true
      → not_after age now y z ≡ true
      → not_after age now x z ≡ true
  unfolding not_after
  not_after_trans x y z h k = ground arith

  -- An emergency keeps its band, and nothing else is promoted into it.
  pub effective_priority_band :
      (x : Item K P)
      → (x.priority ≡ 0 → effective_priority age x now ≡ 0)
        × (0 < x.priority → 0 < effective_priority age x now)
        × (0 < x.priority → effective_priority age x now ≤ x.priority)
  unfolding effective_priority
  effective_priority_band x = (λ h. ground arith, λ h. ground arith, λ h. ground arith)

  sort_queue-IsSorted : (q : List (Item K P)) → IsSorted (not_after age now) (sort_queue age now q)
  unfolding sort_queue
  sort_queue-IsSorted q = sort-IsSorted (not_after age now) not_after_total not_after_trans q

module _ {K P : Type 0} where
  shift_item-first :
      (age : Option ℕ) (now : ℕ) (q : List (Item K P)) (s : Outbound K P) (x : Item K P)
      → IsSorted (not_after age now) q
      → (shift_item q s).in_flight ≡ some x
      → All (λ y. not_after age now x y ≡ true) (shift_item q s).queue
  unfolding shift_item
  shift_item-first age now [] s x h e = tt
  shift_item-first age now (y ∷ q) s x h e =
      subst (λ z. All (λ w. not_after age now z w ≡ true) q) (some-injective y x e) h.0

  -- The item that the loop sends next comes, in the order of the age-adjusted bands and then of the
  -- enqueue times, no later than any item that it leaves in the queue.
  drain_next-first :
      (now : ℕ) (s : Outbound K P) (x : Item K P)
      → (drain_next now s).in_flight ≡ some x
      → All (λ y. not_after s.age_promotion_ms now x y ≡ true) (drain_next now s).queue
  unfolding drain_next
  drain_next-first now s x e =
      shift_item-first s.age_promotion_ms now _ s x
        (sort_queue-IsSorted s.age_promotion_ms now s.queue) e

  -- No emergency is left waiting while something else is sent: if the loop takes an item of a lower
  -- band, whatever the queue and the waiting times, nothing left behind has priority 0.
  pub emergency_first :
      (now : ℕ) (s : Outbound K P) (x : Item K P)
      → (drain_next now s).in_flight ≡ some x
      → 0 < x.priority
      → All (λ y. 0 < y.priority) (drain_next now s).queue
  unfolding not_after
  emergency_first now s x e p =
      All-map _ _
        (λ y h. ground (
          arith,
          effective_priority_band s.age_promotion_ms now x,
          effective_priority_band s.age_promotion_ms now y,
        ))
        _ (drain_next-first now s x e)

  aged_band :
      (a now : ℕ) (x : Item K P)
      → 0 < a
      → (x.priority - 1) * a ≤ now - x.enqueued_at
      → effective_priority (some a) x now ≤ 1
  unfolding effective_priority
  aged_band a now x pos w = ground (arith, (le-div_iff_mul-le pos).1 w)

  -- No starvation: when an item has waited `agePromotionMs` for each band that it stands below band
  -- 1, the loop sends before it only an emergency or an item that was enqueued no later.
  pub aged_first :
      (a now : ℕ) (s : Outbound K P) (x : Item K P)
      → s.age_promotion_ms ≡ some a
      → 0 < a
      → (drain_next now s).in_flight ≡ some x
      → All
          (λ y.
            (y.priority - 1) * a ≤ now - y.enqueued_at
            → (x.priority ≡ 0) ⊎ (x.enqueued_at ≤ y.enqueued_at))
          (drain_next now s).queue
  unfolding not_after
  aged_first a now s x ea pos e =
      All-map _ _
        (λ y h w. ground (
          arith,
          effective_priority_band s.age_promotion_ms now x,
          effective_priority_band s.age_promotion_ms now y,
          aged_band a now y pos w,
        ))
        _ (drain_next-first now s x e)
