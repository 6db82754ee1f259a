-- ===== src/Subscriptions/Bounded.antt =====
-- How much of the wire lib/runtime/subscription-registry.js keeps.
use node_red_contrib_mavlink.Common.{
  ℕ, suc, ◌≤◌, ◌<◌, ◌≡◌, true, not, ◌&&◌, Option, none, some, List, [], ◌∷◌, arith, All, Eq, nat_eq,
  triple_eq, length, if_cases, leb, ltb,
}
use node_red_contrib_mavlink.JsMap.{has, set, size, delete}
use node_red_contrib_mavlink.JsMap.Laws.{length-set, beq_refl}
use node_red_contrib_mavlink.Subscriptions.{
  max_tracked_keys, drop_oldest, bounded_set, FilterInput, Filter, Message, StreamKey, Subscription,
  Registry, new_registry, normalize_filter, add_filter, subscribe_filter, unsubscribe_id, key_of,
  track, is_due, dispatch_all, dispatch,
}

module _ {K V : Type 0} ⦃e : Eq K⦄ where
  length-drop_oldest : (m : List (K × V)) → 0 < length m → suc (length (drop_oldest m)) ≡ length m
  unfolding delete
  length-drop_oldest [] h = ground arith
  length-drop_oldest ((k, v) ∷ m) h = ground (arith, beq_refl k)

  -- A tracking map never outgrows its bound.
  size-bounded_set :
      (m : List (K × V)) (k : K) (v : V)
      → size m ≤ max_tracked_keys
      → size (bounded_set m k v) ≤ max_tracked_keys
  unfolding bounded_set
  size-bounded_set m k v h =
      if_cases {A = List (K × V)} (λ x. size (set x k v) ≤ max_tracked_keys)
        (not (has m k) && leb max_tracked_keys (size m))
        (λ full. ground (arith, length-set (drop_oldest m) k v, length-drop_oldest m))
        (λ room. ground (arith, length-set m k v))

  set-All :
      (P : K × V → Type 0) (m : List (K × V)) (k : K) (v : V)
      → P (k, v)
      → ((j : K) → e.beq j k ≡ true → P (j, v))
      → All P m
      → All P (set m k v)
  unfolding set
  set-All P [] k v p q h = (p, tt)
  set-All P ((j, w) ∷ m) k v p q h =
      if_cases (All P) (e.beq j k) (λ same. (q j same, h.1))
        (λ other. (h.0, set-All P m k v p q h.1))

  delete-All : (P : K × V → Type 0) (m : List (K × V)) (k : K) → All P m → All P (delete m k)
  unfolding delete
  delete-All P [] k h = tt
  delete-All P ((j, w) ∷ m) k h =
      if_cases (All P) (e.beq j k) (λ same. h.1) (λ other. (h.0, delete-All P m k h.1))

-- The two tracking maps of a subscription.
abbrev pub IsBounded : ℕ × Subscription → Type 0
IsBounded (i, s) =
    (size s.last_delivered ≤ max_tracked_keys) × (size s.last_signature ≤ max_tracked_keys)

track-IsBounded :
    (now : ℕ) (m : Message) (i : ℕ) (s : Subscription)
    → IsBounded (i, s)
    → IsBounded (i, track now m s)
track-IsBounded now m i s h = (
  if_cases (λ (x : List (StreamKey × ℕ)). size x ≤ max_tracked_keys) (ltb 0 s.filter.rate_limit_hz)
      (λ on. size-bounded_set s.last_delivered (key_of m) now h.0) (λ off. h.0),
  if_cases (λ (x : List (StreamKey × ℕ)). size x ≤ max_tracked_keys) s.filter.changed_only
      (λ on. size-bounded_set s.last_signature (key_of m) m.signature h.1) (λ off. h.1),
)

dispatch_all-IsBounded :
    (now : ℕ) (m : Message) (ss : List (ℕ × Subscription))
    → All IsBounded ss
    → All IsBounded (dispatch_all now m ss).1
unfolding dispatch_all
dispatch_all-IsBounded now m [] h = tt
dispatch_all-IsBounded now m ((i, s) ∷ ss) h =
    if_cases {A = List ℕ × List (ℕ × Subscription)} (λ r. All IsBounded r.1) (is_due now m s)
      (λ due. (track-IsBounded now m i s h.0, dispatch_all-IsBounded now m ss h.1))
      (λ skip. (h.0, dispatch_all-IsBounded now m ss h.1))

-- The calls of a registry.
pub data Call : Type 0 where
  subscribes : FilterInput → Call
  unsubscribes : ℕ → Call
  dispatches : ℕ → Message → Call

abbrev pub apply : Call → Registry → Registry
apply (subscribes f) r = (subscribe_filter f r).1
apply (unsubscribes i) r = (unsubscribe_id i r).1
apply (dispatches now m) r = (dispatch now m r).1

abbrev pub apply_all : List Call → Registry → Registry
apply_all [] r = r
apply_all (c ∷ cs) r = apply_all cs (apply c r)

add_filter-IsBounded :
    (o : Option Filter) (r : Registry)
    → All IsBounded r.subs
    → All IsBounded (add_filter o r).1.subs
add_filter-IsBounded none r h = h
add_filter-IsBounded (some f) r h =
    set-All IsBounded r.subs r.next_id
      (record { id = r.next_id; filter = f; last_delivered = []; last_signature = [] })
      (omega arith, omega arith) (λ j _. (omega arith, omega arith)) h

apply-IsBounded : (c : Call) (r : Registry) → All IsBounded r.subs → All IsBounded (apply c r).subs
unfolding subscribe_filter unsubscribe_id dispatch
apply-IsBounded (subscribes f) r h = add_filter-IsBounded (normalize_filter f) r h
apply-IsBounded (unsubscribes i) r h = delete-All IsBounded r.subs i h
apply-IsBounded (dispatches now m) r h = dispatch_all-IsBounded now m r.subs h

apply_all-IsBounded :
    (cs : List Call) (r : Registry) → All IsBounded r.subs → All IsBounded (apply_all cs r).subs
apply_all-IsBounded [] r h = h
apply_all-IsBounded (c ∷ cs) r h = apply_all-IsBounded cs (apply c r) (apply-IsBounded c r h)

-- After any subscriptions, cancellations and messages, whatever systems and components the messages
-- claim to come from, every subscription tracks at most 4096 streams in each of its two maps.
pub registry-IsBounded : (cs : List Call) → All IsBounded (apply_all cs new_registry).subs
registry-IsBounded cs = apply_all-IsBounded cs new_registry tt
