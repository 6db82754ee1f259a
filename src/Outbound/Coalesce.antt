-- ===== src/Outbound/Coalesce.antt =====
-- Drop-superseded coalescing of lib/runtime/outbound-queue.js.
use node_red_contrib_mavlink.Common.{
  ℕ, suc, ◌+◌, ◌≤◌, ◌<◌, ◌≡◌, refl, ap, ◌∙◌, tally-le-length, subst, Bool, true, Option, none, some,
  List, [], ◌∷◌, ◌++◌, arith, inl, inr, ltb, leb, if◌then◌else◌, if_cases, Bool-cases, Option-cases,
  length, tally, tally-append, All, Eq, nat_eq,
}
use node_red_contrib_mavlink.StableSort.{tally-sort}
use node_red_contrib_mavlink.Outbound.{
  resolved, Item, Outbound, Write, AgeOption, not_after, sort_queue, shift_item, drain_next, drain,
  written, remove_matching, oldest, drop_coalesced_matching, drop_coalesced, drop_superseded,
  direct_written, take_direct, clear, key_is, or_now, push_item, enqueue, new, Event, enqueues,
  writer_ends, direct_ends, drops, drops_matching, clears, step, run,
}
use node_red_contrib_mavlink.Outbound.Ledger.{
  paid, is_id, paid-settle_promises, length-remove_matching, tally-remove_matching,
}
use node_red_contrib_mavlink.Outbound.Invariant.{Inv}

module _ {K P : Type 0} where
  -- A loop round takes at most one item away and adds none.
  tally-drain_next :
      (f : Item K P → Bool) (now : ℕ) (s : Outbound K P)
      → tally f (drain_next now s).queue ≤ tally f s.queue
  unfolding drain_next
  tally-drain_next f now s =
      let same : tally f (sort_queue s.age_promotion_ms now s.queue) ≡ tally f s.queue =
        unfold sort_queue in tally-sort (not_after s.age_promotion_ms now) f s.queue in
      on_sorted (sort_queue s.age_promotion_ms now s.queue) (omega arith)
    where
      on_sorted :
          (q : List (Item K P))
          → tally f q ≤ tally f s.queue
          → tally f (shift_item q s).queue ≤ tally f s.queue
      on_sorted [] h = omega arith
      on_sorted (x ∷ q) h = omega arith

  tally-drain :
      (f : Item K P → Bool) (now : ℕ) (s : Outbound K P)
      → tally f (drain now s).queue ≤ tally f s.queue
  unfolding drain
  tally-drain f now s = ground (arith, tally-drain_next f now s)

  -- Whatever ends a write, the queue only loses the next item.
  tally-written :
      (f : Item K P → Bool) (w : Write) (now : ℕ) (s : Outbound K P)
      → tally f (written w now s).queue ≤ tally f s.queue
  unfolding written
  tally-written f w now s = elim (Option-cases s.in_flight) [
    | inl e ↦ rw (e, written) (omega arith)
    | inr (x, e) ↦ rw (e, written) (tally-drain_next f now _)
  ]

  -- Nothing that stays matches, and what goes matches.
  tally-kept :
      (p : Option K → Bool) (q : List (Item K P))
      → tally (λ x. p x.coalesce_key) (remove_matching p q).1 ≡ 0
  unfolding remove_matching
  tally-kept p [] = refl
  tally-kept p (x ∷ xs) = elim (Bool-cases (p x.coalesce_key)) [
    | inl e ↦ rw e (tally-kept p xs)
    | inr e ↦ rw (e, e) (omega (arith, tally-kept p xs))
  ]

  oldest-le :
      (at : ℕ) (xs : List (Item K P)) (now : ℕ)
      → (or_now (oldest (some at) xs) now ≤ at)
        × All (λ x. or_now (oldest (some at) xs) now ≤ x.enqueued_at) xs
  unfolding oldest
  oldest-le at [] now = (omega arith, tt)
  oldest-le at (x ∷ xs) now =
      let t : ℕ = if ltb x.enqueued_at at then x.enqueued_at else at in
      let ih = oldest-le t xs now in (ground (arith, ih.0), (ground (arith, ih.0), ih.1))

  tally-removed :
      (p : Option K → Bool) (f : Item K P → Bool) (q : List (Item K P))
      → tally f (remove_matching p q).1 ≤ tally f q
  tally-removed p f q = omega (arith, tally-remove_matching p f q)

  tally-direct_written :
      (f : Item K P → Bool) (i : ℕ) (w : Write) (s : Outbound K P)
      → tally f (direct_written i w s).queue ≡ tally f s.queue
  unfolding direct_written
  tally-direct_written f i w s = elim (Option-cases (take_direct i s.direct).0) [
    | inl e ↦ rw (e, direct_written)
    | inr (x, e) ↦ rw (e, direct_written)
  ]

module _ {K P : Type 0} ⦃e : Eq K⦄ where
  abbrev pub carries : K → Item K P → Bool
  carries k x = key_is k x.coalesce_key

  push_item-carries :
      (k : K) (payload : P) (priority : ℕ) (key : Option K) (on_write : Bool) (now : ℕ)
      (at : Option ℕ) (s : Outbound K P)
      → tally (carries k) (push_item payload priority key on_write now at s).queue
        ≤ tally (carries k) s.queue + (if key_is k key then 1 else 0)
  unfolding push_item
  push_item-carries k payload priority key on_write now at s =
      if_cases {A = Outbound K P}
        (λ t.
          tally (carries k) t.queue ≤ tally (carries k) s.queue + (if key_is k key then 1 else 0))
        (leb s.max_length (length s.queue)) (λ full. omega arith)
        (λ room.
          ground (
            arith,
            tally-drain (carries k) now pushed,
            tally-append (carries k) s.queue (item ∷ []),
          ))
    where
      item : Item K P
      item = record {
        id = s.next_id;
        payload = payload;
        priority = priority;
        coalesce_key = key;
        enqueued_at = or_now at now;
        on_write = on_write;
      }

      pushed : Outbound K P
      pushed = record s { queue = s.queue ++ (item ∷ []); next_id = suc s.next_id }

  enqueue-carries :
      (k : K) (payload : P) (priority : ℕ) (key : Option K) (on_write : Bool) (now : ℕ)
      (s : Outbound K P)
      → tally (carries k) s.queue ≤ 1
      → tally (carries k) (enqueue payload priority key on_write now s).queue ≤ 1
  unfolding enqueue drop_superseded
  enqueue-carries k payload priority none on_write now s h =
      if_cases {A = Outbound K P} (λ t. tally (carries k) t.queue ≤ 1) s.enabled
        (λ on. omega (arith, push_item-carries k payload priority none on_write now none s))
        (λ off. h)
  enqueue-carries k payload priority (some j) on_write now s h =
      if_cases {A = Outbound K P} (λ t. tally (carries k) t.queue ≤ 1) s.enabled
        (λ on. ground (
          arith,
          push_item-carries k payload priority (some j) on_write now (drop_superseded j s).0
              (drop_superseded j s).1,
          none_left,
          tally-removed (key_is j) (carries k) s.queue,
        ))
        (λ off. h)
    where
      superseded : List (Item K P)
      superseded = (remove_matching (key_is j) s.queue).1

      none_left : key_is k (some j) ≡ true → tally (carries k) superseded ≡ 0
      none_left same =
          subst (λ i. tally (carries i) superseded ≡ 0) ((e.beq_iff j k).0 same)
            (tally-kept (key_is j) s.queue)

  step-carries :
      (k : K) (s : Outbound K P) (ev : Event K P)
      → tally (carries k) s.queue ≤ 1
      → tally (carries k) (step s ev).queue ≤ 1
  unfolding step clear drop_coalesced drop_coalesced_matching
  step-carries k s (enqueues payload priority key on_write now) h =
      enqueue-carries k payload priority key on_write now s h
  step-carries k s (writer_ends w now) h = omega (arith, tally-written (carries k) w now s)
  step-carries k s (direct_ends i w) h = omega (arith, tally-direct_written (carries k) i w s)
  step-carries k s (drops j) h = omega (arith, tally-removed (key_is j) (carries k) s.queue)
  step-carries k s (drops_matching p) h = omega (arith, tally-removed p (carries k) s.queue)
  step-carries k s clears h = omega arith

  run-carries :
      (k : K) (s : Outbound K P) (evs : List (Event K P))
      → tally (carries k) s.queue ≤ 1
      → tally (carries k) (run s evs).queue ≤ 1
  unfolding run
  run-carries k s [] h = h
  run-carries k s (ev ∷ evs) h = run-carries k (step s ev) evs (step-carries k s ev h)

  -- Whatever happens, at most one queued item carries a given coalesce key: the periodic heartbeat
  -- of one identity cannot pile up behind a stalled transport.
  pub one_queued_per_key :
      (enabled : Bool) (max : Option ℕ) (age : AgeOption) (evs : List (Event K P)) (k : K)
      → tally (carries k) (run (new {K = K} {P = P} enabled max age) evs).queue ≤ 1
  unfolding new
  one_queued_per_key enabled max age evs k = run-carries k _ evs (omega arith)

  settled-drain : (now : ℕ) (s : Outbound K P) → (drain now s).settled ≡ s.settled
  unfolding drain drain_next
  settled-drain now s =
      if_cases {A = Outbound K P} (λ t. t.settled ≡ s.settled) s.draining (λ on. refl)
        (λ off. shifted (sort_queue s.age_promotion_ms now s.queue))
    where
      shifted : (q : List (Item K P)) → (shift_item q s).settled ≡ s.settled
      shifted [] = refl
      shifted (x ∷ q) = refl

  oldest-removed :
      (xs : List (Item K P)) (now : ℕ) → All (λ x. or_now (oldest none xs) now ≤ x.enqueued_at) xs
  unfolding oldest
  oldest-removed [] now = tt
  oldest-removed (x ∷ xs) now = oldest-le x.enqueued_at xs now

  push_item-paid :
      (i : ℕ) (payload : P) (priority : ℕ) (key : Option K) (on_write : Bool) (now : ℕ)
      (at : Option ℕ) (s : Outbound K P)
      → length s.queue < s.max_length
      → paid i (push_item payload priority key on_write now at s).settled ≡ paid i s.settled
  unfolding push_item
  push_item-paid i payload priority key on_write now at s room =
      if_cases {A = Outbound K P} (λ t. paid i t.settled ≡ paid i s.settled)
        (leb s.max_length (length s.queue)) (λ full. absurd (ground arith))
        (λ free. ap (paid i) (settled-drain now _))

  superseded-paid :
      (i : ℕ) (k : K) (s : Outbound K P)
      → Inv s
      → s.next_id ≤ i
      → paid i (drop_superseded k s).1.settled ≡ 0
  unfolding drop_superseded
  superseded-paid i k s v h = ground (
    arith,
    v.books.balanced i,
    tally-remove_matching (key_is k) (is_id i) s.queue,
    paid-settle_promises (remove_matching (key_is k) s.queue).0 i resolved s.settled,
  )

  superseded-room :
      (k : K) (s : Outbound K P)
      → Inv s
      → 0 < tally (carries k) s.queue
      → length (drop_superseded k s).1.queue < s.max_length
  unfolding drop_superseded
  superseded-room k s v h = omega (
    arith,
    v.books.bounded,
    length-remove_matching (key_is k) s.queue,
    tally-remove_matching (key_is k) (carries k) s.queue,
    tally-kept (key_is k) s.queue,
    tally-le-length (carries k) (remove_matching (key_is k) s.queue).0,
  )

  -- A coalesced send of an enabled queue that supersedes something is never refused, even by a full
  -- queue: its promise stays open; and the enqueue time that it takes over is at most that of every
  -- item that it supersedes, so the wait of the key is not lost.
  pub resend_keeps_slot_and_age :
      (s : Outbound K P) (k : K) (payload : P) (priority : ℕ) (on_write : Bool) (now : ℕ)
      → Inv s
      → s.enabled ≡ true
      → 0 < tally (carries k) s.queue
      → (paid s.next_id (enqueue payload priority (some k) on_write now s).settled ≡ 0)
        × All
            (λ x. or_now (drop_superseded k s).0 now ≤ x.enqueued_at)
            (remove_matching (key_is k) s.queue).0
  unfolding enqueue drop_superseded
  resend_keeps_slot_and_age s k payload priority on_write now v on some_left = (
    if_cases {A = Outbound K P} (λ t. paid s.next_id t.settled ≡ 0) s.enabled
        (λ _.
          push_item-paid s.next_id payload priority (some k) on_write now (drop_superseded k s).0
            (drop_superseded k s).1 (superseded-room k s v some_left)
          ∙ superseded-paid s.next_id k s v (omega arith))
        (λ off. cc),
    oldest-removed (remove_matching (key_is k) s.queue).0 now,
  )
