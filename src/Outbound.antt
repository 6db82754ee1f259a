-- ===== src/Outbound.antt =====
-- lib/runtime/outbound-queue.js: the class OutboundQueue. A promise is the number of its call
-- (`id`); settling it and calling `onWrite` are entries of a log. The drain loop is cut at its one
-- `await`: `drain_next` runs up to the writer's call, `written` goes on when the writer is done.
-- Clock readings, the writer's outcome and the caller's arguments are arguments of the steps.
pub mod Order
pub mod Ledger
pub mod Invariant
pub mod Runs
pub mod Coalesce
pub mod Examples
use node_red_contrib_mavlink.Common.{
  ℕ, suc, ◌-◌, ◌/◌, Bool, true, false, not, ◌&&◌, Option, none, some, List, [], ◌∷◌, ◌++◌, Eq,
  nat_eq, ltb, leb, ◌==◌, if◌then◌else◌, length,
}
use node_red_contrib_mavlink.JsMap.{has}
use node_red_contrib_mavlink.StableSort.{sort}

-- One queued send. `payload` is the buffer with its meta, which the queue passes through.
pub record Item (K P : Type 0) : Type 0 where
  pub id : ℕ
  pub payload : P
  pub priority : ℕ
  pub coalesce_key : Option K
  pub enqueued_at : ℕ
  pub on_write : Bool

pub data Outcome : Type 0 where
  resolved queue_full queue_cleared write_failed : Outcome

-- How a call of the writer ends; `trace_threw` is a write that succeeds with an `onWrite` that
-- throws.
pub data Write : Type 0 where
  wrote threw trace_threw : Write

-- `age_promotion_ms` is `none` for Infinity. `cleared` is the flag of the item in flight. `direct`
-- holds the writes of the disabled queue that have not ended.
pub record Outbound (K P : Type 0) : Type 0 where
  pub enabled : Bool
  pub max_length : ℕ
  pub age_promotion_ms : Option ℕ
  pub queue : List (Item K P)
  pub draining : Bool
  pub in_flight : Option (Item K P)
  pub cleared : Bool
  pub direct : List (Item K P)
  pub next_id : ℕ
  pub settled : List (ℕ × Outcome)
  pub traced : List ℕ
  pub writes : List (Item K P)

-- What the constructor is given as `agePromotionMs`.
pub data AgeOption : Type 0 where
  absent infinite : AgeOption
  ms : ℕ → AgeOption

abbrev default_age : AgeOption → Option ℕ
default_age absent = some 2000
default_age infinite = none
default_age (ms n) = if ltb 0 n then some n else some 2000

abbrev default_length : Option ℕ → ℕ
default_length none = 1000
default_length (some n) = if ltb 0 n then n else 1000

unfoldable pub new : {K P : Type 0} → Bool → Option ℕ → AgeOption → Outbound K P
new enabled max_length age = record {
  enabled = enabled;
  max_length = default_length max_length;
  age_promotion_ms = default_age age;
  queue = [];
  draining = false;
  in_flight = none;
  cleared = false;
  direct = [];
  next_id = 0;
  settled = [];
  traced = [];
  writes = [];
}

abbrev pub emergency_priority : ℕ
emergency_priority = 0

abbrev pub non_emergency_floor : ℕ
non_emergency_floor = suc emergency_priority

abbrev pub promotions : Option ℕ → ℕ → ℕ
promotions none waited = 0
promotions (some age) waited = waited / age

-- An `onWrite` that throws rejects the promise, if it is called at all.
abbrev pub write_outcome : Bool → Write → Outcome
write_outcome called wrote = resolved
write_outcome called threw = write_failed
write_outcome called trace_threw = if called then write_failed else resolved

abbrev pub went_through : Write → Bool
went_through threw = false
went_through wrote = true
went_through trace_threw = true

-- A promise settles once: a later call does nothing.
unfoldable pub settle_promise : ℕ → Outcome → List (ℕ × Outcome) → List (ℕ × Outcome)
settle_promise i o log = if has log i then log else (i, o) ∷ log

module _ {K P : Type 0} where
  -- A clock that went back gives no wait, as `waited > 0` says; a promotion below zero is raised
  -- to the floor, so the subtraction that stops at zero gives the same band.
  unfoldable pub effective_priority : Option ℕ → Item K P → ℕ → ℕ
  effective_priority age item now =
      let promoted : ℕ = item.priority - promotions age (now - item.enqueued_at) in
      let floor : ℕ =
        if leb item.priority emergency_priority then emergency_priority else non_emergency_floor in
      if ltb promoted floor then floor else promoted

  -- The comparator of the sort is not positive.
  unfoldable pub not_after : Option ℕ → ℕ → Item K P → Item K P → Bool
  not_after age now a b =
      let p = effective_priority age a now in
      let q = effective_priority age b now in
      if p == q then leb a.enqueued_at b.enqueued_at else ltb p q

  unfoldable pub sort_queue : Option ℕ → ℕ → List (Item K P) → List (Item K P)
  sort_queue age now q = sort (not_after age now) q

  -- Resolve or reject the promises of a list of items, in order.
  unfoldable pub settle_promises :
      List (Item K P) → Outcome → List (ℕ × Outcome) → List (ℕ × Outcome)
  settle_promises [] o log = log
  settle_promises (x ∷ xs) o log = settle_promises xs o (settle_promise x.id o log)

  abbrev pub settle : ℕ → Outcome → Outbound K P → Outbound K P
  settle i o s = record s { settled = settle_promise i o s.settled }

  abbrev pub settle_all : List (Item K P) → Outcome → Outbound K P → Outbound K P
  settle_all xs o s = record s { settled = settle_promises xs o s.settled }

  unfoldable pub shift_item : List (Item K P) → Outbound K P → Outbound K P
  shift_item [] s = record s { queue = []; draining = false; in_flight = none }
  shift_item (item ∷ rest) s = record s {
    queue = rest;
    draining = true;
    in_flight = some item;
    cleared = false;
    writes = item ∷ s.writes;
  }

  -- The head of the loop of `_drain`.
  unfoldable pub drain_next : ℕ → Outbound K P → Outbound K P
  unfolding shift_item
  drain_next now s = shift_item (sort_queue s.age_promotion_ms now s.queue) s

  unfoldable pub drain : ℕ → Outbound K P → Outbound K P
  drain now s = if s.draining then s else drain_next now s

  -- The item's `onWrite` is called if the write went through, and then the promise is settled.
  abbrev pub finish_write : Bool → ℕ → Write → Outbound K P → Outbound K P
  finish_write called i w s = record s {
    settled = settle_promise i (write_outcome called w) s.settled;
    traced = if called && went_through w then i ∷ s.traced else s.traced;
  }

  -- The body of the loop behind the `await`, and the head of the next round.
  unfoldable pub written : Write → ℕ → Outbound K P → Outbound K P
  written w now s = elim s.in_flight [
    | none ↦ s
    | some item ↦
        drain_next now
          (record (finish_write (item.on_write && not s.cleared) item.id w s) { in_flight = none })
  ]

  -- `_removeMatching`: what is removed, and what stays, each in queue order.
  unfoldable pub remove_matching :
      (Option K → Bool) → List (Item K P) → List (Item K P) × List (Item K P)
  remove_matching p [] = ([], [])
  remove_matching p (x ∷ xs) =
      let (removed, kept) = remove_matching p xs in
      if p x.coalesce_key then (x ∷ removed, kept) else (removed, x ∷ kept)

  -- `dropCoalescedMatching`, with the number that it returns.
  unfoldable pub drop_coalesced_matching : (Option K → Bool) → Outbound K P → Outbound K P × ℕ
  drop_coalesced_matching p s =
      let (removed, kept) = remove_matching p s.queue in
      (settle_all removed resolved (record s { queue = kept }), length removed)

  -- The earliest enqueue time in the loop of `_dropSuperseded`.
  unfoldable pub oldest : Option ℕ → List (Item K P) → Option ℕ
  oldest at [] = at
  oldest none (x ∷ xs) = oldest (some x.enqueued_at) xs
  oldest (some t) (x ∷ xs) = oldest (some (if ltb x.enqueued_at t then x.enqueued_at else t)) xs

  abbrev pub add_direct : Item K P → Outbound K P → Outbound K P
  add_direct item s = record s {
    direct = item ∷ s.direct;
    next_id = suc s.next_id;
    writes = item ∷ s.writes;
  }

  unfoldable pub take_direct : ℕ → List (Item K P) → Option (Item K P) × List (Item K P)
  take_direct i [] = (none, [])
  take_direct i (x ∷ xs) =
      let (found, rest) = take_direct i xs in if x.id == i then (some x, xs) else (found, x ∷ rest)

  -- The writer's end of a pass-through write.
  unfoldable pub direct_written : ℕ → Write → Outbound K P → Outbound K P
  unfolding take_direct
  direct_written i w s =
      let (found, rest) = take_direct i s.direct in
      elim found [ none ↦ s | some x ↦ finish_write x.on_write i w (record s { direct = rest }) ]

  -- The item in flight is marked and rejected; there may be none.
  abbrev pub mark_cleared : Option (Item K P) → Bool → Bool
  mark_cleared none cleared = cleared
  mark_cleared (some item) cleared = true

  abbrev pub reject_in_flight : Option (Item K P) → List (ℕ × Outcome) → List (ℕ × Outcome)
  reject_in_flight none log = log
  reject_in_flight (some item) log = settle_promise item.id queue_cleared log

  unfoldable pub clear : Outbound K P → Outbound K P
  clear s = settle_all s.queue queue_cleared (record s {
    queue = [];
    cleared = mark_cleared s.in_flight s.cleared;
    settled = reject_in_flight s.in_flight s.settled;
  })

abbrev pub key_is : {K : Type 0} ⦃e : Eq K⦄ → K → Option K → Bool
key_is k none = false
key_is ⦃e⦄ k (some j) = e.beq j k

abbrev pub or_now : Option ℕ → ℕ → ℕ
or_now none now = now
or_now (some t) now = t

-- What callers, the transport and the connection do to the queue.
pub data Event (K P : Type 0) : Type 0 where
  enqueues : P → ℕ → Option K → Bool → ℕ → Event K P
  writer_ends : Write → ℕ → Event K P
  direct_ends : ℕ → Write → Event K P
  drops : K → Event K P
  drops_matching : (Option K → Bool) → Event K P
  clears : Event K P

module _ {K P : Type 0} ⦃e : Eq K⦄ where
  unfoldable pub drop_coalesced : K → Outbound K P → Outbound K P × ℕ
  drop_coalesced k s = drop_coalesced_matching (key_is k) s

  unfoldable pub drop_superseded : K → Outbound K P → Option ℕ × Outbound K P
  drop_superseded k s =
      let (removed, kept) = remove_matching (key_is k) s.queue in
      (oldest none removed, settle_all removed resolved (record s { queue = kept }))

  abbrev pub coalesce : Option K → Outbound K P → Option ℕ × Outbound K P
  coalesce none s = (none, s)
  coalesce (some k) s = drop_superseded k s

  -- The part of `enqueue` behind the coalescing.
  unfoldable pub push_item : P → ℕ → Option K → Bool → ℕ → Option ℕ → Outbound K P → Outbound K P
  push_item payload priority key on_write now inherited s =
      let item : Item K P = record {
        id = s.next_id;
        payload = payload;
        priority = priority;
        coalesce_key = key;
        enqueued_at = or_now inherited now;
        on_write = on_write;
      } in
      if leb s.max_length (length s.queue)
      then settle s.next_id queue_full (record s { next_id = suc s.next_id })
      else drain now (record s { queue = s.queue ++ (item ∷ []); next_id = suc s.next_id })

  unfoldable pub enqueue : P → ℕ → Option K → Bool → ℕ → Outbound K P → Outbound K P
  enqueue payload priority key on_write now s =
      if s.enabled
      then (let (inherited, t) = coalesce key s in
          push_item payload priority key on_write now inherited t)
      else add_direct
          (record {
            id = s.next_id;
            payload = payload;
            priority = priority;
            coalesce_key = key;
            enqueued_at = now;
            on_write = on_write;
          })
          s

  unfoldable pub step : Outbound K P → Event K P → Outbound K P
  step s (enqueues payload priority key on_write now) = enqueue payload priority key on_write now s
  step s (writer_ends w now) = written w now s
  step s (direct_ends i w) = direct_written i w s
  step s (drops k) = (drop_coalesced k s).0
  step s (drops_matching p) = (drop_coalesced_matching p s).0
  step s clears = clear s

  unfoldable pub run : Outbound K P → List (Event K P) → Outbound K P
  unfolding step
  run s [] = s
  run s (ev ∷ evs) = run (step s ev) evs
