-- ===== src/Outbound/Examples.antt =====
-- Runs of lib/runtime/outbound-queue.js at concrete inputs.
use node_red_contrib_mavlink.Common.{
  ℕ, ◌+◌, ◌-◌, ◌*◌, ◌≤◌, ◌<◌, ◌≡◌, refl, true, false, none, some, List, [], ◌∷◌, map, arith, ◌⊎◌,
  length, ltb, if◌then◌else◌, tally, nat_eq,
}
use node_red_contrib_mavlink.JsMap.{has}
use node_red_contrib_mavlink.JsMap.Laws.{Keyed}
use node_red_contrib_mavlink.StableSort.{sort}
use node_red_contrib_mavlink.Outbound.{
  Item, Outbound, absent, ms, threw, Event, enqueues, writer_ends, new, run, step, resolved,
  write_failed, drain_next, drain, written, enqueue, push_item, drop_superseded, remove_matching,
  oldest, effective_priority, not_after, sort_queue, settle_promise, settle_promises, shift_item,
}
use node_red_contrib_mavlink.Outbound.Invariant.{Working}
use node_red_contrib_mavlink.Outbound.Ledger.{paid, owed}
use node_red_contrib_mavlink.Outbound.Runs.{after, settled_once, never_idle_with_work}
use node_red_contrib_mavlink.Outbound.Order.{emergency_first, aged_first}
use node_red_contrib_mavlink.Outbound.Coalesce.{one_queued_per_key, carries}

-- A setpoint goes out; behind it wait a mission item, two heartbeats of key 7 and an arm command.
abbrev backlog : List (Event ℕ ℕ)
backlog =
    enqueues 100 1 none false 0
    ∷ enqueues 101 2 none true 10
    ∷ enqueues 102 3 (some 7) false 20
    ∷ enqueues 103 3 (some 7) false 1020
    ∷ enqueues 104 0 none true 1030
    ∷ []

abbrev waiting : Outbound ℕ ℕ
waiting = after true none absent backlog

-- The second heartbeat took the place and the age of the first.
abbrev sent_when : Item ℕ ℕ → ℕ × ℕ
sent_when x = (x.payload, x.enqueued_at)

waiting_queue : map sent_when waiting.queue ≡ (101, 10) ∷ (103, 20) ∷ (104, 1030) ∷ []
unfolding run written enqueue new push_item drain drain_next sort_queue sort drop_superseded
    remove_matching not_after effective_priority oldest settle_promise has settle_promises
waiting_queue = refl

-- The arm command overtakes the backlog; the writer fails for the setpoint.
arm_next : (step waiting (writer_ends threw 1040)).settled ≡ (0, write_failed) ∷ (2, resolved) ∷ []
unfolding run written enqueue new push_item drain drain_next sort_queue sort drop_superseded
    remove_matching not_after effective_priority oldest settle_promise has settle_promises
arm_next = refl

settled_once_example :
    ((i : ℕ) → owed i waiting + paid i waiting.settled ≡ (if ltb i waiting.next_id then 1 else 0))
    × Keyed waiting.settled
settled_once_example = settled_once true none absent backlog

never_idle_with_work_example :
    Working waiting.draining waiting.in_flight waiting.queue
    × (length waiting.queue ≤ waiting.max_length)
never_idle_with_work_example = never_idle_with_work true none absent backlog

one_queued_per_key_example : tally (carries 7) waiting.queue ≤ 1
one_queued_per_key_example = one_queued_per_key true none absent backlog 7

abbrev item_of : ℕ → ℕ → ℕ → Item ℕ ℕ
item_of i priority at = record {
  id = i;
  payload = i;
  priority = priority;
  coalesce_key = none;
  enqueued_at = at;
  on_write = true;
}

abbrev queued : List (Item ℕ ℕ) → Outbound ℕ ℕ
queued q = record {
  enabled = true;
  max_length = 10;
  age_promotion_ms = some 2000;
  queue = q;
  draining = false;
  in_flight = none;
  cleared = false;
  direct = [];
  next_id = 3;
  settled = [];
  traced = [];
  writes = [];
}

-- No emergency waits: the setpoint goes first, and what stays is of a lower band.
emergency_first_example : (0 < 2) × ((0 < 3) × Unit {0})
unfolding drain_next sort_queue sort not_after effective_priority shift_item
emergency_first_example =
    emergency_first 50 (queued (item_of 0 2 0 ∷ item_of 1 3 10 ∷ item_of 2 1 20 ∷ []))
      (item_of 2 1 20) refl (omega arith)

-- A heartbeat that has waited four seconds goes before a fresh setpoint.
abbrev old_heartbeat : Outbound ℕ ℕ
old_heartbeat = queued (item_of 0 3 1000 ∷ item_of 1 1 4990 ∷ [])

aged_first_example :
    ((1 - 1) * 2000 ≤ 5000 - 4990 → ((item_of 0 3 1000).priority ≡ 0) ⊎ (1000 ≤ 4990)) × Unit {0}
unfolding drain_next sort_queue sort not_after effective_priority shift_item
aged_first_example = aged_first 2000 5000 old_heartbeat (item_of 0 3 1000) refl (omega arith) refl

-- A full queue of one heartbeat takes the next one.
abbrev full : Outbound ℕ ℕ
full = after true (some 1) (ms 500) (enqueues 1 2 none false 0 ∷ enqueues 2 3 (some 7) false 5 ∷ [])
