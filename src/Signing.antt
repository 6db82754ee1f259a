-- ===== src/Signing.antt =====
-- lib/protocol/replay-tracker.js (ReplayTracker) and lib/protocol/link-state.js (LinkState): the
-- sequence numbers and signing timestamps of a link. A stream is its system, component and link
-- id, as the template string that keys the maps; a derived key is any type with an equality.
-- Timestamps are natural numbers; `none` is one that is not finite.
pub mod Replay
pub mod Sequence
pub mod Inbound
pub mod Examples
use node_red_contrib_mavlink.Common.{
  ℕ, ◌+◌, ◌-◌, ◌%◌, max, Bool, true, false, Option, none, some, List, [], Eq, nat_eq, triple_eq,
  pair_eq, ltb, leb, if◌then◌else◌,
}
use node_red_contrib_mavlink.JsMap.{get, set, size}

abbrev pub Stream : Type 0
Stream = ℕ × ℕ × ℕ

pub record ReplayTracker : Type 0 where
  pub newest : List (Stream × ℕ)
  pub max_accepted : ℕ

abbrev pub new_tracker : ReplayTracker
new_tracker = record { newest = []; max_accepted = 0 }

abbrev pub freshness_window : ℕ
freshness_window = 6000000

abbrev pub max_streams : ℕ
max_streams = 256

abbrev pub or_zero : Option ℕ → ℕ
or_zero none = 0
or_zero (some n) = n

-- `Math.max` of the clock, when it is finite, and the newest timestamp accepted.
abbrev pub reference : Option ℕ → ReplayTracker → ℕ
reference now t = max (or_zero now) t.max_accepted

-- The test of a stream by its newest timestamp: true when the frame is accepted. The window is
-- added on the other side, where the source subtracts it and may fall below zero.
unfoldable pub passes : Option ℕ → ℕ → Option ℕ → ReplayTracker → Bool
passes now ts none t =
    if ltb (ts + freshness_window) (reference now t) then false else ltb (size t.newest) max_streams
passes now ts (some last) t = ltb last ts

abbrev pub record_frame : Stream → ℕ → ReplayTracker → ReplayTracker
record_frame stream ts t = record {
  newest = set t.newest stream ts;
  max_accepted = if ltb t.max_accepted ts then ts else t.max_accepted;
}

unfoldable pub check : Stream → Option ℕ → Option ℕ → ReplayTracker → Bool × ReplayTracker
check stream none now t = (false, t)
check stream (some ts) now t =
    if passes now ts (get t.newest stream) t then (true, record_frame stream ts t) else (false, t)

pub record LinkState (Key : Type 0) : Type 0 where
  pub seq : List ((ℕ × ℕ) × ℕ)
  pub sign_ms : List (Stream × ℕ)
  pub replay_by_key : List (Key × ReplayTracker)

abbrev pub new_link : {Key : Type 0} → LinkState Key
new_link = record { seq = []; sign_ms = []; replay_by_key = [] }

module _ {Key : Type 0} where
  unfoldable pub next_seq : ℕ × ℕ → LinkState Key → ℕ × LinkState Key
  next_seq sender l =
      let seq = or_zero (get l.seq sender) in
      (seq, record l { seq = set l.seq sender ((seq + 1) % 256) })

  unfoldable pub next_sign_timestamp : Stream → ℕ → LinkState Key → ℕ × LinkState Key
  next_sign_timestamp stream now l =
      let last = or_zero (get l.sign_ms stream) in
      let next : ℕ = if ltb last now then now else last + 1 in
      (next, record l { sign_ms = set l.sign_ms stream next })

abbrev pub tracker_or_new : Option ReplayTracker → ReplayTracker
tracker_or_new none = new_tracker
tracker_or_new (some t) = t

module _ {Key : Type 0} ⦃e : Eq Key⦄ where
  -- The tracker of a key, which the link stores when it is new.
  abbrev pub store_new : Key → Option ReplayTracker → LinkState Key → LinkState Key
  store_new key none l = record l { replay_by_key = set l.replay_by_key key new_tracker }
  store_new key (some t) l = l

  unfoldable pub replay_tracker_for : Key → LinkState Key → ReplayTracker × LinkState Key
  replay_tracker_for key l =
      let found = get l.replay_by_key key in (tracker_or_new found, store_new key found l)

  -- A codec checks a frame with the tracker of its key; the tracker is one object, so what it
  -- learns stays in the link.
  unfoldable pub check_frame :
      Key → Stream → Option ℕ → Option ℕ → LinkState Key → Bool × LinkState Key
  check_frame key stream ts now l =
      let (t, l2) = replay_tracker_for key l in
      let (accepted, t2) = check stream ts now t in
      (accepted, record l2 { replay_by_key = set l2.replay_by_key key t2 })
