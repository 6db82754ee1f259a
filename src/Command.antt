-- ===== src/Command.antt =====
-- lib/command/command-workflow.js: the class CommandSend. One workflow and the part of its
-- connection that it uses (the lock table and the subscription ids) are one record; a method takes
-- the record and returns it changed. `connection.send` is a promise: `pending` counts the sends that
-- have not ended, and their ends, the timer and the acks are events. Target ids are numbers.
pub mod Rule
pub mod Acks
pub mod Settle
pub mod Retransmit
pub mod Silence
pub mod Exclusion
pub mod Examples
use node_red_contrib_mavlink.Common.{
  ℕ, suc, ◌+◌, ◌-◌, ◌%◌, Bool, true, false, not, ◌&&◌, ◌||◌, Option, none, some, List, [], ◌∷◌,
  nat_eq, triple_eq, ltb, leb, ◌==◌, if◌then◌else◌, is_empty,
}
use node_red_contrib_mavlink.Connection.{unsubscribe, names_other, other_component}
use node_red_contrib_mavlink.JsMap.{has}
use node_red_contrib_mavlink.Locks.{Lock, LockTable, acquire, release_lock}

pub data State : Type 0 where
  idle waiting_ack in_progress complete failed : State

-- The codes with which the promise is rejected, and its success.
pub data Answer : Type 0 where
  accepted busy timed_out aborted send_failed connection_invalid bad_filter : Answer
  rejected : ℕ → Answer

-- The lock key `command:<system>:<component>:<command>`.
abbrev pub Key : Type 0
Key = ℕ × ℕ × ℕ

pub record Config : Type 0 where
  pub target_system : ℕ
  pub target_component : ℕ
  pub source_system : Option ℕ
  pub source_component : Option ℕ
  pub accepted_result : ℕ
  pub in_progress_result : ℕ
  pub use_int : Bool
  pub command : ℕ
  pub max_retries : ℕ

-- A decoded COMMAND_ACK: `none` is an unreadable component id, or an absent extension field.
pub record Ack : Type 0 where
  pub sysid : ℕ
  pub compid : Option ℕ
  pub ack_command : ℕ
  pub result : ℕ
  pub ack_system : Option ℕ
  pub ack_component : Option ℕ

-- `sent` has the confirmation of each transmission, newest first: `none` for COMMAND_INT, which has
-- no such field. `answers` are the calls of resolve and reject.
pub record Command : Type 0 where
  pub config : Config
  pub open config use *
  pub state : State
  pub confirmation : ℕ
  pub subs : List ℕ
  pub timer : Bool
  pub retries : ℕ
  pub in_progress_seen : Bool
  pub in_progress_waits : ℕ
  pub settled : Bool
  pub lock : Option (Lock Key)
  pub pending : ℕ
  pub sent : List (Option ℕ)
  pub answers : List Answer
  pub locks : LockTable Key
  pub link_subs : List ℕ
  pub next_sub : ℕ

abbrev pub default_max_retries : ℕ
default_max_retries = 3

-- `none` stands for an absent, negative or non-finite option.
abbrev pub clamp_retries : Option ℕ → ℕ
clamp_retries none = default_max_retries
clamp_retries (some n) = n

abbrev pub key : Command → Key
key s = (s.target_system, s.target_component, s.command)

unfoldable pub new : Config → LockTable Key → List ℕ → ℕ → Command
new config locks link_subs next_sub = record {
  config = config;
  state = idle;
  confirmation = 0;
  subs = [];
  timer = false;
  retries = 0;
  in_progress_seen = false;
  in_progress_waits = 0;
  settled = false;
  lock = none;
  pending = 0;
  sent = [];
  answers = [];
  locks = locks;
  link_subs = link_subs;
  next_sub = next_sub;
}

abbrev pub release_held : Option (Lock Key) → LockTable Key → LockTable Key
release_held none locks = locks
release_held (some l) locks = release_lock l locks

abbrev pub cleanup : Command → Command
cleanup s = record s {
  timer = false;
  link_subs = unsubscribe s.subs s.link_subs;
  subs = [];
  locks = release_held s.lock s.locks;
  lock = none;
}

abbrev pub end_state : Answer → State
end_state accepted = complete
end_state _ = failed

-- `_complete` and `_fail`, which differ in the state that they set.
unfoldable pub finish : Answer → Command → Command
finish a s =
    if s.settled
    then s
    else cleanup (record s { settled = true; state = end_state a; answers = a ∷ s.answers })

-- `_sendCommand`, up to the promise of `connection.send`.
abbrev pub send_command : Command → Command
send_command s = record s {
  state = waiting_ack;
  sent = (if s.use_int then none else some s.confirmation) ∷ s.sent;
  pending = suc s.pending;
}

-- `_armTimeout`
abbrev pub arm_timeout : Command → Command
arm_timeout s = if s.settled then s else record s { timer = true }

-- The callback of the timer.
unfoldable pub on_timeout : Command → Command
on_timeout s =
    if s.settled
    then s
    else (if s.in_progress_seen
        then (if leb s.max_retries s.in_progress_waits
            then finish timed_out s
            else arm_timeout (record s { in_progress_waits = suc s.in_progress_waits }))
        else (if leb s.max_retries s.retries
            then finish timed_out s
            else send_command
                (record s { retries = suc s.retries; confirmation = (s.confirmation + 1) % 256 })))

-- `run`; `initialised` says that the connection's `acquireLock` is not the stub of an invalid one.
abbrev subscribe_and_send : Command → Command
subscribe_and_send s =
    if ltb 255 s.target_system
    then finish bad_filter s
    else send_command (record s {
      subs = s.next_sub ∷ s.subs;
      link_subs = s.next_sub ∷ s.link_subs;
      next_sub = suc s.next_sub;
    })

abbrev with_lock : Option (Lock Key × LockTable Key) → Command → Command
with_lock none s = finish busy s
with_lock (some (l, t)) s = subscribe_and_send (record s { lock = some l; locks = t })

unfoldable pub start : Bool → Command → Command
start initialised s =
    if initialised
    then with_lock (acquire (key s) (some s.command) s.locks) s
    else finish connection_invalid s

unfoldable pub addressed_to_us : Config → Ack → Bool
addressed_to_us c a =
    not (names_other c.source_system a.ack_system)
    && not (names_other c.source_component a.ack_component)

-- The early returns of `_onAck`, in order.
unfoldable pub ignores : Config → Ack → Bool
unfolding addressed_to_us
ignores c a =
    not (a.sysid == c.target_system)
    || (other_component c.target_component a.compid
        || (not (a.ack_command == c.command) || not (addressed_to_us c a)))

abbrev latch_progress : Command → Command
latch_progress s = arm_timeout (record s {
  state = in_progress;
  in_progress_seen = true;
  in_progress_waits = 0;
  timer = false;
})

unfoldable pub on_ack : Ack → Command → Command
on_ack a s =
    if ignores s.config a
    then s
    else (if a.result == s.in_progress_result
        then latch_progress s
        else (if a.result == s.accepted_result
            then finish accepted (record s { timer = false })
            else finish (rejected a.result) (record s { timer = false })))

pub data Event : Type 0 where
  send_ends : Bool → Event
  timer_fires : Event
  acked : Ack → Event
  aborts : Event

abbrev end_send : Bool → Command → Command
end_send true s = arm_timeout s
end_send false s = finish send_failed s

-- An event that cannot happen (no send pending, no timer armed, no subscription) changes nothing.
unfoldable pub step : Command → Event → Command
step s (send_ends sent_ok) =
    if s.pending == 0 then s else end_send sent_ok (record s { pending = s.pending - 1 })
step s timer_fires = if s.timer then on_timeout (record s { timer = false }) else s
step s (acked a) = if is_empty s.subs then s else on_ack a s
step s aborts = finish aborted s

unfoldable pub run : Command → List Event → Command
run s [] = s
run s (ev ∷ evs) = run (step s ev) evs
