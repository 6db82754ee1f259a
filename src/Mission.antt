-- ===== src/Mission.antt =====
-- lib/mission/mission-state-machine.js: what the class MissionWorkflow has beyond Workflow: its states
-- and errors, and the tests of an inbound message.
pub mod Upload
pub mod Download
pub mod Clear
pub mod Sender
use node_red_contrib_mavlink.Common.{
  ℕ, zero, suc, Bool, true, false, not, ◌&&◌, ◌||◌, Option, none, some, List, [], ◌∷◌, ◌++◌, leb,
  ◌==◌, if◌then◌else◌,
}
use node_red_contrib_mavlink.Workflow.{
  Workflow, finish, clear_timeout, fire_or, follow_or, take_send,
}
use node_red_contrib_mavlink.Connection.{names_other, other_component}

pub data State : Type 0 where
  idle waiting_request sending_item waiting_count waiting_item sending_ack waiting_ack : State
  complete failed : State

pub data Failure : Type 0 where
  timed_out aborted send_failed bad_filter bad_mission_type : Failure
  requires_mavlink2 stalled : Failure
  bad_seq : ℕ → Failure
  rejected : ℕ → Failure

pub data Answer (R : Type 0) : Type 0 where
  done : R → Answer R
  failed_with : Failure → Answer R

-- The constructor's options, numbers resolved and clamped.
pub record Config : Type 0 where
  pub target_system : ℕ
  pub target_component : ℕ
  pub source_system : Option ℕ
  pub source_component : Option ℕ
  pub mission_accepted : ℕ
  pub mission_type_mission : ℕ
  pub mission_type_all : ℕ
  pub mission_type : ℕ
  pub use_int : Bool
  pub max_retries : ℕ

pub data Name : Type 0 where
  mission_request mission_request_int mission_ack mission_count mission_item mission_item_int : Name

-- A decoded message, with the fields that the workflows read; `content` is the rest of an item.
pub record Payload (I : Type 0) : Type 0 where
  pub name : Name
  pub sysid : ℕ
  pub compid : Option ℕ
  pub to_system : Option ℕ
  pub to_component : Option ℕ
  pub mission_type : ℕ
  pub is_mavlink1 : Bool
  pub seq : ℕ
  pub count : ℕ
  pub result : ℕ
  pub content : I

-- What the four tests at the head of a handler decide.
pub data Screened : Type 0 where
  foreign : Screened
  too_old : Screened
  ours : Screened

module _ {I : Type 0} where
  abbrev pub matches_target : Config → Payload I → Bool
  matches_target c m = m.sysid == c.target_system

  abbrev pub addressed_to_us : Config → Payload I → Bool
  addressed_to_us c m =
      not (names_other c.source_system m.to_system)
      && not (names_other c.source_component m.to_component)

  abbrev pub match_mission_type : Config → Payload I → Screened
  match_mission_type c m =
      if m.mission_type == c.mission_type
      then ours
      else (if not (c.mission_type == c.mission_type_mission)
            && (m.mission_type == c.mission_type_mission && m.is_mavlink1)
          then too_old
          else foreign)

  unfoldable pub screen : Config → Payload I → Screened
  screen c m =
      if matches_target c m
        && (not (other_component c.target_component m.compid) && addressed_to_us c m)
      then match_mission_type c m
      else foreign

-- The base of a mission workflow with result `R`.
abbrev pub Base : Type 0 → Type 0 → Type 0 → Type 0 → Type 0
Base Act Cont Msg R = Workflow State (Answer R) Act Cont Msg

module _ {Act Cont Msg R : Type 0} where
  abbrev pub succeed : R → Base Act Cont Msg R → Base Act Cont Msg R
  succeed r b = finish complete (done r) b

  abbrev pub fail : Failure → Base Act Cont Msg R → Base Act Cont Msg R
  fail f b = finish failed (failed_with f) b

  abbrev pub fire : ℕ → Option Act → Base Act Cont Msg R → Option Act × Base Act Cont Msg R
  fire max_retries act b = fire_or (fail timed_out) max_retries act b

  -- The callback of the timer, up to the retransmission that it calls.
  unfoldable pub on_timeout : ℕ → Base Act Cont Msg R → Option Act × Base Act Cont Msg R
  on_timeout max_retries b = fire max_retries b.timer (clear_timeout b)

  abbrev pub follow :
      Bool → Option (Cont × List Cont) → Base Act Cont Msg R → Option Cont × Base Act Cont Msg R
  follow sent_ok sends b = follow_or (fail send_failed) sent_ok sends b

  -- A send ends, and what follows if it went through.
  unfoldable pub end_send : ℕ → Bool → Base Act Cont Msg R → Option Cont × Base Act Cont Msg R
  end_send n sent_ok b = follow sent_ok (take_send n b.pending) b

  abbrev pub abort : Base Act Cont Msg R → Base Act Cont Msg R
  abort b = fail aborted b
