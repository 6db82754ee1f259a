-- ===== src/Mission/Clear.antt =====
-- lib/mission/mission-clear.js: the class MissionClear.
pub mod Accepted
pub mod Examples
use node_red_contrib_mavlink.Common.{
  ℕ, Bool, true, false, not, ◌||◌, Option, none, some, List, [], ◌∷◌, ◌==◌, ltb, if◌then◌else◌,
  is_empty,
}
use node_red_contrib_mavlink.Workflow.{new, subscribe, send, arm_timeout, clear_timeout}
use node_red_contrib_mavlink.Mission.{
  Config, Name, mission_ack, Payload, Screened, foreign, too_old, ours, screen, Base, idle,
  waiting_ack, rejected, requires_mavlink2, bad_filter, succeed, fail, on_timeout, end_send, abort,
}

pub data Act : Type 0 where
  send_clear : Act

pub data Cont : Type 0 where
  clear_sent : Cont

pub data Msg : Type 0 where
  clear_all_msg : Msg

-- The result of a clear is the acknowledged code.
pub record Clear : Type 0 where
  pub config : Config
  pub base : Base Act Cont Msg ℕ

pub data Event (I : Type 0) : Type 0 where
  send_ends : ℕ → Bool → Event I
  timer_fires : Event I
  arrives : Payload I → Event I
  aborts : Event I

-- `_sendClear`
abbrev pub do_send_clear : Clear → Clear
do_send_clear d = record d {
  base = send clear_all_msg clear_sent (record (d.base) { state = waiting_ack });
}

unfoldable pub start : Config → List ℕ → ℕ → Clear
start c link_subs next_sub =
    let b : Base Act Cont Msg ℕ = new idle link_subs next_sub in
    if ltb 255 c.target_system
    then record { config = c; base = fail bad_filter b }
    else do_send_clear (record { config = c; base = subscribe b })

abbrev pub settle_ack : ℕ → Clear → Clear
settle_ack result d =
    let b = clear_timeout d.base in
    if result == d.config.mission_accepted
    then record d { base = succeed result b }
    else record d { base = fail (rejected result) b }

abbrev pub act : Option Act × Base Act Cont Msg ℕ → Clear → Clear
act (none, b) d = record d { base = b }
act (some send_clear, b) d = do_send_clear (record d { base = b })

-- What follows a send that went through.
abbrev pub continue : Option Cont × Base Act Cont Msg ℕ → Clear → Clear
continue (none, b) d = record d { base = b }
continue (some clear_sent, b) d = record d { base = arm_timeout send_clear b }

-- The subscription names this message alone.
abbrev pub is_ack : Name → Bool
is_ack mission_ack = true
is_ack _ = false

abbrev pub on_screened : Screened → ℕ → Clear → Clear
on_screened foreign result d = d
on_screened too_old result d = record d { base = fail requires_mavlink2 d.base }
on_screened ours result d = settle_ack result d

module _ {I : Type 0} where
  -- `_onAck`
  unfoldable pub on_ack : Payload I → Clear → Clear
  on_ack m d = on_screened (screen d.config m) m.result d

  -- Without a subscription no message arrives.
  unfoldable pub step : Clear → Event I → Clear
  step d (send_ends n sent_ok) = continue (end_send n sent_ok d.base) d
  step d timer_fires = act (on_timeout d.config.max_retries d.base) d
  step d (arrives m) = if is_empty d.base.subs || not (is_ack m.name) then d else on_ack m d
  step d aborts = record d { base = abort d.base }

  unfoldable pub run : Clear → List (Event I) → Clear
  run d [] = d
  run d (ev ∷ evs) = run (step d ev) evs
