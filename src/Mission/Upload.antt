-- ===== src/Mission/Upload.antt =====
-- lib/mission/mission-upload.js: the class MissionUpload. An item is opaque (`buildItemFields` is not
-- modelled). `sent_to` is `_maxSeqSent + 1`, which starts at -1 in the source.
pub mod Sent
pub mod Valid
pub mod Quiet
pub mod Runs
pub mod Progress
pub mod Examples
use node_red_contrib_mavlink.Common.{
  ℕ, suc, ◌+◌, ◌*◌, max, Bool, true, false, not, ◌&&◌, Option, none, some, List, [], ◌∷◌, length,
  get_elem?, ltb, ◌==◌, if◌then◌else◌, is_empty,
}
use node_red_contrib_mavlink.Workflow.{new, subscribe, send, arm_timeout, clear_timeout}
use node_red_contrib_mavlink.Mission.{
  Config, Name, mission_request, mission_request_int, mission_ack, Payload, Screened, foreign,
  too_old, ours, screen, Base, idle, waiting_request, sending_item, Failure, bad_seq, stalled,
  rejected, requires_mavlink2, bad_mission_type, bad_filter, succeed, fail, on_timeout, end_send,
  abort,
}

pub data Act : Type 0 where
  send_count : Act
  resend_item : ℕ → Act

pub data Cont : Type 0 where
  count_sent : Cont
  item_sent : ℕ → Cont
  item_resent : ℕ → Cont

pub data Msg (I : Type 0) : Type 0 where
  count_msg : ℕ → Msg I
  item_msg : Bool → ℕ → I → Msg I

module _ (I : Type 0) where
  pub record Upload : Type 0 where
    pub config : Config
    pub items : List I
    pub item_use_int : Option Bool
    pub sent_to : ℕ
    pub item_sends : ℕ
    pub base : Base Act Cont (Msg I) ℕ

pub data Event (I : Type 0) : Type 0 where
  send_ends : ℕ → Bool → Event I
  timer_fires : Event I
  arrives : Payload I → Event I
  aborts : Event I

module _ {I : Type 0} where
  abbrev pub new_upload : Config → List I → List ℕ → ℕ → Upload I
  new_upload c items link_subs next_sub = record {
    config = c;
    items = items;
    item_use_int = none;
    sent_to = 0;
    item_sends = 0;
    base = new idle link_subs next_sub;
  }

  abbrev pub count : Upload I → ℕ
  count u = length u.items

  abbrev pub do_send_count : Upload I → Upload I
  do_send_count u = record u {
    base = send (count_msg (count u)) count_sent (record (u.base) { state = waiting_request });
  }

  -- The connection refuses a subscription for a system above 255.
  unfoldable pub start : Upload I → Upload I
  start u =
      if u.config.mission_type == u.config.mission_type_all
      then record u { base = fail bad_mission_type u.base }
      else (if ltb 255 u.config.target_system
          then record u { base = fail bad_filter u.base }
          else do_send_count (record u { base = subscribe u.base }))

  abbrev pub or_use_int : Upload I → Option Bool → Bool
  or_use_int u none = u.config.use_int
  or_use_int u (some b) = b

  abbrev pub resend : ℕ → Option I → Upload I → Upload I
  resend seq none u = u
  resend seq (some x) u = record u {
    base = send (item_msg (or_use_int u u.item_use_int) seq x) (item_resent seq) u.base;
  }

  -- `_resendItem`
  abbrev pub do_resend_item : ℕ → Upload I → Upload I
  do_resend_item seq u = resend seq (get_elem? u.items seq) u

  abbrev pub max_item_sends : Upload I → ℕ
  max_item_sends u = count u * (u.config.max_retries + 1)

  abbrev pub answer_request : Bool → ℕ → I → Upload I → Upload I
  answer_request use_int seq x u =
      if ltb (max_item_sends u) u.item_sends
      then record u { base = fail stalled u.base }
      else record u {
        base =
            send (item_msg use_int seq x) (item_sent seq)
              (record (u.base) { timer = none; retries = 0; state = sending_item });
      }

  abbrev pub on_request : Bool → ℕ → Option I → Upload I → Upload I
  on_request use_int seq none u = record u { base = fail (bad_seq seq) u.base }
  on_request use_int seq (some x) u = answer_request use_int seq x (record u {
    item_use_int = some use_int;
    sent_to = max u.sent_to (suc seq);
    item_sends = suc u.item_sends;
  })

  -- `_maxSeqSent < count - 1`, for a mission that is not empty.
  abbrev pub too_early : Upload I → Bool
  too_early u = ltb 0 (count u) && ltb u.sent_to (count u)

  abbrev pub on_ack : ℕ → Upload I → Upload I
  on_ack result u =
      if (result == u.config.mission_accepted) && too_early u
      then u
      else (if result == u.config.mission_accepted
          then record u { base = succeed (count u) (clear_timeout u.base) }
          else record u { base = fail (rejected result) (clear_timeout u.base) })

  abbrev pub on_named : Name → Payload I → Upload I → Upload I
  on_named mission_request m u = on_request false m.seq (get_elem? u.items m.seq) u
  on_named mission_request_int m u = on_request true m.seq (get_elem? u.items m.seq) u
  on_named mission_ack m u = on_ack m.result u
  on_named _ m u = u

  abbrev pub on_screened : Screened → Payload I → Upload I → Upload I
  on_screened foreign m u = u
  on_screened too_old m u = record u { base = fail requires_mavlink2 u.base }
  on_screened ours m u = on_named m.name m u

  unfoldable pub on_message : Payload I → Upload I → Upload I
  on_message m u = on_screened (screen u.config m) m u

  -- The retransmission of a timer.
  abbrev pub act : Option Act → Upload I → Upload I
  act none u = u
  act (some send_count) u = do_send_count u
  act (some (resend_item seq)) u = do_resend_item seq u

  -- What follows a send.
  abbrev pub continue : Option Cont → Upload I → Upload I
  continue none u = u
  continue (some count_sent) u = record u { base = arm_timeout send_count u.base }
  continue (some (item_sent seq)) u = record u {
    base = arm_timeout (resend_item seq) (record (u.base) { state = waiting_request });
  }
  continue (some (item_resent seq)) u = record u { base = arm_timeout (resend_item seq) u.base }

  -- Without a subscription no message arrives.
  unfoldable pub step : Upload I → Event I → Upload I
  step u (send_ends n sent_ok) =
      let (k, b) = end_send n sent_ok u.base in continue k (record u { base = b })
  step u timer_fires =
      let (a, b) = on_timeout u.config.max_retries u.base in act a (record u { base = b })
  step u (arrives m) = if is_empty u.base.subs then u else on_message m u
  step u aborts = record u { base = abort u.base }

  unfoldable pub run : Upload I → List (Event I) → Upload I
  run u [] = u
  run u (ev ∷ evs) = run (step u ev) evs
