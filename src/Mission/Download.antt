-- ===== src/Mission/Download.antt =====
-- lib/mission/mission-download.js: the class MissionDownload. An item is its sequence number, the rest
-- of its fields and the name of the message that carried it; the degrees that `extractItem` adds are
-- left out.
pub mod Heard
pub mod Ordered
pub mod Prompt
pub mod Traced
pub mod Examples
use node_red_contrib_mavlink.Common.{
  ℕ, suc, ◌≤◌, Bool, true, false, not, ◌&&◌, Option, none, some, List, [], ◌∷◌, ◌++◌, ltb, leb,
  ◌==◌, if◌then◌else◌, is_empty,
}
use node_red_contrib_mavlink.Workflow.{
  new, finish, subscribe, send, arm_timeout, clear_timeout, take_send,
}
use node_red_contrib_mavlink.Mission.{
  Config, Name, mission_request, mission_request_int, mission_ack, mission_count, mission_item,
  mission_item_int, Payload, Screened, foreign, too_old, ours, screen, Base, State, idle,
  waiting_count, waiting_item, sending_ack, rejected, requires_mavlink2, bad_mission_type,
  bad_filter, succeed, fail, fire, on_timeout, follow, end_send, abort,
}

pub data Act : Type 0 where
  request_list : Act
  request_item : ℕ → Act

pub data Cont : Type 0 where
  list_sent : Cont
  item_sent : ℕ → Cont
  ack_sent : Cont

pub data Msg : Type 0 where
  list_msg : Msg
  request_msg : Bool → ℕ → Msg
  ack_msg : Msg

pub record Item (I : Type 0) : Type 0 where
  pub seq : ℕ
  pub content : I
  pub wire_message : Name

-- The count and the items of a finished download.
pub record Mission (I : Type 0) : Type 0 where
  pub count : ℕ
  pub items : List (Item I)

pub record Download (I : Type 0) : Type 0 where
  pub config : Config
  pub use_int : Bool
  pub downgraded : Bool
  pub count : ℕ
  pub items : List (Item I)
  pub expected_seq : ℕ
  pub base : Base Act Cont Msg (Mission I)

pub data Event (I : Type 0) : Type 0 where
  send_ends : ℕ → Bool → Event I
  timer_fires : Event I
  arrives : Payload I → Event I
  aborts : Event I

abbrev pub is_waiting_count : State → Bool
is_waiting_count waiting_count = true
is_waiting_count _ = false

abbrev pub is_waiting_item : State → Bool
is_waiting_item waiting_item = true
is_waiting_item _ = false

-- The acknowledgement is best effort: its end completes the download also when it failed.
abbrev pub goes_on : Option (Cont × List Cont) → Bool → Bool
goes_on (some (ack_sent, ks)) sent_ok = true
goes_on _ sent_ok = sent_ok

module _ {I : Type 0} where
  abbrev pub new_download : Config → List ℕ → ℕ → Download I
  new_download c link_subs next_sub = record {
    config = c;
    use_int = c.use_int;
    downgraded = false;
    count = 0;
    items = [];
    expected_seq = 0;
    base = new idle link_subs next_sub;
  }

  -- `_requestList`
  abbrev pub do_request_list : Download I → Download I
  do_request_list d = record d {
    base = send list_msg list_sent (record (d.base) { state = waiting_count });
  }

  unfoldable pub start : Download I → Download I
  start d =
      if d.config.mission_type == d.config.mission_type_all
      then record d { base = fail bad_mission_type d.base }
      else (if ltb 255 d.config.target_system
          then record d { base = fail bad_filter d.base }
          else do_request_list (record d { base = subscribe d.base }))

  -- A retry before the first item drops to the plain request, once.
  abbrev pub downgrades : Download I → Bool
  downgrades d = d.use_int && (ltb 0 d.base.retries && (is_empty d.items && not d.downgraded))

  abbrev pub send_item_request : ℕ → Download I → Download I
  send_item_request seq d = record d {
    base = send (request_msg d.use_int seq) (item_sent seq) d.base;
  }

  -- `_requestItem`
  abbrev pub do_request_item : ℕ → Download I → Download I
  do_request_item seq d = send_item_request seq (record d {
    expected_seq = seq;
    use_int = d.use_int && not (downgrades d);
    downgraded = if downgrades d then true else d.downgraded;
    base = record (d.base) { state = waiting_item };
  })

  -- `_finish`, up to the promise of its acknowledgement.
  abbrev pub do_finish : Download I → Download I
  do_finish d = record d { base = send ack_msg ack_sent (record (d.base) { state = sending_ack }) }

  abbrev pub on_ack : ℕ → Download I → Download I
  on_ack result d =
      if result == d.config.mission_accepted
      then d
      else record d { base = fail (rejected result) (clear_timeout d.base) }

  abbrev pub on_count : ℕ → Download I → Download I
  on_count n d =
      let e = record d { count = n; base = record (d.base) { timer = none; retries = 0 } } in
      if n == 0 then do_finish e else do_request_item 0 e

  abbrev pub extract_item : Payload I → Item I
  extract_item m = record { seq = m.seq; content = m.content; wire_message = m.name }

  abbrev pub on_item : Payload I → Download I → Download I
  on_item m d =
      if not (m.seq == d.expected_seq)
      then d
      else (let e = record d {
        items = d.items ++ (extract_item m ∷ []);
        base = record (d.base) { timer = none; retries = 0 };
      } in
          if leb d.count (suc m.seq) then do_finish e else do_request_item (suc m.seq) e)

  abbrev pub on_named : Name → Payload I → Download I → Download I
  on_named mission_ack m d = on_ack m.result d
  on_named mission_count m d = if is_waiting_count d.base.state then on_count m.count d else d
  on_named mission_item m d = if is_waiting_item d.base.state then on_item m d else d
  on_named mission_item_int m d = if is_waiting_item d.base.state then on_item m d else d
  on_named mission_request m d = d
  on_named mission_request_int m d = d

  abbrev pub on_screened : Screened → Payload I → Download I → Download I
  on_screened foreign m d = d
  on_screened too_old m d = record d { base = fail requires_mavlink2 d.base }
  on_screened ours m d = on_named m.name m d

  unfoldable pub on_message : Payload I → Download I → Download I
  on_message m d = on_screened (screen d.config m) m d

  -- The retransmission of a timer.
  abbrev pub act : Option Act → Download I → Download I
  act none d = d
  act (some request_list) d = do_request_list d
  act (some (request_item seq)) d = do_request_item seq d

  abbrev pub complete_download : Download I → Download I
  complete_download d = record d {
    base = succeed (record { count = d.count; items = d.items }) d.base;
  }

  -- What follows a send that went through.
  abbrev pub continue : Option Cont → Download I → Download I
  continue none d = d
  continue (some list_sent) d = record d { base = arm_timeout request_list d.base }
  continue (some (item_sent seq)) d = record d { base = arm_timeout (request_item seq) d.base }
  continue (some ack_sent) d = complete_download d

  -- Without a subscription no message arrives.
  unfoldable pub step : Download I → Event I → Download I
  step d (send_ends n sent_ok) =
      let sends = take_send n d.base.pending in
      let (k, b) = follow (goes_on sends sent_ok) sends d.base in continue k (record d { base = b })
  step d timer_fires =
      let (a, b) = on_timeout d.config.max_retries d.base in act a (record d { base = b })
  step d (arrives m) = if is_empty d.base.subs then d else on_message m d
  step d aborts = record d { base = abort d.base }

  unfoldable pub run : Download I → List (Event I) → Download I
  run d [] = d
  run d (ev ∷ evs) = run (step d ev) evs
