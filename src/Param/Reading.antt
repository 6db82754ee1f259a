-- ===== src/Param/Reading.antt =====
-- lib/param/param-workflow.js: the class ParamRead.
pub mod Answered
use node_red_contrib_mavlink.Common.{
  ℕ, Bool, true, false, not, Option, none, some, List, [], ◌∷◌, ◌==◌, ltb, if◌then◌else◌, is_empty,
}
use node_red_contrib_mavlink.Workflow.{new, subscribe, send}
use node_red_contrib_mavlink.Param.{
  Config, Value, Param, Event, send_ends, timer_fires, arrives, learns, aborts, Floats, Act, again,
  requested, project_param, is_ours, idle, requesting, Base, succeed, fail, timed_out, bad_filter,
  on_timeout, end_send, abort,
}

-- What is read: by name, where `param_index` is sent as -1, or by index; an index wins.
pub data Wanted : Type 0 where
  by_id : ℕ → Wanted
  by_index : ℕ → Wanted

pub record Reading (X : Type 0) : Type 0 where
  pub config : Config
  pub bytewise : Bool
  pub wanted : Wanted
  pub base : Base Wanted (Param X)

module _ {X : Type 0} where
  abbrev pub answers_to : Wanted → Value X → Bool
  answers_to (by_id id) v = v.id == id
  answers_to (by_index index) v = v.index == index

  -- `_request`
  abbrev pub request : Reading X → Reading X
  request d = record d { base = send d.wanted requested (record (d.base) { state = requesting }) }

  abbrev pub new_reading : Config → Bool → Wanted → List ℕ → ℕ → Reading X
  new_reading c bytewise wanted link_subs next_sub = record {
    config = c;
    bytewise = bytewise;
    wanted = wanted;
    base = new idle link_subs next_sub;
  }

  -- `_start`, where the subscription may throw.
  abbrev pub do_start : Reading X → Reading X
  do_start d =
      if ltb 255 d.config.target_system
      then record d { base = fail bad_filter d.base }
      else request (record d { base = subscribe d.base })

  unfoldable pub start : Config → Bool → Wanted → List ℕ → ℕ → Reading X
  start c bytewise wanted link_subs next_sub =
      do_start (new_reading c bytewise wanted link_subs next_sub)

  abbrev pub act : Option Act × Base Wanted (Param X) → Reading X → Reading X
  act (none, b) d = record d { base = b }
  act (some again, b) d = request (record d { base = b })

module _ {X : Type 0} (fl : Floats X) where
  unfoldable pub on_value : Value X → Reading X → Reading X
  on_value v d =
      if not (is_ours d.config v)
      then d
      else (if not (answers_to d.wanted v)
          then d
          else record d { base = succeed (project_param fl d.config d.bytewise v) d.base })

  -- Without a subscription no message arrives.
  unfoldable pub step : Reading X → Event X → Reading X
  step d (send_ends n sent_ok) = record d { base = end_send n sent_ok d.base }
  step d timer_fires = act (on_timeout (fail timed_out) d.config.max_retries d.base) d
  step d (arrives v) = if is_empty d.base.subs then d else on_value v d
  step d (learns bytewise) = record d { bytewise = bytewise }
  step d aborts = record d { base = abort d.base }

  unfoldable pub run : Reading X → List (Event X) → Reading X
  run d [] = d
  run d (ev ∷ evs) = run (step d ev) evs
