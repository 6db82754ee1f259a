-- ===== src/Param/Setting.antt =====
-- lib/param/param-workflow.js: the class ParamSet.
pub mod Confirmed
pub mod Encodings
pub mod Range
pub mod Sent
use node_red_contrib_mavlink.Common.{
  ltb, ℕ, Bool, true, false, not, Option, none, some, List, [], ◌∷◌, ◌==◌, if◌then◌else◌, is_empty,
}
use node_red_contrib_mavlink.Workflow.{new, subscribe, send}
use node_red_contrib_mavlink.Param.Union.{View, in_range, union_int_to_bits}
use node_red_contrib_mavlink.Param.{
  bad_filter, Config, Num, whole, other, Value, Param, Event, send_ends, timer_fires, arrives,
  learns, aborts, Floats, Act, again, requested, same_num, project_param, union_view, is_ours, idle,
  requesting, Base, succeed, fail, timed_out, out_of_range, on_timeout, end_send, abort,
}

-- The constructor's options; `type_num` is `_paramTypeNum`.
pub record Target (X : Type 0) : Type 0 where
  pub id : ℕ
  pub value : Num X
  pub type_num : Option ℕ

-- The field param_value of a PARAM_SET as it is given to `send`: the number, which the codec writes as
-- a float32, or the float that carries these bits, which it writes from `exactFloatBits`.
pub data Wire (X : Type 0) : Type 0 where
  plain : Num X → Wire X
  union : ℕ → Wire X

pub record Request (X : Type 0) : Type 0 where
  pub id : ℕ
  pub value : Wire X
  pub type_num : Option ℕ

-- The payload of the result.
pub record Outcome (X : Type 0) : Type 0 where
  pub requested_value : Num X
  pub applied : Bool
  pub param : Param X

pub record Setting (X : Type 0) : Type 0 where
  pub config : Config
  pub bytewise : Bool
  pub target : Target X
  pub last_echo : Option (Param X)
  pub base : Base (Request X) (Outcome X)

-- A lookup in the policy under a type that may be unknown.
abbrev pub policy : Config → Option ℕ → Option View
policy c none = none
policy c (some type_num) = c.view type_num

-- The union of the request, when the parameter is one.
abbrev pub set_view_of : Config → Bool → Option ℕ → Option View
set_view_of c bytewise type_num = if bytewise then policy c type_num else none

module _ {X : Type 0} where
  -- The range test of `_start`: an integer type takes only integers, within its range.
  abbrev pub fits : Option View → Num X → Bool
  fits none value = true
  fits (some view) (whole z) = in_range view z
  fits (some view) (other x) = false

  abbrev pub wire_value : Floats X → Option View → Num X → Wire X
  wire_value fl none value = plain value
  wire_value fl (some view) (whole z) = union (union_int_to_bits (some view) z)
  wire_value fl (some view) (other x) = union (union_int_to_bits (some view) (fl.truncate x))

  -- Whether an echo tells the requested value: exactly for a union, as float32 otherwise.
  abbrev pub same_value : Floats X → Option View → Num X → Num X → Bool
  same_value fl none a b = same_num fl (fl.fround a) (fl.fround b)
  same_value fl (some view) a b = same_num fl a b

  unfoldable pub is_applied : Floats X → Config → Bool → Target X → Value X → Bool
  is_applied fl c bytewise t v =
      same_value fl (union_view c bytewise v.type_num) (project_param fl c bytewise v).value t.value

  -- `_complete`
  abbrev pub report : Bool → Param X → Setting X → Setting X
  report applied p d = record d {
    base =
        succeed (record { requested_value = d.target.value; applied = applied; param = p }) d.base;
  }

  -- `_fail` on the timeout: with an echo, that is the outcome.
  abbrev pub give_up :
      Num X → Option (Param X) → Base (Request X) (Outcome X) → Base (Request X) (Outcome X)
  give_up value none b = fail timed_out b
  give_up value (some p) b =
      succeed (record { requested_value = value; applied = false; param = p }) b

module _ {X : Type 0} (fl : Floats X) where
  -- `_request`
  abbrev pub request : Setting X → Setting X
  request d = record d {
    base =
        send
          (record {
            id = d.target.id;
            value =
                wire_value fl (set_view_of d.config d.bytewise d.target.type_num) d.target.value;
            type_num = d.target.type_num;
          })
          requested (record (d.base) { state = requesting });
  }

  abbrev pub new_setting : Config → Bool → Target X → List ℕ → ℕ → Setting X
  new_setting c bytewise t link_subs next_sub = record {
    config = c;
    bytewise = bytewise;
    target = t;
    last_echo = none;
    base = new idle link_subs next_sub;
  }

  unfoldable pub start : Setting X → Setting X
  start d =
      if fits (policy d.config d.target.type_num) d.target.value
      then (if ltb 255 d.config.target_system
          then record d { base = fail bad_filter d.base }
          else request (record d { base = subscribe d.base }))
      else record d { base = fail out_of_range d.base }

  unfoldable pub on_value : Value X → Setting X → Setting X
  on_value v d =
      if not (is_ours d.config v)
      then d
      else (if not (v.id == d.target.id)
          then d
          else (let p = project_param fl d.config d.bytewise v in
              if is_applied fl d.config d.bytewise d.target v
              then report true p d
              else record d { last_echo = some p }))

  abbrev pub act : Option Act × Base (Request X) (Outcome X) → Setting X → Setting X
  act (none, b) d = record d { base = b }
  act (some again, b) d = request (record d { base = b })

  -- Without a subscription no message arrives.
  unfoldable pub step : Setting X → Event X → Setting X
  step d (send_ends n sent_ok) = record d { base = end_send n sent_ok d.base }
  step d timer_fires =
      act (on_timeout (give_up d.target.value d.last_echo) d.config.max_retries d.base) d
  step d (arrives v) = if is_empty d.base.subs then d else on_value v d
  step d (learns bytewise) = record d { bytewise = bytewise }
  step d aborts = record d { base = abort d.base }

  unfoldable pub run : Setting X → List (Event X) → Setting X
  run d [] = d
  run d (ev ∷ evs) = run (step d ev) evs
