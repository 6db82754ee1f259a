-- ===== src/Param/Listing.antt =====
-- lib/param/param-workflow.js: the class ParamList.
pub mod Ascending
pub mod Finished
pub mod Complete
pub mod Requests
use node_red_contrib_mavlink.StableSort.{sort}
use node_red_contrib_mavlink.Common.{
  ltb, ℕ, zero, suc, Bool, false, not, Option, none, some, List, [], ◌∷◌, leb, ◌==◌, if◌then◌else◌,
  is_empty, nat_eq,
}
use node_red_contrib_mavlink.JsMap.{has, set, size}
use node_red_contrib_mavlink.Workflow.{new, subscribe, send, arm_timeout}
use node_red_contrib_mavlink.Param.{
  bad_filter, Config, Value, Param, Event, send_ends, timer_fires, arrives, learns, aborts, Floats,
  Act, again, requested, project_param, is_ours, State, idle, requesting, receiving, Base, succeed,
  fail, timed_out, on_timeout, end_send, abort,
}

-- PARAM_INDEX_NONE
abbrev pub param_index_none : ℕ
param_index_none = 65535

pub data Request : Type 0 where
  request_list : Request
  request_index : ℕ → Request

-- The payload of the result.
pub record Params (X : Type 0) : Type 0 where
  pub count : ℕ
  pub params : List (Param X)

-- The fields; `received` is a Map from an index to the raw message.
pub record Listing (X : Type 0) : Type 0 where
  pub config : Config
  pub bytewise : Bool
  pub count : Option ℕ
  pub received : List (ℕ × Value X)
  pub base : Base Request (Params X)

-- The comparison of `_finish`'s sort.
abbrev pub index_le : {X : Type 0} → Param X → Param X → Bool
index_le p q = leb p.index q.index

abbrev pub or_size : Option ℕ → ℕ → ℕ
or_size none n = n
or_size (some count) n = count

abbrev pub is_full : Option ℕ → ℕ → Bool
is_full none n = false
is_full (some count) n = leb count n

module _ {X : Type 0} where
  abbrev pub request : State → Request → Listing X → Listing X
  request state q d = record d { base = send q requested (record (d.base) { state = state }) }

  abbrev pub new_listing : Config → Bool → List ℕ → ℕ → Listing X
  new_listing c bytewise link_subs next_sub = record {
    config = c;
    bytewise = bytewise;
    count = none;
    received = [];
    base = new idle link_subs next_sub;
  }

  -- `_start`, where the subscription may throw.
  abbrev pub do_start : Listing X → Listing X
  do_start d =
      if ltb 255 d.config.target_system
      then record d { base = fail bad_filter d.base }
      else request requesting request_list (record d { base = subscribe d.base })

  unfoldable pub start : Config → Bool → List ℕ → ℕ → Listing X
  start c bytewise link_subs next_sub = do_start (new_listing c bytewise link_subs next_sub)

  -- The loop of `_firstMissingIndex`, with `n` rounds left from index `i`.
  abbrev pub first_missing : List (ℕ × Value X) → ℕ → ℕ → Option ℕ
  first_missing received i zero = none
  first_missing received i (suc n) =
      if has received i then first_missing received (suc i) n else some i

  -- A value under a new index is kept, and the retries start again.
  abbrev pub receive : Value X → Listing X → Listing X
  receive v d = if has d.received v.index then d else record d {
    received = set d.received v.index v;
    base = record (d.base) { retries = 0; state = receiving };
  }

module _ {X : Type 0} (fl : Floats X) where
  abbrev pub project_all : Config → Bool → List (ℕ × Value X) → List (Param X)
  project_all c bytewise [] = []
  project_all c bytewise ((i, v) ∷ vs) = project_param fl c bytewise v ∷ project_all c bytewise vs

  -- `_finish`
  abbrev pub finish_list : Listing X → Listing X
  finish_list d = record d {
    base =
        succeed
          (record {
            count = or_size d.count (size d.received);
            params = sort index_le (project_all d.config d.bytewise d.received);
          })
          d.base;
  }

  abbrev pub request_missing : Option ℕ → Listing X → Listing X
  request_missing none d = finish_list d
  request_missing (some i) d = request receiving (request_index i) d

  -- `_onStall`
  abbrev pub on_stall : Option ℕ → Listing X → Listing X
  on_stall none d = request requesting request_list d
  on_stall (some count) d = request_missing (first_missing d.received 0 count) d

  abbrev pub settle : Listing X → Listing X
  settle d =
      if is_full d.count (size d.received)
      then finish_list d
      else record d { base = arm_timeout again d.base }

  unfoldable pub on_value : Value X → Listing X → Listing X
  on_value v d =
      if not (is_ours d.config v)
      then d
      else (if v.index == param_index_none
          then d
          else settle (receive v (record d { count = some v.param_count })))

  abbrev pub act : Option Act × Base Request (Params X) → Listing X → Listing X
  act (none, b) d = record d { base = b }
  act (some again, b) d = on_stall d.count (record d { base = b })

  -- Without a subscription no message arrives.
  unfoldable pub step : Listing X → Event X → Listing X
  step d (send_ends n sent_ok) = record d { base = end_send n sent_ok d.base }
  step d timer_fires = act (on_timeout (fail timed_out) d.config.max_retries d.base) d
  step d (arrives v) = if is_empty d.base.subs then d else on_value v d
  step d (learns bytewise) = record d { bytewise = bytewise }
  step d aborts = record d { base = abort d.base }

  unfoldable pub run : Listing X → List (Event X) → Listing X
  run d [] = d
  run d (ev ∷ evs) = run (step d ev) evs
