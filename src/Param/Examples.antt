-- ===== src/Param/Examples.antt =====
-- Runs of lib/param/param-workflow.js at concrete inputs. Every number is an integer here.
use node_red_contrib_mavlink.Workflow.{finish}
use node_red_contrib_mavlink.Param.Heard.{Arrived}
use node_red_contrib_mavlink.Param.Listing.{Params}
use node_red_contrib_mavlink.Param.Listing.Ascending.{InOrder}
use node_red_contrib_mavlink.Param.Listing.Complete.{list_complete}
use node_red_contrib_mavlink.Param.Listing.Requests.{requests_bounded}
use node_red_contrib_mavlink.Param.Reading.{by_id}
use node_red_contrib_mavlink.Common.{
  ℕ, ◌+◌, ◌*◌, ◌≤◌, ◌≡◌, refl, true, false, Option, none, some, List, [], ◌∷◌, length, ℤ, pos,
  negsuc, All, ◌==◌, if◌then◌else◌,
}
use node_red_contrib_mavlink.Param.{
  Config, whole, Floats, Value, Param, Event, send_ends, timer_fires, arrives, learns, requesting,
  requested, failed_with, out_of_range, project_param,
}
use node_red_contrib_mavlink.Param.Union.{
  View, int8, int32, union_int_to_bits, union_bits_to_int, set_view, get_view,
}
use node_red_contrib_mavlink.Param.Listing
use node_red_contrib_mavlink.Param.Setting.{Target, Outcome, new_setting, is_applied}
use node_red_contrib_mavlink.Param.Setting
use node_red_contrib_mavlink.Param.Setting.Confirmed.{Echo, outcome_was_heard}
use node_red_contrib_mavlink.Param.Setting.Encodings.{Learned}
use node_red_contrib_mavlink.Param.Setting.Sent.{Tells, sent-Tells}
use node_red_contrib_mavlink.Param.Setting.Range.{misfit_is_refused}
use node_red_contrib_mavlink.Param.Reading
use node_red_contrib_mavlink.Param.SetAuto.{child, resumes, events_of}
use node_red_contrib_mavlink.Param.SetAuto
use node_red_contrib_mavlink.Param.SetAuto.Typed.{TypeRead, auto-TypeRead}
use node_red_contrib_mavlink.StableSort.{sort, insert}
use node_red_contrib_mavlink.JsMap.{has, set}

-- Integers only: the other numbers are left uninhabited.
abbrev integers : Floats ⊥
integers = record { same = λ a b. false; fround = λ x. x; bits_of = λ x. 0; truncate = λ a. pos 0 }

-- MAV_PARAM_TYPE_INT8 is 2 and MAV_PARAM_TYPE_INT32 is 6.
abbrev view_of : ℕ → Option View
view_of n = if n == 2 then some int8 else (if n == 6 then some int32 else none)

abbrev config : Config
config = record { target_system = 1; target_component = 1; max_retries = 1; view = view_of }

abbrev value : ℕ → ℕ → ℕ → ℕ → Value ⊥
value id bits index count = record {
  sysid = 1;
  compid = some 1;
  id = id;
  value = whole (pos 0);
  bits = some bits;
  type_num = 6;
  index = index;
  param_count = count;
}

-- Three parameters that come out of order, the first of them only when it is asked for again.
abbrev stream : List (Event ⊥)
stream =
    send_ends 0 true
    ∷ arrives (value 12 7 2 3)
    ∷ arrives (value 99 5 65535 3)
    ∷ arrives (value 11 6 1 3)
    ∷ timer_fires
    ∷ send_ends 0 true
    ∷ learns true
    ∷ arrives (value 10 4294967295 0 3)
    ∷ []

abbrev param_at : ℕ → ℤ → ℕ → Param ⊥
param_at id n index = record {
  id = id;
  value = whole n;
  type_num = 6;
  index = index;
  param_count = 3;
  raw_value = some (whole (pos 0));
}

abbrev stream_params : Params ⊥
stream_params = record {
  count = 3;
  params = param_at 10 (negsuc 0) 0 ∷ param_at 11 (pos 6) 1 ∷ param_at 12 (pos 7) 2 ∷ [];
}

list_complete_example :
    (stream_params.count ≡ 3) × InOrder 0 stream_params.params × (length stream_params.params ≡ 3)
unfolding Listing.start Listing.run Listing.step Listing.on_value finish sort insert has set
    project_param union_bits_to_int get_view
list_complete_example = list_complete integers config 3 false [] 1 stream stream_params refl refl

requests_bounded_example :
    (length (Listing.run integers (Listing.start config false [] 1) stream).base.sent
      ≤ (config.max_retries + 1)
        * (1 + length (Listing.run integers (Listing.start config false [] 1) stream).received))
    × (length (Listing.run integers (Listing.start config false [] 1) stream).base.answers ≤ 1)
requests_bounded_example = requests_bounded integers config false [] 1 stream

abbrev minus_one : Target ⊥
minus_one = record { id = 10; value = whole (negsuc 0); type_num = some 6 }

-- The old value is told first; the retransmission is confirmed.
abbrev confirmed : List (Event ⊥)
confirmed =
    send_ends 0 true
    ∷ arrives (value 10 4 0 1)
    ∷ timer_fires
    ∷ send_ends 0 true
    ∷ arrives (value 10 4294967295 0 1)
    ∷ []

abbrev confirmed_outcome : Outcome ⊥
confirmed_outcome = record {
  requested_value = whole (negsuc 0);
  applied = true;
  param = record {
    id = 10;
    value = whole (negsuc 0);
    type_num = 6;
    index = 0;
    param_count = 1;
    raw_value = some (whole (pos 0));
  };
}

outcome_was_heard_example :
    (confirmed_outcome.requested_value ≡ minus_one.value)
    × Echo integers config minus_one (λ v. Arrived v confirmed) true confirmed_outcome.param
    × (true ≡ false
        → 1
          ≤ (Setting.run integers
              (Setting.start integers (new_setting integers config true minus_one [] 1))
              confirmed).base.retries)
unfolding Setting.start Setting.run Setting.step Setting.on_value finish is_applied project_param
    union_bits_to_int get_view
outcome_was_heard_example =
    outcome_was_heard integers config minus_one true [] 1 confirmed confirmed_outcome refl

sent-Tells_example :
    All
      (Tells config minus_one (λ b. Learned true b confirmed))
      (Setting.run integers
        (Setting.start integers (new_setting integers config true minus_one [] 1))
        confirmed).base.sent
sent-Tells_example = sent-Tells integers config minus_one true [] 1 confirmed

abbrev too_large : Target ⊥
too_large = record { id = 10; value = whole (pos 300); type_num = some 2 }

misfit_is_refused_example :
    ((Setting.run integers
        (Setting.start integers (new_setting integers config true too_large [] 1))
        confirmed).base.sent
      ≡ [])
    × ((Setting.run integers
          (Setting.start integers (new_setting integers config true too_large [] 1))
          confirmed).base.answers
        ≡ failed_with out_of_range ∷ [])
misfit_is_refused_example =
    misfit_is_refused integers config too_large int8 true [] 1 confirmed refl refl

abbrev answered : List (Event ⊥)
answered = send_ends 0 true ∷ arrives (value 11 3 1 2) ∷ arrives (value 10 9 0 2) ∷ []

abbrev answer : Param ⊥
answer = record {
  id = 10;
  value = whole (pos 9);
  type_num = 6;
  index = 0;
  param_count = 2;
  raw_value = some (whole (pos 0));
}

abbrev auto_events : List (SetAuto.AutoEvent ⊥)
auto_events =
    child (send_ends 0 true)
    ∷ child (arrives (value 10 9 0 2))
    ∷ resumes
    ∷ child (send_ends 0 true)
    ∷ child timer_fires
    ∷ []

abbrev set_request : Setting.Request ⊥
set_request = record { id = 10; value = Setting.union 5; type_num = some 6 }

abbrev auto_setter : Setting.Setting ⊥
auto_setter = record {
  config = config;
  bytewise = true;
  target = record { id = 10; value = whole (pos 5); type_num = some 6 };
  last_echo = none;
  base = record {
    state = requesting;
    subs = 2 ∷ [];
    timer = none;
    retries = 1;
    settled = false;
    answers = [];
    sent = set_request ∷ set_request ∷ [];
    pending = requested ∷ [];
    link_subs = 2 ∷ [];
    next_sub = 3;
  };
}

auto-TypeRead_example :
    TypeRead integers config 10
      (whole (pos 5))
      (λ v. Arrived v (events_of auto_events))
      (λ b. Learned true b (events_of auto_events))
      auto_setter
unfolding SetAuto.start SetAuto.run SetAuto.step Reading.start Reading.step Reading.on_value
    Setting.start Setting.step finish project_param union_bits_to_int union_int_to_bits set_view
    get_view
auto-TypeRead_example =
    auto-TypeRead integers config 10 (whole (pos 5)) true [] 1 auto_events auto_setter refl
