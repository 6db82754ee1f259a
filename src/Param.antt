-- ===== src/Param.antt =====
-- lib/param/param-workflow.js: what ParamWorkflow has beyond Workflow, and projectParam. An id is an
-- opaque number (trimParamId and normalizeParamId are left out). A JavaScript number is an integer or
-- a number of a parameter type, whose comparison and rounding are parameters too.
pub mod Union
pub mod Heard
pub mod Listing
pub mod Reading
pub mod Setting
pub mod SetAuto
pub mod Examples
use node_red_contrib_mavlink.Connection.{other_component}
use node_red_contrib_mavlink.Common.{
  ℕ, Bool, false, not, ◌&&◌, Option, none, some, ◌==◌, if◌then◌else◌, ℤ, beq_ℤ,
}
use node_red_contrib_mavlink.Workflow.{
  Workflow, finish, clear_timeout, arm_timeout, fire_or, follow_or, take_send,
}
use node_red_contrib_mavlink.Param.Union.{View, union_bits_to_int}

-- PARAM_STATES
pub data State : Type 0 where
  idle requesting receiving complete failed : State

pub data Failure : Type 0 where
  timed_out aborted send_failed out_of_range bad_filter : Failure

pub data Answer (R : Type 0) : Type 0 where
  done : R → Answer R
  failed_with : Failure → Answer R

-- The retransmission that a timer calls, and what follows a send: each workflow has one of each.
pub data Act : Type 0 where
  again : Act

pub data Cont : Type 0 where
  requested : Cont

-- A JavaScript number: an integer, or one of the others.
pub data Num (X : Type 0) : Type 0 where
  whole : ℤ → Num X
  other : X → Num X

-- The floating-point operations of the language: `===` on numbers that are not integers,
-- `Math.fround`, the bits that `setFloat32` writes, and the integer that the integer setters take.
pub record Floats (X : Type 0) : Type 0 where
  pub same : X → X → Bool
  pub fround : Num X → Num X
  pub bits_of : Num X → ℕ
  pub truncate : X → ℤ

-- The options; `view` is the lookup in the policy that is built from the dialect's enum.
pub record Config : Type 0 where
  pub target_system : ℕ
  pub target_component : ℕ
  pub max_retries : ℕ
  pub view : ℕ → Option View

-- A decoded PARAM_VALUE; `bits` is what the normalizer attaches.
pub record Value (X : Type 0) : Type 0 where
  pub sysid : ℕ
  pub compid : Option ℕ
  pub id : ℕ
  pub value : Num X
  pub bits : Option ℕ
  pub type_num : ℕ
  pub index : ℕ
  pub param_count : ℕ

-- What projectParam makes of it.
pub record Param (X : Type 0) : Type 0 where
  pub id : ℕ
  pub value : Num X
  pub type_num : ℕ
  pub index : ℕ
  pub param_count : ℕ
  pub raw_value : Option (Num X)

-- The events of a workflow. `learns`: the resolver of the integer encoding answers otherwise now.
pub data Event (X : Type 0) : Type 0 where
  send_ends : ℕ → Bool → Event X
  timer_fires : Event X
  arrives : Value X → Event X
  learns : Bool → Event X
  aborts : Event X

-- The view of a type whose values are byte unions.
abbrev pub union_view : Config → Bool → ℕ → Option View
union_view c bytewise type_num = if bytewise then c.view type_num else none

module _ {X : Type 0} where
  -- `===`
  abbrev pub same_num : Floats X → Num X → Num X → Bool
  same_num fl (whole a) (whole b) = beq_ℤ a b
  same_num fl (other a) (other b) = fl.same a b
  same_num fl (whole a) (other b) = false
  same_num fl (other a) (whole b) = false

  abbrev pub bits_or_float : Floats X → Option ℕ → Num X → ℕ
  bits_or_float fl none value = fl.bits_of value
  bits_or_float fl (some bits) value = bits

  abbrev pub project_as : Floats X → Option View → Value X → Param X
  project_as fl none v = record {
    id = v.id;
    value = v.value;
    type_num = v.type_num;
    index = v.index;
    param_count = v.param_count;
    raw_value = none;
  }
  project_as fl (some view) v = record {
    id = v.id;
    value = whole (union_bits_to_int (some view) (bits_or_float fl v.bits v.value));
    type_num = v.type_num;
    index = v.index;
    param_count = v.param_count;
    raw_value = some v.value;
  }

  -- `projectParam`
  unfoldable pub project_param : Floats X → Config → Bool → Value X → Param X
  project_param fl c bytewise v = project_as fl (union_view c bytewise v.type_num) v

  abbrev pub is_ours : Config → Value X → Bool
  is_ours c v = v.sysid == c.target_system && not (other_component c.target_component v.compid)

-- The base of a parameter workflow with result `R`.
abbrev pub Base : Type 0 → Type 0 → Type 0
Base Msg R = Workflow State (Answer R) Act Cont Msg

module _ {Msg R : Type 0} where
  abbrev pub succeed : R → Base Msg R → Base Msg R
  succeed r b = finish complete (done r) b

  abbrev pub fail : Failure → Base Msg R → Base Msg R
  fail f b = finish failed (failed_with f) b

  -- The callback of the timer, up to the retransmission that it calls; `give_up` is `_fail`, which
  -- a subclass may override, on the timeout.
  abbrev pub on_timeout : (Base Msg R → Base Msg R) → ℕ → Base Msg R → Option Act × Base Msg R
  on_timeout give_up max_retries b = fire_or give_up max_retries b.timer (clear_timeout b)

  abbrev pub continue : Option Cont × Base Msg R → Base Msg R
  continue (none, b) = b
  continue (some requested, b) = arm_timeout again b

  -- A send ends, and its timer is armed if it went through.
  abbrev pub end_send : ℕ → Bool → Base Msg R → Base Msg R
  end_send n sent_ok b = continue (follow_or (fail send_failed) sent_ok (take_send n b.pending) b)

  abbrev pub abort : Base Msg R → Base Msg R
  abort b = fail aborted b
