-- ===== src/Param/SetAuto.antt =====
-- lib/param/param-workflow.js: the class ParamSetAuto, which reads a parameter to learn its type and
-- then sets it. The await of its `run` is the event `resumes`.
pub mod Typed
use node_red_contrib_mavlink.Common.{ℕ, Bool, true, false, some, List, [], ◌∷◌, if◌then◌else◌}
use node_red_contrib_mavlink.Param.{
  Config, Num, Param, Event, aborts, Floats, Answer, done, failed_with, Failure, aborted,
}
use node_red_contrib_mavlink.Param.Reading.{Reading, by_id}
use node_red_contrib_mavlink.Param.Reading
use node_red_contrib_mavlink.Param.Setting.{Setting, Target, new_setting}
use node_red_contrib_mavlink.Param.Setting

-- The child that runs, or the error that `run` threw.
pub data Phase (X : Type 0) : Type 0 where
  reading : Reading X → Phase X
  setting : Setting X → Phase X
  thrown : Failure → Phase X

pub record SetAuto (X : Type 0) : Type 0 where
  pub id : ℕ
  pub value : Num X
  pub is_aborted : Bool
  pub phase : Phase X

pub data AutoEvent (X : Type 0) : Type 0 where
  child : Event X → AutoEvent X
  resumes : AutoEvent X

abbrev pub is_abort : {X : Type 0} → Event X → Bool
is_abort aborts = true
is_abort _ = false

module _ {X : Type 0} where
  -- The setter's options: the caller's, with the type that was read.
  abbrev pub target_of : ℕ → Num X → ℕ → Target X
  target_of id value type_num = record { id = id; value = value; type_num = some type_num }

module _ {X : Type 0} (fl : Floats X) where
  -- `run`, up to the await of the reader.
  unfoldable pub start : Config → Bool → ℕ → Num X → List ℕ → ℕ → SetAuto X
  start c bytewise id value link_subs next_sub = record {
    id = id;
    value = value;
    is_aborted = false;
    phase = reading (Reading.start c bytewise (by_id id) link_subs next_sub);
  }

  abbrev pub start_setter : Reading X → Param X → SetAuto X → Phase X
  start_setter r p d = setting (
      Setting.start fl (
        new_setting fl r.config r.bytewise (target_of d.id d.value p.type_num) r.base.link_subs
          r.base.next_sub))

  -- Behind the await: the reader's error, or the setter.
  abbrev pub after_read : List (Answer (Param X)) → Reading X → SetAuto X → Phase X
  after_read [] r d = reading r
  after_read (failed_with f ∷ rest) r d = thrown f
  after_read (done p ∷ rest) r d = if d.is_aborted then thrown aborted else start_setter r p d

  abbrev pub resume : Phase X → SetAuto X → Phase X
  resume (reading r) d = after_read r.base.answers r d
  resume (setting s) d = setting s
  resume (thrown f) d = thrown f

  abbrev pub step_child : Phase X → Event X → Phase X
  step_child (reading r) ev = reading (Reading.step fl r ev)
  step_child (setting s) ev = setting (Setting.step fl s ev)
  step_child (thrown f) ev = thrown f

  unfoldable pub step : SetAuto X → AutoEvent X → SetAuto X
  step d (child ev) = record d {
    is_aborted = if is_abort ev then true else d.is_aborted;
    phase = step_child d.phase ev;
  }
  step d resumes = record d { phase = resume d.phase d }

  unfoldable pub run : SetAuto X → List (AutoEvent X) → SetAuto X
  run d [] = d
  run d (ev ∷ evs) = run (step d ev) evs

module _ {X : Type 0} where
  abbrev pub events_of : List (AutoEvent X) → List (Event X)
  events_of [] = []
  events_of (child ev ∷ evs) = ev ∷ events_of evs
  events_of (resumes ∷ evs) = events_of evs
