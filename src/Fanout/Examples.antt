-- ===== src/Fanout/Examples.antt =====
-- Runs of lib/swarm/fanout.js at concrete inputs, with whole numbers for values.
use node_red_contrib_mavlink.Common.{ℕ, ◌*◌, refl, true, false, none, some, [], ◌∷◌, leb, ltb}
use node_red_contrib_mavlink.Fanout.{
  Numbers, Target, Shared, Fields, command_int, Message, build_fanout, build_target_message,
  resolve_position, int_fields,
}
use node_red_contrib_mavlink.Fanout.Addressed.{Addressed, fanout-Addressed}
use node_red_contrib_mavlink.Fanout.Held.{Holds, altitude-Holds}

-- 999 stands for NaN.
abbrev numbers : Numbers ℕ
numbers = record {
  is_finite = λ n. ltb n 999;
  is_int32 = λ n. true;
  is_latitude = λ n. leb n 90;
  is_longitude = λ n. leb n 180;
  deg_to_e7 = λ n. n * 10000000;
  ned_to_global = λ lat lon alt o. record { lat = some lat; lon = some lon; alt = alt };
  is_command = λ n. leb n 65535;
  is_frame = λ n. leb n 255;
  nan = 999;
  zero_value = 0;
  int32_max = 2147483647;
}

abbrev climb : ℕ → Target ℕ
climb sysid = record {
  sysid = sysid;
  target_component = none;
  param = λ i. none;
  frame = none;
  position = record { lat = none; lon = none; alt = some 50 };
  offset = record { north = none; east = none; up = none; down = none };
  x = none;
  y = none;
  z = none;
}

-- MAV_CMD_DO_REPOSITION
abbrev reposition : Shared ℕ
reposition = record {
  command = some 192;
  use_int = true;
  base_param = λ i. none;
  base_frame = some 6;
  origin = record { lat = none; lon = none; alt = none };
  default_component = some 1;
  global_frame = 0;
}

abbrev climb_fields : Fields ℕ
climb_fields = command_int 6 (λ i. 0) 2147483647 2147483647 50

abbrev climb_message : ℕ → Message ℕ
climb_message sysid = record {
  command = 192;
  target_system = sysid;
  target_component = 1;
  fields = climb_fields;
}

fanout-Addressed_example :
    Addressed numbers false (climb 4 ∷ climb 2 ∷ []) (climb_message 4 ∷ climb_message 2 ∷ [])
unfolding build_fanout build_target_message resolve_position int_fields
fanout-Addressed_example =
    fanout-Addressed numbers reposition false (climb 4 ∷ climb 2 ∷ [])
      (climb_message 4 ∷ climb_message 2 ∷ []) refl

altitude-Holds_example : Holds numbers climb_fields
unfolding build_target_message resolve_position int_fields
altitude-Holds_example = altitude-Holds numbers reposition 192 (climb 4) (climb_message 4) refl refl
