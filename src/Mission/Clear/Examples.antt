-- ===== src/Mission/Clear/Examples.antt =====
-- A run of lib/mission/mission-clear.js at a concrete input.
use node_red_contrib_mavlink.Common.{ℕ, ◌≡◌, refl, true, false, some, List, [], ◌∷◌}
use node_red_contrib_mavlink.Workflow.{finish}
use node_red_contrib_mavlink.Mission.{Config, mission_ack, screen, on_timeout, end_send}
use node_red_contrib_mavlink.Mission.Clear.{
  Event, send_ends, timer_fires, arrives, start, on_ack, step, run,
}
use node_red_contrib_mavlink.Mission.Clear.Accepted.{Acceptance, Arrived, clear_was_accepted}

abbrev config : Config
config = record {
  target_system = 1;
  target_component = 1;
  source_system = some 255;
  source_component = some 190;
  mission_accepted = 0;
  mission_type_mission = 0;
  mission_type_all = 255;
  mission_type = 255;
  use_int = true;
  max_retries = 3;
}

abbrev ack_to : ℕ → Event ℕ
ack_to component = arrives (record {
  name = mission_ack;
  sysid = 1;
  compid = some 1;
  to_system = some 255;
  to_component = some component;
  mission_type = 255;
  is_mavlink1 = false;
  seq = 0;
  count = 0;
  result = 0;
  content = 0;
})

-- An acknowledgement for another station, a retransmission, and ours.
abbrev cleared : List (Event ℕ)
cleared = send_ends 0 true ∷ ack_to 7 ∷ timer_fires ∷ send_ends 0 true ∷ ack_to 190 ∷ []

clear_was_accepted_example : (◌≡◌ {A = ℕ} 0 0) × Acceptance config (λ m. Arrived m cleared)
unfolding start step run on_ack screen on_timeout end_send finish
clear_was_accepted_example = clear_was_accepted config [] 1 cleared 0 refl
