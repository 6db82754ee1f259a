-- ===== src/Mission/Upload/Examples.antt =====
-- Runs of lib/mission/mission-upload.js at concrete inputs.
use node_red_contrib_mavlink.Common.{
  ℕ, ◌≤◌, ◌≡◌, ◌⊎◌, refl, true, false, some, List, [], ◌∷◌, length, is_empty, if◌then◌else◌,
}
use node_red_contrib_mavlink.Workflow.{finish}
use node_red_contrib_mavlink.Mission.{
  Config, Name, mission_request, mission_request_int, mission_ack, screen, on_timeout, end_send,
  done, failed_with, stalled,
}
use node_red_contrib_mavlink.Mission.Upload.{
  count_msg, item_msg, start, on_message, Event, send_ends, timer_fires, arrives, step, run,
}
use node_red_contrib_mavlink.Mission.Upload.Sent.{LastSent}
use node_red_contrib_mavlink.Mission.Upload.Runs.{
  after, success-LastSent, sends_bounded, upload_settles_once,
}
use node_red_contrib_mavlink.Mission.Upload.Progress.{timer_runs, upload_never_stuck}

-- A mission for vehicle 1, autopilot 1, from ground station 255/190, with one retry.
abbrev config : Config
config = record {
  target_system = 1;
  target_component = 1;
  source_system = some 255;
  source_component = some 190;
  mission_accepted = 0;
  mission_type_mission = 0;
  mission_type_all = 255;
  mission_type = 0;
  use_int = true;
  max_retries = 1;
}

abbrev from_vehicle : Name → ℕ → ℕ → Event ℕ
from_vehicle name seq result = arrives (record {
  name = name;
  sysid = 1;
  compid = some 1;
  to_system = some 255;
  to_component = some 190;
  mission_type = 0;
  is_mavlink1 = false;
  seq = seq;
  count = 0;
  result = result;
  content = 0;
})

-- An early ACCEPTED, both items with a lost one in between, and the final ACCEPTED.
abbrev transfer : List (Event ℕ)
transfer =
    send_ends 0 true
    ∷ from_vehicle mission_ack 0 0
    ∷ from_vehicle mission_request_int 0 0
    ∷ send_ends 0 true
    ∷ timer_fires
    ∷ send_ends 0 true
    ∷ from_vehicle mission_request 1 0
    ∷ send_ends 0 true
    ∷ from_vehicle mission_ack 0 0
    ∷ []

transferred :
    ((after config (10 ∷ 20 ∷ []) [] 1 transfer).base.answers ≡ done 2 ∷ [])
    × ((after config (10 ∷ 20 ∷ []) [] 1 transfer).base.sent
        ≡ item_msg false 1 20 ∷ item_msg true 0 10 ∷ item_msg true 0 10 ∷ count_msg 2 ∷ [])
unfolding start step run on_message screen on_timeout end_send finish
transferred = (refl, refl)

success-LastSent_example :
    (◌≡◌ {A = ℕ} 2 2)
    × LastSent (10 ∷ 20 ∷ []) (after config (10 ∷ 20 ∷ []) [] 1 transfer).base.sent
success-LastSent_example = success-LastSent config (10 ∷ 20 ∷ []) [] 1 transfer 2 transferred.0

-- A vehicle that asks for item 0 again and again.
abbrev broken_vehicle : List (Event ℕ)
broken_vehicle =
    from_vehicle mission_request 0 0
    ∷ from_vehicle mission_request 0 0
    ∷ from_vehicle mission_request 0 0
    ∷ from_vehicle mission_request 0 0
    ∷ []

broken_vehicle_stalls :
    (after config (10 ∷ []) [] 1 broken_vehicle).base.answers ≡ failed_with stalled ∷ []
unfolding start step run on_message screen finish
broken_vehicle_stalls = refl

sends_bounded_example : length (after config (10 ∷ []) [] 1 broken_vehicle).base.sent ≤ 6
sends_bounded_example = sends_bounded config (10 ∷ []) [] 1 broken_vehicle

upload_settles_once_example :
    length (after config (10 ∷ []) [] 1 broken_vehicle).base.answers
    ≡ (if (after config (10 ∷ []) [] 1 broken_vehicle).base.settled then 1 else 0)
upload_settles_once_example = (upload_settles_once config (10 ∷ []) [] 1 broken_vehicle).0

upload_never_stuck_example :
    (is_empty (after {I = ℕ} config (10 ∷ []) [] 1 (send_ends 0 true ∷ [])).base.pending ≡ false)
    ⊎ (timer_runs (after {I = ℕ} config (10 ∷ []) [] 1 (send_ends 0 true ∷ [])).base.timer ≡ true)
unfolding start step run end_send
upload_never_stuck_example =
    upload_never_stuck {I = ℕ} config (10 ∷ []) [] 1 (send_ends 0 true ∷ []) refl
