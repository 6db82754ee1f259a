-- ===== src/Mission/Download/Examples.antt =====
-- Runs of lib/mission/mission-download.js at concrete inputs.
use node_red_contrib_mavlink.Common.{ℕ, ◌≡◌, refl, true, false, some, List, [], ◌∷◌, length, All}
use node_red_contrib_mavlink.Workflow.{finish}
use node_red_contrib_mavlink.Mission.{
  Config, Name, mission_count, mission_item_int, screen, on_timeout, done,
}
use node_red_contrib_mavlink.Mission.Download.{
  Item, Mission, Event, send_ends, timer_fires, arrives, new_download, start, on_message, step, run,
}
use node_red_contrib_mavlink.Mission.Download.Heard.{Arrived, Announced, Delivered}
use node_red_contrib_mavlink.Mission.Download.Ordered.{InOrder}
use node_red_contrib_mavlink.Mission.Download.Prompt.{download-InOrder}

abbrev config : Config
config = record {
  target_system = 1;
  target_component = 1;
  source_system = some 255;
  source_component = some 190;
  mission_accepted = 0;
  mission_type_mission = 0;
  mission_type_all = 255;
  mission_type = 0;
  use_int = true;
  max_retries = 3;
}

abbrev from_vehicle : Name → ℕ → ℕ → ℕ → Event ℕ
from_vehicle name seq count content = arrives (record {
  name = name;
  sysid = 1;
  compid = some 1;
  to_system = some 255;
  to_component = some 190;
  mission_type = 0;
  is_mavlink1 = false;
  seq = seq;
  count = count;
  result = 0;
  content = content;
})

abbrev item : ℕ → ℕ → Item ℕ
item seq content = record { seq = seq; content = content; wire_message = mission_item_int }

-- Two items, the second of them asked for twice.
abbrev transfer : List (Event ℕ)
transfer =
    send_ends 0 true
    ∷ from_vehicle mission_count 0 2 0
    ∷ send_ends 0 true
    ∷ from_vehicle mission_item_int 0 0 10
    ∷ send_ends 0 true
    ∷ timer_fires
    ∷ send_ends 0 true
    ∷ from_vehicle mission_item_int 1 0 20
    ∷ send_ends 0 false
    ∷ []

abbrev transferred : Mission ℕ
transferred = record { count = 2; items = item 0 10 ∷ item 1 20 ∷ [] }

download-InOrder_example :
    InOrder 0 transferred.items
    × (length transferred.items ≡ 2)
    × Announced config (λ m. Arrived m transfer) 2
    × All (Delivered config (λ m. Arrived m transfer)) transferred.items
unfolding start step run on_message screen on_timeout finish
download-InOrder_example = download-InOrder config [] 1 transfer transferred refl refl

-- A request for item 0 is sent again and is still under way when item 0 arrives; its end then arms
-- its own timer, which fires before the request for item 1 has been sent. Item 0 is asked for
-- again, and it is taken twice.
abbrev slow_link : List (Event ℕ)
slow_link =
    send_ends 0 true
    ∷ from_vehicle mission_count 0 2 0
    ∷ send_ends 0 true
    ∷ timer_fires
    ∷ from_vehicle mission_item_int 0 0 10
    ∷ send_ends 0 true
    ∷ timer_fires
    ∷ from_vehicle mission_item_int 0 0 10
    ∷ from_vehicle mission_item_int 1 0 20
    ∷ send_ends 0 true
    ∷ send_ends 0 true
    ∷ send_ends 0 true
    ∷ send_ends 0 true
    ∷ []

slow_link_twice :
    (run (start (new_download config [] 1)) slow_link).base.answers
    ≡ done (record { count = 2; items = item 0 10 ∷ item 0 10 ∷ item 1 20 ∷ [] }) ∷ []
unfolding start step run on_message screen on_timeout finish
slow_link_twice = refl
