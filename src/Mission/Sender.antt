-- ===== src/Mission/Sender.antt =====
-- Which messages pass the tests at the head of the handlers of lib/mission/mission-state-machine.js.
use node_red_contrib_mavlink.Common.{◌≡◌, arith, if_cases, ◌&&◌, not}
use node_red_contrib_mavlink.Connection.{other_component}
use node_red_contrib_mavlink.Connection.Sender.{AnswersFor, Addresses, answers, addresses}
use node_red_contrib_mavlink.Mission.{
  Config, Payload, ours, screen, matches_target, addressed_to_us, match_mission_type,
}

-- A message from the vehicle, to us and for our mission type.
pub record Genuine {I : Type 0} (c : Config) (m : Payload I) : Type 0 where
  pub from_target : m.sysid ≡ c.target_system
  pub from_component : AnswersFor c.target_component m.compid
  pub to_system : Addresses c.source_system m.to_system
  pub to_component : Addresses c.source_component m.to_component
  pub same_type : m.mission_type ≡ c.mission_type

module _ {I : Type 0} (c : Config) (m : Payload I) where
  passed : (match_mission_type c m ≡ ours) → m.mission_type ≡ c.mission_type
  passed h = ground (arith, h)

  pub screen-Genuine : screen c m ≡ ours → Genuine c m
  unfolding screen
  screen-Genuine h =
      if_cases (λ q. q ≡ ours → Genuine c m)
        (matches_target c m
          && (not (other_component c.target_component m.compid) && addressed_to_us c m))
        (λ t k. record {
          from_target = ground (arith, t);
          from_component = answers c.target_component m.compid (ground (arith, t));
          to_system = addresses c.source_system m.to_system (ground (arith, t));
          to_component = addresses c.source_component m.to_component (ground (arith, t));
          same_type = passed k;
        })
        (λ t k. ground (arith, k)) h
