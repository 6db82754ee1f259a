-- ===== src/Routing/Examples.antt =====
-- lib/routing/route-table.js and lib/routing/packet-router.js at concrete inputs.
use node_red_contrib_mavlink.Common.{
  ℕ, ◌≡◌, refl, Bool, true, Option, none, some, List, [], ◌∷◌, arith, ◌==◌, ltb, ◌≤◌, ◌<◌, ◌⊎◌,
  if◌then◌else◌,
}
use node_red_contrib_mavlink.StableSort.{sort, insert}
use node_red_contrib_mavlink.Routing.{
  Entry, any, number, RouteId, wildcard, exact, RouteConfig, Route, normalize_id, read_route,
  read_routes, not_after, route_table, matches, match_route, accept, refuse, default, PacketRouter,
  route_packet, route_workflow_target, scan, profile_unresolved,
}
use node_red_contrib_mavlink.Routing.Fallback.{ByRoute, ByDefault, route_packet_accepts}
use node_red_contrib_mavlink.Routing.Workflow.{
  broadcast_is_answered, broadcast_is_dead, Refused, Decodes,
}

abbrev entry : Entry → Entry → ℕ → RouteConfig ℕ
entry s c p = record { sysid = s; compid = c; profile = p }

abbrev route : RouteId → RouteId → ℕ → ℕ → Route ℕ
route s c p i = record { sysid = s; compid = c; profile = p; index = i }

-- Any packet, system 1, component 5 of system 1; profile 9 does not resolve.
abbrev configured : List (RouteConfig ℕ)
configured = entry any any 7 ∷ entry (number 1) any 8 ∷ entry (number 1) (number 5) 9 ∷ []

abbrev table : List (Route ℕ)
table =
    route (exact 1) (exact 5) 9 2 ∷ route (exact 1) wildcard 8 1 ∷ route wildcard wildcard 7 0 ∷ []

configured-table : route_table configured ≡ some table
unfolding route_table read_routes read_route normalize_id sort insert not_after
configured-table = refl

abbrev resolve : ℕ → Option ℕ
resolve n = if n == 9 then none else some n

abbrev usable : ℕ → Bool
usable n = ltb n 9

abbrev router : PacketRouter ℕ ℕ
router = record {
  routed = true;
  default_profile = some 0;
  accepted_sysids = [];
  accepted_compids = [];
  unmatched = default;
  routes = table;
}

-- The reply of component 5 is refused, that of another component decodes under profile 8.
packets_routed :
    (route_packet resolve router 1 5 ≡ refuse profile_unresolved)
    × (route_packet resolve router 1 6 ≡ accept (some 8))
    × (route_workflow_target resolve usable router 1 0 ≡ accept (some 8))
unfolding route_packet route_workflow_target scan match_route matches
packets_routed = (refl, refl, refl)

route_packet_accepts_example :
    ByRoute resolve router 1 6 (some 8) ⊎ ByDefault resolve router 1 6 (some 8)
route_packet_accepts_example =
    route_packet_accepts resolve configured router 1 6 (some 8) configured-table refl
      packets_routed.1

broadcast_is_answered_example :
    (c : ℕ) × (0 < c)
    × (c ≤ 255)
    × (route_packet resolve router 1 c ≡ accept (some 8))
    × Decodes resolve usable router 1 router.routes c (some 8)
broadcast_is_answered_example =
    broadcast_is_answered resolve usable router 1 (some 8) refl
      ((omega arith, omega arith), ((omega arith, tt), ((tt, tt), tt))) (omega arith)
      packets_routed.2

-- With a broken route for every component of system 1.
abbrev broken : PacketRouter ℕ ℕ
broken = record router { routes = route (exact 1) wildcard 9 0 ∷ [] }

broadcast_is_dead_example : Refused resolve usable broken 1 (route_packet resolve broken 1 6)
unfolding route_workflow_target scan
broadcast_is_dead_example =
    broadcast_is_dead resolve usable broken 1 profile_unresolved 6 refl (omega arith) refl
