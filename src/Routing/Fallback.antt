-- ===== src/Routing/Fallback.antt =====
-- When `route` of lib/routing/packet-router.js accepts a packet in routed mode, and under which
-- profile.
use node_red_contrib_mavlink.Common.{
  ℕ, ◌≡◌, refl, sym, ◌∙◌, true, Option, none, some, List, arith, ◌⊎◌, inl, inr, if-true,
}
use node_red_contrib_mavlink.Routing.{
  RouteConfig, Route, route_table, match_route, accept, Unmatched, Reason, default, reject,
  PacketRouter, route_matched, fallback, route_to, route_packet,
}
use node_red_contrib_mavlink.Routing.Best.{Best, route_table-Best}

module _ {Ref Profile : Type 0} (resolve : Ref → Option Profile) where
  -- Decoded under the profile of the best matching route.
  pub record ByRoute (r : PacketRouter Ref Profile) (sysid compid : ℕ) (o : Option Profile)
      : Type 0 where
    pub route : Route Ref
    pub best : Best sysid compid r.routes (some route)
    pub resolved : resolve route.profile ≡ o

  -- Decoded under the default profile, since no route matches and the policy allows it.
  pub record ByDefault (r : PacketRouter Ref Profile) (sysid compid : ℕ) (o : Option Profile)
      : Type 0 where
    pub none_matches : Best sysid compid r.routes none
    pub allowed : r.unmatched ≡ default
    pub is_default : r.default_profile ≡ o

  default_accepts :
      (u : Unmatched) (d o : Option Profile) (why : Reason)
      → fallback u d why ≡ accept o
      → (u ≡ default) × (d ≡ o)
  default_accepts default (some p) o why h = (refl, ground arith)
  default_accepts default none o why h = ground arith
  default_accepts reject d o why h = ground arith

  route_matched_accepts : (q o : Option Profile) → route_matched q ≡ accept o → q ≡ o
  route_matched_accepts (some p) o h = ground arith
  route_matched_accepts none o h = ground arith

  route_to_accepts :
      (r : PacketRouter Ref Profile) (sysid compid : ℕ) (o : Option Profile)
      (q : Option (Route Ref))
      → Best sysid compid r.routes q
      → route_to resolve r q ≡ accept o
      → ByRoute r sysid compid o ⊎ ByDefault r sysid compid o
  route_to_accepts r sysid compid o none b h =
      let (allowed, is_default) = default_accepts r.unmatched r.default_profile o _ h in
      inr (record { none_matches = b; allowed = allowed; is_default = is_default })
  route_to_accepts r sysid compid o (some m) b h =
      inl (record { route = m; best = b; resolved = route_matched_accepts (resolve m.profile) o h })

  -- In routed mode, over a table read from a configuration, a packet is accepted only under what
  -- the best matching route's profile resolves to, or, when no route matches and the policy is
  -- `default`, under the default profile. So a route whose profile does not resolve never falls
  -- back to the default.
  pub route_packet_accepts :
      (cs : List (RouteConfig Ref)) (r : PacketRouter Ref Profile) (sysid compid : ℕ)
      (o : Option Profile)
      → route_table cs ≡ some r.routes
      → r.routed ≡ true
      → route_packet resolve r sysid compid ≡ accept o
      → ByRoute r sysid compid o ⊎ ByDefault r sysid compid o
  unfolding route_packet
  route_packet_accepts cs r sysid compid o table mode h =
      route_to_accepts r sysid compid o (match_route sysid compid r.routes)
        (route_table-Best cs r.routes table sysid compid) (sym (if-true r.routed _ _ mode) ∙ h)
