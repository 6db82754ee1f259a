-- ===== src/Routing/Best.antt =====
-- Which route lib/routing/route-table.js gives for a packet.
use node_red_contrib_mavlink.Common.{
  ℕ, ◌≡◌, subst, true, false, Option, none, some, List, [], ◌∷◌, arith, All, All-map, if_cases,
}
use mathlib.Core.Option.{some-injective}
use node_red_contrib_mavlink.StableSort.{sort, sort-IsSorted, IsSorted}
use node_red_contrib_mavlink.Routing.{
  RouteConfig, Route, read_routes, not_after, route_table, matches, match_route, sort_routes,
}

module _ {Ref : Type 0} where
  not_after_total : (x y : Route Ref) → not_after x y ≡ false → not_after y x ≡ true
  unfolding not_after
  not_after_total x y h = ground arith

  not_after_trans :
      (x y z : Route Ref) → not_after x y ≡ true → not_after y z ≡ true → not_after x z ≡ true
  unfolding not_after
  not_after_trans x y z h k = ground arith

  not_after_refl : (x : Route Ref) → not_after x x ≡ true
  unfolding not_after
  not_after_refl x = ground arith

  -- What `match` gives on sorted routes: the first in the order that matches, or none that does.
  abbrev pub Best : ℕ → ℕ → List (Route Ref) → Option (Route Ref) → Type 0
  Best sysid compid rs none = All (λ r. matches sysid compid r ≡ false) rs
  Best sysid compid rs (some m) =
      (matches sysid compid m ≡ true)
      × All (λ r. matches sysid compid r ≡ true → not_after m r ≡ true) rs

  -- An element put before a list does not change what is best in it.
  Best-cons :
      (sysid compid : ℕ) (r : Route Ref) (rs : List (Route Ref)) (o : Option (Route Ref))
      → matches sysid compid r ≡ false
      → Best sysid compid rs o
      → Best sysid compid (r ∷ rs) o
  Best-cons sysid compid r rs none h b = (h, b)
  Best-cons sysid compid r rs (some m) h b = (b.0, (λ k. ground arith, b.1))

  match_route-Best :
      (sysid compid : ℕ) (rs : List (Route Ref))
      → IsSorted not_after rs
      → Best sysid compid rs (match_route sysid compid rs)
  unfolding match_route
  match_route-Best sysid compid [] s = tt
  match_route-Best sysid compid (r ∷ rs) s =
      if_cases (Best sysid compid (r ∷ rs)) (matches sysid compid r)
        (λ h. (h, ((λ k. not_after_refl r), All-map _ _ (λ x k yes_match. k) rs s.0)))
        (λ h. Best-cons sysid compid r rs _ h (match_route-Best sysid compid rs s.1))

  sort_routes-IsSorted :
      (o : Option (List (Route Ref))) (rs : List (Route Ref))
      → sort_routes o ≡ some rs
      → IsSorted not_after rs
  sort_routes-IsSorted none rs e = ground arith
  sort_routes-IsSorted (some q) rs e =
      subst (IsSorted not_after) (some-injective (sort not_after q) rs e)
        (sort-IsSorted not_after not_after_total not_after_trans q)

  -- A packet is routed by a matching route such that no other matching route is more specific, or
  -- as specific and configured earlier; by none only if no route matches.
  pub route_table-Best :
      (cs : List (RouteConfig Ref)) (rs : List (Route Ref))
      → route_table cs ≡ some rs
      → (sysid compid : ℕ) → Best sysid compid rs (match_route sysid compid rs)
  unfolding route_table
  route_table-Best cs rs e sysid compid =
      match_route-Best sysid compid rs (sort_routes-IsSorted (read_routes 0 cs) rs e)
