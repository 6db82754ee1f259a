-- ===== src/Routing.antt =====
-- lib/routing/route-table.js (RouteTable) and lib/routing/packet-router.js (PacketRouter). A profile
-- reference, what it resolves to and whether that is usable are parameters; a `resolveProfile`
-- that throws gives `none`. Route ids are read by `normalizeId`, so they are numbers or wildcards.
pub mod Best
pub mod Entries
pub mod Fallback
pub mod Workflow
pub mod Examples
use node_red_contrib_mavlink.Common.{
  ℕ, suc, ◌+◌, Bool, true, false, not, ◌&&◌, ◌||◌, Option, none, some, List, [], ◌∷◌, ltb, leb,
  ◌==◌, if◌then◌else◌, includes, is_empty,
}
use node_red_contrib_mavlink.StableSort.{sort}

pub data RouteId : Type 0 where
  wildcard : RouteId
  exact : ℕ → RouteId

-- An entry of the configuration: absent, blank or `*`, a number, or something else.
pub data Entry : Type 0 where
  any : Entry
  number : ℕ → Entry
  garbage : Entry

-- `none` is the error; a negative number is `garbage`.
unfoldable pub normalize_id : Entry → Option RouteId
normalize_id any = some wildcard
normalize_id (number n) = if ltb 255 n then none else some (exact n)
normalize_id garbage = none

module _ (Ref : Type 0) where
  -- An entry as it is configured.
  pub record RouteConfig : Type 0 where
    pub sysid : Entry
    pub compid : Entry
    pub profile : Ref

  pub record Route : Type 0 where
    pub sysid : RouteId
    pub compid : RouteId
    pub profile : Ref
    pub index : ℕ

-- Weights of an exact system and an exact component.
abbrev pub sys_weight : RouteId → ℕ
sys_weight wildcard = 0
sys_weight (exact n) = 2

abbrev pub comp_weight : RouteId → ℕ
comp_weight wildcard = 0
comp_weight (exact n) = 1

abbrev pub id_matches : RouteId → ℕ → Bool
id_matches wildcard id = true
id_matches (exact n) id = n == id

module _ {Ref : Type 0} where
  abbrev pub specificity : Route Ref → ℕ
  specificity r = sys_weight r.sysid + comp_weight r.compid

  abbrev make_route : Ref → ℕ → Option RouteId → Option RouteId → Option (Route Ref)
  make_route p i (some s) (some c) = some (record { sysid = s; compid = c; profile = p; index = i })
  make_route p i _ _ = none

  -- The normalised entry at an index.
  unfoldable pub read_route : ℕ → RouteConfig Ref → Option (Route Ref)
  read_route i r = make_route r.profile i (normalize_id r.sysid) (normalize_id r.compid)

  abbrev cons_route : Option (Route Ref) → Option (List (Route Ref)) → Option (List (Route Ref))
  cons_route (some r) (some rs) = some (r ∷ rs)
  cons_route _ _ = none

  -- The `map` over the entries from an index on.
  unfoldable pub read_routes : ℕ → List (RouteConfig Ref) → Option (List (Route Ref))
  read_routes i [] = some []
  read_routes i (c ∷ cs) = cons_route (read_route i c) (read_routes (suc i) cs)

  -- The comparator of the sort is not positive.
  unfoldable pub not_after : Route Ref → Route Ref → Bool
  not_after a b =
      if specificity a == specificity b
      then leb a.index b.index
      else ltb (specificity b) (specificity a)

  abbrev sort_routes : Option (List (Route Ref)) → Option (List (Route Ref))
  sort_routes none = none
  sort_routes (some rs) = some (sort not_after rs)

  -- The routes of a table, most specific first; `none` is a configuration error.
  unfoldable pub route_table : List (RouteConfig Ref) → Option (List (Route Ref))
  route_table cs = sort_routes (read_routes 0 cs)

  unfoldable pub matches : ℕ → ℕ → Route Ref → Bool
  matches sysid compid r = id_matches r.sysid sysid && id_matches r.compid compid

  unfoldable pub match_route : ℕ → ℕ → List (Route Ref) → Option (Route Ref)
  match_route sysid compid [] = none
  match_route sysid compid (r ∷ rs) =
      if matches sysid compid r then some r else match_route sysid compid rs

pub data Unmatched : Type 0 where
  reject : Unmatched
  default : Unmatched

pub data Reason : Type 0 where
  profile_unresolved : Reason
  profile_invalid : Reason
  unmatched_reject : Reason
  sysid_rejected : Reason
  compid_rejected : Reason

-- What a packet's routing gives: a profile (or none is configured), or a rejection. The reason that
-- an accepted packet carries for display is left out.
pub data Routed (Profile : Type 0) : Type 0 where
  accept : Option Profile → Routed Profile
  refuse : Reason → Routed Profile

-- An empty list of ids accepts everything.
unfoldable pub id_accepted : ℕ → List ℕ → Bool
id_accepted id [] = true
id_accepted id (x ∷ xs) = includes (x ∷ xs) id

abbrev any_nonzero : List ℕ → Bool
any_nonzero [] = false
any_nonzero (c ∷ cs) = not (c == 0) || any_nonzero cs

abbrev pub admits_real : List ℕ → Bool
admits_real cs = is_empty cs || any_nonzero cs

module _ (Ref Profile : Type 0) where
  pub record PacketRouter : Type 0 where
    pub routed : Bool
    pub default_profile : Option Profile
    pub accepted_sysids : List ℕ
    pub accepted_compids : List ℕ
    pub unmatched : Unmatched
    pub routes : List (Route Ref)

abbrev pub or_reason : Option Reason → Reason
or_reason none = unmatched_reject
or_reason (some why) = why

-- A route of component 0 admits no real responder, one of a shadowed component no further one.
abbrev pub skips : List ℕ → RouteId → Bool
skips shadowed wildcard = false
skips shadowed (exact c) = c == 0 || includes shadowed c

module _ {Profile : Type 0} where
  abbrev pub route_matched : Option Profile → Routed Profile
  route_matched none = refuse profile_unresolved
  route_matched (some p) = accept (some p)

  -- `this.unmatched === 'default' && this.defaultProfile`, or else a given rejection.
  abbrev pub fallback : Unmatched → Option Profile → Reason → Routed Profile
  fallback default (some p) why = accept (some p)
  fallback default none why = refuse why
  fallback reject d why = refuse why

  -- The scan at a blocked route: with any component it ends, else it goes on with that component
  -- shadowed.
  abbrev pub scan_blocked :
      Reason → RouteId → List ℕ → (List ℕ → Option Reason → Routed Profile) → Routed Profile
  scan_blocked why wildcard shadowed go_on = refuse why
  scan_blocked why (exact c) shadowed go_on = go_on (c ∷ shadowed) (some why)

  -- An accepted profile that is unusable is refused.
  abbrev pub check_usable : (Profile → Bool) → Routed Profile → Routed Profile
  check_usable usable (refuse why) = refuse why
  check_usable usable (accept none) = accept none
  check_usable usable (accept (some p)) =
      if usable p then accept (some p) else refuse profile_invalid

  -- The scan at a route that resolves to a profile, or to none.
  abbrev pub scan_route :
      (Profile → Bool)
      → Option Profile
      → RouteId
      → List ℕ
      → (List ℕ → Option Reason → Routed Profile)
      → Routed Profile
  scan_route usable none compid shadowed go_on =
      scan_blocked profile_unresolved compid shadowed go_on
  scan_route usable (some p) compid shadowed go_on =
      if usable p then accept (some p) else scan_blocked profile_invalid compid shadowed go_on

module _ {Ref Profile : Type 0} (resolve : Ref → Option Profile) where
  abbrev pub route_to : PacketRouter Ref Profile → Option (Route Ref) → Routed Profile
  route_to r none = fallback r.unmatched r.default_profile unmatched_reject
  route_to r (some m) = route_matched (resolve m.profile)

  -- `route`
  unfoldable pub route_packet : PacketRouter Ref Profile → ℕ → ℕ → Routed Profile
  route_packet r sysid compid =
      if r.routed
      then route_to r (match_route sysid compid r.routes)
      else (if not (id_accepted sysid r.accepted_sysids)
          then refuse sysid_rejected
          else (if not (id_accepted compid r.accepted_compids)
              then refuse compid_rejected
              else accept r.default_profile))

module _ {Ref Profile : Type 0} (resolve : Ref → Option Profile) (usable : Profile → Bool) where
  -- The scan for a responder of any component.
  unfoldable pub scan :
      PacketRouter Ref Profile → ℕ → List (Route Ref) → List ℕ → Option Reason → Routed Profile
  scan r sysid [] shadowed blocked = fallback r.unmatched r.default_profile (or_reason blocked)
  scan r sysid (m ∷ ms) shadowed blocked =
      if not (id_matches m.sysid sysid) || skips shadowed m.compid
      then scan r sysid ms shadowed blocked
      else scan_route usable (resolve m.profile) m.compid shadowed (λ sh b. scan r sysid ms sh b)

  unfoldable pub route_workflow_target : PacketRouter Ref Profile → ℕ → ℕ → Routed Profile
  route_workflow_target r sysid compid =
      if not (compid == 0)
      then check_usable usable (route_packet resolve r sysid compid)
      else (if r.routed
          then scan r sysid r.routes [] none
          else (if not (id_accepted sysid r.accepted_sysids)
              then refuse sysid_rejected
              else (if not (admits_real r.accepted_compids)
                  then refuse compid_rejected
                  else accept r.default_profile)))
