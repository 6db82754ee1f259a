-- ===== src/Vehicles/Examples.antt =====
-- Runs of lib/swarm/vehicle-registry.js at concrete inputs.
use node_red_contrib_mavlink.Common.{
  ℕ, ◌≡◌, refl, true, false, ◌&&◌, none, some, List, [], ◌∷◌, map, All, ◌==◌, tally,
}
use node_red_contrib_mavlink.JsMap.{get, set}
use node_red_contrib_mavlink.StableSort.{sort, insert}
use node_red_contrib_mavlink.Vehicles.{
  heartbeat, sys_status, Body, Payload, Registry, Filter, expire, selects, id_le, values,
  list_vehicles, list_sysids, list_group, ingest, Call, ingests, lists, run, new_registry,
}
use node_red_contrib_mavlink.Vehicles.Tracked.{Told, Ingested, listed-Told}
use node_red_contrib_mavlink.Vehicles.Targets.{
  listed_exactly, is_recent, is_wanted, Ordered, Targets, sysids-Ascending,
}

abbrev from : ℕ → ℕ → Body → Payload
from sysid compid body = record { source = some (sysid, compid); body = body }

abbrev beat_of : ℕ → ℕ → Body
beat_of type_num base_mode = heartbeat (record {
  type_num = type_num;
  autopilot = 3;
  base_mode = base_mode;
  custom_mode = 4;
  system_status = 4;
})

-- Vehicle 2 is armed, a camera of it beats too, 1 is disarmed and falls silent, 255 is a ground
-- station, and 7 sends no heartbeat.
abbrev calls : List Call
calls =
    ingests 100 (from 2 1 (beat_of 2 209))
    ∷ ingests 110 (from 1 1 (beat_of 2 81))
    ∷ ingests 120 (from 255 190 (beat_of 6 0))
    ∷ ingests 130 (from 7 1 sys_status)
    ∷ ingests 140 (from 2 100 (beat_of 30 0))
    ∷ lists 150
    ∷ ingests 40000 (from 2 1 sys_status)
    ∷ ingests 40010 (from 2 100 (beat_of 30 0))
    ∷ []

abbrev registry : Registry
registry = run (new_registry 5000 30000 false 6 128) calls

abbrev everything : Filter
everything = record { include_stale = none; sysids = none; armed = none; types = none }

abbrev armed_only : Filter
armed_only = record everything { armed = some true }

abbrev cameras : Filter
cameras = record everything { types = some (30 ∷ []) }

-- Group 3 is every camera.
abbrev groups : List (ℕ × Filter)
groups = (3, cameras) ∷ []

listed-Told_example :
    All
      (Told false 6 128 (λ key h. Ingested key h calls))
      (list_vehicles 40020 everything registry).0
listed-Told_example = listed-Told 5000 30000 false 6 128 calls 40020 everything

listed_exactly_example :
    Ordered (list_vehicles 40020 armed_only registry).0
    × (tally (λ v. v.sysid == 2) (list_vehicles 40020 armed_only registry).0
        ≡ tally
            (λ v.
              is_recent 40020 registry.expire_ms v
              && (is_wanted 40020 registry.stale_ms armed_only v && v.sysid == 2))
            (values registry.vehicles))
listed_exactly_example = listed_exactly 40020 armed_only registry (λ v. v.sysid == 2)

sysids-Ascending_example :
    Targets
      (list_sysids 40020 groups (some 3) everything registry)
      (list_group 40020 groups (some 3) everything registry).0
sysids-Ascending_example = sysids-Ascending 40020 groups (some 3) everything registry

targets_then :
    list_sysids 150 [] none everything (run (new_registry 5000 30000 false 6 128) calls)
    ≡ some (1 ∷ 2 ∷ [])
unfolding run ingest get set expire list_sysids list_group list_vehicles selects sort insert id_le
targets_then = refl

-- The silent vehicle is gone, and the one without a fresh heartbeat is stale.
targets_now : list_sysids 40020 [] none everything registry ≡ some (2 ∷ [])
unfolding run ingest get set expire list_sysids list_group list_vehicles selects sort insert id_le
targets_now = refl

-- One vehicle of system 2 is armed and a camera of it is not.
armed_now : map (λ v. v.compid) (list_vehicles 40020 armed_only registry).0 ≡ 1 ∷ []
unfolding run ingest get set expire list_vehicles selects sort insert id_le
armed_now = refl

cameras_now : map (λ v. v.compid) (list_vehicles 40020 cameras registry).0 ≡ 100 ∷ []
unfolding run ingest get set expire list_vehicles selects sort insert id_le
cameras_now = refl

unknown_group : (list_group 40020 [] (some 9) everything registry).0 ≡ some []
unfolding list_group get
unknown_group = refl

empty_filter : (list_group 40020 [] none (record everything { sysids = some [] }) registry).0 ≡ none
unfolding list_group
empty_filter = refl
