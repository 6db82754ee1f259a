-- ===== src/Vehicles.antt =====
-- lib/swarm/vehicle-registry.js: VehicleRegistry. Clock readings are arguments; positions, batteries,
-- and the names of a snapshot are left out, and a filter gives types by number.
pub mod Tracked
pub mod Targets
pub mod Examples
use Prim.Native.Nat.{bit_and}
use node_red_contrib_mavlink.Common.{
  ℕ, ◌-◌, Bool, true, false, not, ◌&&◌, ◌||◌, Option, none, some, List, [], ◌∷◌, map, ltb, leb,
  ◌==◌, if◌then◌else◌, includes, pair_eq, nat_eq, keep,
}
use node_red_contrib_mavlink.JsMap.{get, set}
use node_red_contrib_mavlink.StableSort.{sort}

pub record Vehicle : Type 0 where
  pub sysid : ℕ
  pub compid : ℕ
  pub type_num : ℕ
  pub autopilot : ℕ
  pub base_mode : ℕ
  pub custom_mode : ℕ
  pub system_status : ℕ
  pub armed : Bool
  pub last_heartbeat : ℕ
  pub last_seen : ℕ
  pub position_updated_at : Option ℕ

-- The fields of a HEARTBEAT.
pub record Heartbeat : Type 0 where
  pub type_num : ℕ
  pub autopilot : ℕ
  pub base_mode : ℕ
  pub custom_mode : ℕ
  pub system_status : ℕ

pub data Body : Type 0 where
  heartbeat : Heartbeat → Body
  global_position_int local_position_ned sys_status other_message : Body

-- A decoded message; without both ids it is ignored.
pub record Payload : Type 0 where
  pub source : Option (ℕ × ℕ)
  pub body : Body

pub record Registry : Type 0 where
  pub stale_ms : ℕ
  pub expire_ms : ℕ
  pub include_gcs : Bool
  pub gcs_type : ℕ
  pub armed_flag : ℕ
  pub vehicles : List ((ℕ × ℕ) × Vehicle)

-- A filter: what is absent does not filter.
pub record Filter : Type 0 where
  pub include_stale : Option Bool
  pub sysids : Option (List ℕ)
  pub armed : Option Bool
  pub types : Option (List ℕ)

abbrev pub is_gcs : Registry → Body → Bool
is_gcs r (heartbeat h) = not r.include_gcs && h.type_num == r.gcs_type
is_gcs r _ = false

abbrev pub is_armed : ℕ → ℕ → Bool
is_armed flag base_mode = not (bit_and base_mode flag == 0)

-- What a HEARTBEAT makes of a vehicle that is already known, and of a new one.
abbrev pub beat : ℕ → ℕ → Heartbeat → Vehicle → Vehicle
beat flag now h v = record v {
  type_num = h.type_num;
  autopilot = h.autopilot;
  base_mode = h.base_mode;
  custom_mode = h.custom_mode;
  system_status = h.system_status;
  armed = is_armed flag h.base_mode;
  last_heartbeat = now;
  last_seen = now;
}

abbrev pub discovered : ℕ → ℕ → ℕ × ℕ → Heartbeat → Vehicle
discovered flag now (sysid, compid) h = record {
  sysid = sysid;
  compid = compid;
  type_num = h.type_num;
  autopilot = h.autopilot;
  base_mode = h.base_mode;
  custom_mode = h.custom_mode;
  system_status = h.system_status;
  armed = is_armed flag h.base_mode;
  last_heartbeat = now;
  last_seen = now;
  position_updated_at = none;
}

-- The switch of `ingest`, and `lastSeen`.
abbrev pub update : ℕ → ℕ → Body → Vehicle → Vehicle
update flag now (heartbeat h) v = beat flag now h v
update flag now global_position_int v = record v { last_seen = now; position_updated_at = some now }
update flag now local_position_ned v = record v { last_seen = now }
update flag now sys_status v = record v { last_seen = now }
update flag now other_message v = record v { last_seen = now }

abbrev pub store : ℕ × ℕ → Vehicle → Registry → Registry
store key v r = record r { vehicles = set r.vehicles key v }

-- Only a HEARTBEAT discovers a vehicle. The result: the vehicle, and whether it is new.
abbrev pub discover : ℕ → ℕ × ℕ → Body → Registry → (Option Vehicle × Bool) × Registry
discover now key (heartbeat h) r =
    let v = discovered r.armed_flag now key h in ((some v, true), store key v r)
discover now key global_position_int r = ((none, false), r)
discover now key local_position_ned r = ((none, false), r)
discover now key sys_status r = ((none, false), r)
discover now key other_message r = ((none, false), r)

abbrev pub ingest_known :
    ℕ → ℕ × ℕ → Body → Option Vehicle → Registry → (Option Vehicle × Bool) × Registry
ingest_known now key body none r = discover now key body r
ingest_known now key body (some known) r =
    let v = update r.armed_flag now body known in ((some v, false), store key v r)

abbrev pub ingest_from : ℕ → Body → Option (ℕ × ℕ) → Registry → (Option Vehicle × Bool) × Registry
ingest_from now body none r = ((none, false), r)
ingest_from now body (some key) r =
    if is_gcs r body then ((none, false), r) else ingest_known now key body (get r.vehicles key) r

-- `ingest`
unfoldable pub ingest : ℕ → Payload → Registry → (Option Vehicle × Bool) × Registry
ingest now p r = ingest_from now p.body p.source r

abbrev pub is_live : ℕ → ℕ → (ℕ × ℕ) × Vehicle → Bool
is_live now expire_ms (key, v) = not (ltb expire_ms (now - v.last_seen))

-- `_expire`
unfoldable pub expire : ℕ → Registry → Registry
expire now r =
    if r.expire_ms == 0
    then r
    else record r { vehicles = keep (is_live now r.expire_ms) r.vehicles }

abbrev pub is_stale : ℕ → Registry → Vehicle → Bool
is_stale now r v =
    ltb r.stale_ms (now - (if v.last_heartbeat == 0 then v.last_seen else v.last_heartbeat))

abbrev pub drops_stale : Option Bool → Bool
drops_stale (some false) = true
drops_stale _ = false

abbrev pub allows : Option (List ℕ) → ℕ → Bool
allows none n = true
allows (some ns) n = includes ns n

abbrev pub allows_armed : Option Bool → Bool → Bool
allows_armed none armed = true
allows_armed (some wanted) armed = if wanted then armed else not armed

-- The four tests of `vehicles`.
unfoldable pub selects : ℕ → Registry → Filter → Vehicle → Bool
selects now r f v =
    not (drops_stale f.include_stale && is_stale now r v)
    && (allows f.sysids v.sysid && (allows_armed f.armed v.armed && allows f.types v.type_num))

-- The comparison of the sort.
unfoldable pub id_le : Vehicle → Vehicle → Bool
id_le a b = ltb a.sysid b.sysid || (a.sysid == b.sysid && leb a.compid b.compid)

abbrev pub values : List ((ℕ × ℕ) × Vehicle) → List Vehicle
values [] = []
values ((key, v) ∷ m) = v ∷ values m

-- `Object.assign({}, groupSpec, filter)`: the filter's own entries win.
abbrev pub or_else : {A : Type 0} → Option A → Option A → Option A
or_else none b = b
or_else (some a) b = some a

abbrev pub merge : Filter → Filter → Filter
merge f group = record {
  include_stale = or_else f.include_stale group.include_stale;
  sysids = or_else f.sysids group.sysids;
  armed = or_else f.armed group.armed;
  types = or_else f.types group.types;
}

-- `vehicles` behind normalizeSysids, and the registry that `_expire` left.
unfoldable pub list_vehicles : ℕ → Filter → Registry → List Vehicle × Registry
list_vehicles now f r =
    let s = expire now r in (sort id_le (keep (selects now s f) (values s.vehicles)), s)

-- `normalizeSysids` of numbers: it throws on an empty list.
abbrev pub is_bad : Option (List ℕ) → Bool
is_bad (some []) = true
is_bad _ = false

-- `none` is the BAD_FILTER error.
abbrev pub list_checked : ℕ → Filter → Registry → Option (List Vehicle) × Registry
list_checked now f r =
    if is_bad f.sysids
    then (none, expire now r)
    else (let (vs, s) = list_vehicles now f r in (some vs, s))

abbrev pub list_known : ℕ → Filter → Option Filter → Registry → Option (List Vehicle) × Registry
list_known now f none r = (some [], expire now r)
list_known now f (some group) r = list_checked now (merge f group) r

-- `vehicles`, with the named groups; an unknown group targets nobody.
unfoldable pub list_group :
    ℕ → List (ℕ × Filter) → Option ℕ → Filter → Registry → Option (List Vehicle) × Registry
list_group now groups none f r = list_checked now f r
list_group now groups (some name) f r = list_known now f (get groups name) r

-- A `new Set` of numbers, spread into a list: first occurrences in order.
abbrev pub unique_after : List ℕ → List ℕ → List ℕ
unique_after seen [] = []
unique_after seen (x ∷ xs) =
    let rest = unique_after (x ∷ seen) xs in
    if includes seen x then unique_after seen xs else x ∷ rest

abbrev pub sysids_of : List Vehicle → List ℕ
sysids_of vs = unique_after [] (map (λ v. v.sysid) vs)

abbrev pub sysids_or_error : Option (List Vehicle) → Option (List ℕ)
sysids_or_error none = none
sysids_or_error (some vs) = some (sysids_of vs)

-- `sysids`
unfoldable pub list_sysids : ℕ → List (ℕ × Filter) → Option ℕ → Filter → Registry → Option (List ℕ)
list_sysids now groups group f r = sysids_or_error (list_group now groups group f r).0

-- The calls that change a registry.
pub data Call : Type 0 where
  ingests : ℕ → Payload → Call
  lists : ℕ → Call

unfoldable pub run : Registry → List Call → Registry
run r [] = r
run r (ingests now p ∷ calls) = run (ingest now p r).1 calls
run r (lists now ∷ calls) = run (expire now r) calls

abbrev pub new_registry : ℕ → ℕ → Bool → ℕ → ℕ → Registry
new_registry stale_ms expire_ms include_gcs gcs_type armed_flag = record {
  stale_ms = stale_ms;
  expire_ms = expire_ms;
  include_gcs = include_gcs;
  gcs_type = gcs_type;
  armed_flag = armed_flag;
  vehicles = [];
}
