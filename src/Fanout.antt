-- ===== src/Fanout.antt =====
-- lib/swarm/fanout.js: buildFanout. The inputs are numbers already (normalizeTarget's and
-- commandParam's tests of other JavaScript values are left out); what the module does with
-- floating-point numbers is a parameter, Numbers.
pub mod Addressed
pub mod Held
pub mod Examples
use node_red_contrib_mavlink.Common.{
  ℕ, Bool, true, false, not, ◌&&◌, ◌||◌, Option, none, some, List, [], ◌∷◌, ltb, ◌==◌, includes,
  if◌then◌else◌,
}

pub data Failure : Type 0 where
  no_command no_targets bad_target invalid_field bad_coordinates missing_origin bad_param : Failure

pub data Result (A : Type 0) : Type 0 where
  ok : A → Result A
  refused : Failure → Result A

-- A position; `none` is null.
pub record Position (V : Type 0) : Type 0 where
  pub lat : Option V
  pub lon : Option V
  pub alt : Option V

-- Meters to the north, the east, up and down.
pub record Offset (V : Type 0) : Type 0 where
  pub north : Option V
  pub east : Option V
  pub up : Option V
  pub down : Option V

-- The helpers of other modules and of the language: finiteness, the int32 range, the ranges of a
-- latitude and a longitude, `degToDegE7`, `nedOffsetToGlobal`, the tests of a command and a frame
-- against the dialect, and the numbers NaN, 0 and 0x7fffffff.
pub record Numbers (V : Type 0) : Type 0 where
  pub is_finite : V → Bool
  pub is_int32 : V → Bool
  pub is_latitude : V → Bool
  pub is_longitude : V → Bool
  pub deg_to_e7 : V → V
  pub ned_to_global : V → V → Option V → Offset V → Position V
  pub is_command : ℕ → Bool
  pub is_frame : ℕ → Bool
  pub nan : V
  pub zero_value : V
  pub int32_max : V

pub record Target (V : Type 0) : Type 0 where
  pub sysid : ℕ
  pub target_component : Option ℕ
  pub param : ℕ → Option V
  pub frame : Option ℕ
  pub position : Position V
  pub offset : Offset V
  pub x : Option V
  pub y : Option V
  pub z : Option V

-- The shared part: `base`, `origin`, `defaults` and the command.
pub record Shared (V : Type 0) : Type 0 where
  pub command : Option ℕ
  pub use_int : Bool
  pub base_param : ℕ → Option V
  pub base_frame : Option ℕ
  pub origin : Position V
  pub default_component : Option ℕ
  pub global_frame : ℕ

pub data Fields (V : Type 0) : Type 0 where
  command_int : ℕ → (param : ℕ → V) → (x y z : V) → Fields V
  command_long : (param : ℕ → V) → (param5 param6 param7 : V) → Fields V

pub record Message (V : Type 0) : Type 0 where
  pub command : ℕ
  pub target_system : ℕ
  pub target_component : ℕ
  pub fields : Fields V

abbrev pub and_then : {A B : Type 0} → Result A → (A → Result B) → Result B
and_then (ok a) next = next a
and_then (refused f) next = refused f

abbrev pub or_else : {A : Type 0} → Option A → Option A → Option A
or_else none o = o
or_else (some a) o = some a

abbrev pub or_value : {A : Type 0} → Option A → A → A
or_value none a = a
or_value (some b) a = b

abbrev pub is_given : {A : Type 0} → Option A → Bool
is_given none = false
is_given (some a) = true

abbrev pub check : {A : Type 0} → Bool → Failure → A → Result A
check true f a = ok a
check false f a = refused f

module _ {V : Type 0} (nb : Numbers V) where
  abbrev pub check_alt : Option V → Position V → Result (Option (Position V))
  check_alt none p = ok (some p)
  check_alt (some alt) p = check (nb.is_finite alt) bad_param (some p)

  abbrev pub has_offset : Offset V → Bool
  has_offset o = is_given o.north || (is_given o.east || (is_given o.up || is_given o.down))

  abbrev pub offset_from : Option V → Option V → Option V → Offset V → Result (Option (Position V))
  offset_from (some lat) (some lon) alt o = ok (some (nb.ned_to_global lat lon alt o))
  offset_from none lon alt o = refused missing_origin
  offset_from (some lat) none alt o = refused missing_origin

  -- Neither a latitude nor a longitude is given.
  abbrev pub other_position : Shared V → Target V → Result (Option (Position V))
  other_position c t =
      if has_offset t.offset
      then offset_from c.origin.lat c.origin.lon c.origin.alt t.offset
      else (if is_given t.position.alt
          then check_alt t.position.alt (record { lat = none; lon = none; alt = t.position.alt })
          else ok none)

  abbrev pub explicit_position :
      Shared V → Target V → Option V → Option V → Result (Option (Position V))
  explicit_position c t none none = other_position c t
  explicit_position c t none (some lon) = refused bad_coordinates
  explicit_position c t (some lat) none = refused bad_coordinates
  explicit_position c t (some lat) (some lon) =
      if nb.is_latitude lat && nb.is_longitude lon
      then check_alt t.position.alt
          (record { lat = some lat; lon = some lon; alt = t.position.alt })
      else refused bad_coordinates

  -- `resolvePosition`
  unfoldable pub resolve_position : Shared V → Target V → Result (Option (Position V))
  resolve_position c t = explicit_position c t t.position.lat t.position.lon

  -- The params of the target, else of the base, else 0.
  abbrev pub given_param : Shared V → Target V → ℕ → Option V
  given_param c t i = or_else (t.param i) (c.base_param i)

  abbrev pub params : Shared V → Target V → ℕ → V
  params c t i = or_value (given_param c t i) nb.zero_value

  -- `x` and `y` of a COMMAND_INT: the raw value, else the position, else the param, else the
  -- sentinel of a target that gives only an altitude, else 0.
  abbrev pub coordinate : (V → Bool) → Option V → Option V → Option V → Bool → Result V
  coordinate valid (some raw) deg param alt_only =
      if nb.is_finite raw then check (nb.is_int32 raw) bad_coordinates raw else refused bad_param
  coordinate valid none (some deg) param alt_only =
      check (nb.is_finite deg) bad_coordinates (nb.deg_to_e7 deg)
  coordinate valid none none (some param) alt_only =
      check (valid param) bad_coordinates (nb.deg_to_e7 param)
  coordinate valid none none none alt_only = ok (if alt_only then nb.int32_max else nb.zero_value)

  abbrev pub lat_of : Option (Position V) → Option V
  lat_of none = none
  lat_of (some p) = p.lat

  abbrev pub lon_of : Option (Position V) → Option V
  lon_of none = none
  lon_of (some p) = p.lon

  abbrev pub alt_of : Option (Position V) → Option V
  alt_of none = none
  alt_of (some p) = p.alt

  abbrev pub is_alt_only : Option (Position V) → Bool
  is_alt_only none = false
  is_alt_only (some p) = not (is_given p.lat)

  abbrev pub z_value : Option V → V → Result V
  z_value none z = ok z
  z_value (some z) other = check (nb.is_finite z) bad_param z

  unfoldable pub int_fields : Shared V → Target V → Option (Position V) → Result (Fields V)
  int_fields c t p =
      and_then (coordinate nb.is_latitude t.x (lat_of p) (given_param c t 5) (is_alt_only p)) (λ x.
        and_then (coordinate nb.is_longitude t.y (lon_of p) (given_param c t 6) (is_alt_only p))
          (λ y. and_then (z_value t.z (or_value (alt_of p) (params c t 7))) (λ z.
            let frame = or_value (or_else t.frame c.base_frame) c.global_frame in
            check (nb.is_frame frame) invalid_field (command_int frame (params c t) x y z))))

  -- Position in the params of a COMMAND_LONG: NaN is the sentinel there.
  abbrev pub long_param : Option V → Option V → Bool → V
  long_param (some deg) param alt_only = deg
  long_param none (some param) alt_only = param
  long_param none none alt_only = if alt_only then nb.nan else nb.zero_value

  unfoldable pub long_fields : Shared V → Target V → Option (Position V) → Result (Fields V)
  long_fields c t p = ok (
      command_long (params c t) (long_param (lat_of p) (given_param c t 5) (is_alt_only p))
        (long_param (lon_of p) (given_param c t 6) (is_alt_only p))
        (or_value (alt_of p) (params c t 7)))

  abbrev pub fields : Shared V → Target V → Option (Position V) → Result (Fields V)
  fields c t p = if c.use_int then int_fields c t p else long_fields c t p

  -- `buildTargetMessage`
  unfoldable pub build_target_message : Shared V → ℕ → Target V → Result (Message V)
  build_target_message c command t =
      let component = or_value (or_else t.target_component c.default_component) 1 in
      and_then (resolve_position c t) (λ p.
        if ltb 255 component
        then refused invalid_field
        else and_then (fields c t p) (λ fs. ok (record {
          command = command;
          target_system = t.sysid;
          target_component = component;
          fields = fs;
        })))

  -- The loop over the targets' system ids, with those that were seen.
  abbrev pub check_targets : List ℕ → List (Target V) → Result (List (Target V))
  check_targets seen [] = ok []
  check_targets seen (t ∷ ts) =
      let rest = check_targets (t.sysid ∷ seen) ts in
      if ltb 255 t.sysid
      then refused invalid_field
      else (if t.sysid == 0 || includes seen t.sysid
          then refused bad_target
          else and_then rest (λ us. ok (t ∷ us)))

  abbrev pub build_all : Shared V → ℕ → List (Target V) → Result (List (Message V))
  build_all c command [] = ok []
  build_all c command (t ∷ ts) =
      let rest = build_all c command ts in
      and_then (build_target_message c command t) (λ m. and_then rest (λ ms. ok (m ∷ ms)))

  -- The target of a broadcast.
  abbrev pub everyone : Target V
  everyone = record {
    sysid = 0;
    target_component = none;
    param = λ i. none;
    frame = none;
    position = record { lat = none; lon = none; alt = none };
    offset = record { north = none; east = none; up = none; down = none };
    x = none;
    y = none;
    z = none;
  }

  abbrev pub build_each : Shared V → ℕ → List (Target V) → Result (List (Message V))
  build_each c command [] = refused no_targets
  build_each c command (t ∷ ts) =
      and_then (check_targets [] (t ∷ ts)) (λ us. build_all c command us)

  abbrev pub build_command :
      Shared V → Bool → List (Target V) → Option ℕ → Result (List (Message V))
  build_command c broadcast targets none = refused no_command
  build_command c broadcast targets (some command) =
      if not (nb.is_command command)
      then refused invalid_field
      else (if broadcast
          then and_then
              (build_target_message (record c { default_component = some 0 }) command everyone)
              (λ m. ok (m ∷ []))
          else build_each c command targets)

  -- `buildFanout`
  unfoldable pub build_fanout : Shared V → Bool → List (Target V) → Result (List (Message V))
  build_fanout c broadcast targets = build_command c broadcast targets c.command
