-- ===== src/Fanout/Held.antt =====
-- Targets that give an altitude alone: lib/swarm/fanout.js (buildTargetMessage).
use node_red_contrib_mavlink.Common.{
  ℕ, ◌≡◌, refl, sym, ap, ◌∙◌, subst, Bool, true, false, not, ◌&&◌, Option, none, some, arith, ltb,
  if◌then◌else◌, if_cases, if-true, if-false,
}
use node_red_contrib_mavlink.Fanout.{
  Result, ok, refused, Numbers, Target, Shared, Fields, command_int, command_long, Message,
  Position, or_value, or_else, is_given, has_offset, check_alt, explicit_position, resolve_position,
  given_param, coordinate, long_param, z_value, int_fields, long_fields, fields, params, check,
  build_target_message, invalid_field, bad_param,
}
use node_red_contrib_mavlink.Fanout.Addressed.{ok-injective, refused-ok, and_then-ok}

not-given : {A : Type 0} (o : Option A) → is_given o ≡ false → o ≡ none
not-given none h = refl
not-given (some a) h = ground (arith, h)

module _ {V : Type 0} (nb : Numbers V) where
  -- An altitude, and no other coordinate in any form.
  abbrev pub gives_altitude_only : Shared V → Target V → Bool
  gives_altitude_only c t =
      is_given t.position.alt
      && (not (is_given t.position.lat)
          && (not (is_given t.position.lon)
              && (not (has_offset nb t.offset)
                  && (not (is_given t.x)
                      && (not (is_given t.y)
                          && (not (is_given (given_param nb c t 5))
                              && not (is_given (given_param nb c t 6))))))))

  -- The sentinels that tell a vehicle to keep its position.
  abbrev pub Holds : Fields V → Type 0
  Holds (command_int frame param x y z) = (x ≡ nb.int32_max) × (y ≡ nb.int32_max)
  Holds (command_long param param5 param6 param7) = (param5 ≡ nb.nan) × (param6 ≡ nb.nan)

  abbrev height : Target V → Position V
  height t = record { lat = none; lon = none; alt = t.position.alt }

  check_alt-same :
      (alt : Option V) (p : Position V) (q : Option (Position V))
      → check_alt nb alt p ≡ ok q
      → q ≡ some p
  check_alt-same none p q e = sym (ok-injective (some p) q e)
  check_alt-same (some alt) p q e =
      if_cases {A = Result (Option (Position V))} (λ r. r ≡ ok q → q ≡ some p) (nb.is_finite alt)
        (λ h k. sym (ok-injective (some p) q k)) (λ h k. absurd (refused-ok bad_param q k))
        (check-if (nb.is_finite alt) bad_param (some p) ∙ e)
    where
      check-if :
          {A : Type 0} (b : Bool) (f : _) (a : A) → (if b then ok a else refused f) ≡ check b f a
      check-if true f a = refl
      check-if false f a = refl

  position-height :
      (c : Shared V) (t : Target V) (q : Option (Position V))
      → gives_altitude_only c t ≡ true
      → resolve_position nb c t ≡ ok q
      → q ≡ some (height t)
  unfolding resolve_position
  position-height c t q h e = check_alt-same t.position.alt (height t) q (
      sym (
        ap (λ o. explicit_position nb c t o t.position.lon)
          (not-given t.position.lat (ground (arith, h)))
        ∙ ap (λ o. explicit_position nb c t none o) (not-given t.position.lon (ground (arith, h)))
        ∙ if-false (has_offset nb t.offset) _ _ (ground (arith, h))
        ∙ if-true (is_given t.position.alt) _ _ (ground (arith, h)))
      ∙ e)

  coordinate-sentinel :
      (valid : V → Bool) (raw param : Option V) (x : V)
      → is_given raw ≡ false
      → is_given param ≡ false
      → coordinate nb valid raw none param true ≡ ok x
      → x ≡ nb.int32_max
  coordinate-sentinel valid none none x h k e = sym (ok-injective nb.int32_max x e)
  coordinate-sentinel valid none (some p) x h k e = ground (arith, k)
  coordinate-sentinel valid (some r) p x h k e = ground (arith, h)

  long_param-sentinel :
      (param : Option V) → is_given param ≡ false → long_param nb none param true ≡ nb.nan
  long_param-sentinel none h = refl
  long_param-sentinel (some p) h = ground (arith, h)

  int-Holds :
      (c : Shared V) (t : Target V) (fs : Fields V)
      → gives_altitude_only c t ≡ true
      → int_fields nb c t (some (height t)) ≡ ok fs
      → Holds fs
  unfolding int_fields
  int-Holds c t fs h e =
      let (x, e1, k1) =
        and_then-ok (coordinate nb nb.is_latitude t.x none (given_param nb c t 5) true) _ fs e in
      let (y, e2, k2) =
        and_then-ok (coordinate nb nb.is_longitude t.y none (given_param nb c t 6) true) _ fs k1 in
      let (z, e3, k3) =
        and_then-ok (z_value nb t.z (or_value t.position.alt (params nb c t 7))) _ fs k2 in
      checked x y z (nb.is_frame (or_value (or_else t.frame c.base_frame) c.global_frame))
        (coordinate-sentinel nb.is_latitude t.x (given_param nb c t 5) x (ground (arith, h))
          (ground (arith, h)) e1)
        (coordinate-sentinel nb.is_longitude t.y (given_param nb c t 6) y (ground (arith, h))
          (ground (arith, h)) e2)
        k3
    where
      checked :
          (x y z : V) (b : Bool)
          → x ≡ nb.int32_max
          → y ≡ nb.int32_max
          → check b invalid_field (
              command_int
                (or_value (or_else t.frame c.base_frame) c.global_frame)
                (params nb c t)
                x
                y
                z)
            ≡ ok fs
          → Holds fs
      checked x y z true ex ey k = subst Holds (ok-injective _ fs k) (ex, ey)
      checked x y z false ex ey k = absurd (refused-ok invalid_field fs k)

  long-Holds :
      (c : Shared V) (t : Target V) (fs : Fields V)
      → gives_altitude_only c t ≡ true
      → long_fields nb c t (some (height t)) ≡ ok fs
      → Holds fs
  unfolding long_fields
  long-Holds c t fs h e = subst Holds (ok-injective _ fs e) (
    long_param-sentinel (given_param nb c t 5) (ground (arith, h)),
    long_param-sentinel (given_param nb c t 6) (ground (arith, h)),
  )

  -- A message for a target that gives an altitude and no other coordinate, neither itself nor
  -- through the shared params, holds the vehicle's position: it carries the sentinel of its kind in
  -- both coordinates, and never a 0.
  pub altitude-Holds :
      (c : Shared V) (command : ℕ) (t : Target V) (m : Message V)
      → gives_altitude_only c t ≡ true
      → build_target_message nb c command t ≡ ok m
      → Holds m.fields
  unfolding build_target_message
  altitude-Holds c command t m h e =
      let component = or_value (or_else t.target_component c.default_component) 1 in
      let (p, e1, e2) = and_then-ok (resolve_position nb c t) _ m e in
      if_cases {A = Result (Message V)} (λ r. r ≡ ok m → Holds m.fields) (ltb 255 component)
        (λ k r. absurd (refused-ok invalid_field m r))
        (λ k r.
          let (fs, e3, e4) = and_then-ok (fields nb c t p) _ m r in
          subst Holds (ap (λ x. x.fields) (ok-injective _ m e4)) (
            if_cases {A = Result (Fields V)} (λ q. q ≡ ok fs → Holds fs) c.use_int
              (λ i. int-Holds c t fs h) (λ i. long-Holds c t fs h)
              (ap (λ q. fields nb c t q) (sym (position-height c t p h e1)) ∙ e3)))
        e2
