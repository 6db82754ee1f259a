-- ===== src/Fanout/Addressed.antt =====
-- To whom lib/swarm/fanout.js (buildFanout) addresses its messages.
use node_red_contrib_mavlink.Common.{
  ℕ, ◌≤◌, ◌≡◌, refl, sym, ap, ◌∙◌, Bool, true, false, not, ◌||◌, Option, none, some, List, [], ◌∷◌,
  map, arith, ltb, ◌==◌, includes, if_cases,
}
use node_red_contrib_mavlink.Fanout.{
  Result, ok, refused, Failure, Numbers, Target, Shared, Message, and_then, or_value, or_else,
  resolve_position, fields, build_target_message, check_targets, build_all, everyone, build_each,
  build_command, build_fanout, bad_target, invalid_field,
}

-- Real systems, none of them twice.
abbrev pub Fresh : List ℕ → List ℕ → Type 0
Fresh seen [] = Unit
Fresh seen (s ∷ ss) = (1 ≤ s) × (s ≤ 255) × (includes seen s ≡ false) × Fresh (s ∷ seen) ss

abbrev pub from_ok : {A : Type 0} → A → Result A → A
from_ok a (ok b) = b
from_ok a (refused f) = a

pub ok-injective : {A : Type 0} (a b : A) → ok a ≡ ok b → a ≡ b
ok-injective a b e = ap (from_ok a) e

pub refused-ok : {A : Type 0} (f : Failure) (a : A) → refused f ≡ ok a → ⊥
refused-ok f a e = ground (arith, e)

pub and_then-ok :
    {A B : Type 0} (r : Result A) (next : A → Result B) (b : B)
    → and_then r next ≡ ok b
    → (a : A) × (r ≡ ok a) × (next a ≡ ok b)
and_then-ok (ok a) next b e = (a, refl, e)
and_then-ok (refused f) next b e = absurd (refused-ok f b e)

module _ {V : Type 0} (nb : Numbers V) where
  message-system :
      (c : Shared V) (command : ℕ) (t : Target V) (m : Message V)
      → build_target_message nb c command t ≡ ok m
      → m.target_system ≡ t.sysid
  unfolding build_target_message
  message-system c command t m e =
      let component = or_value (or_else t.target_component c.default_component) 1 in
      let (p, e1, e2) = and_then-ok (resolve_position nb c t) _ m e in
      if_cases {A = Result (Message V)} (λ r. r ≡ ok m → m.target_system ≡ t.sysid)
        (ltb 255 component) (λ h k. absurd (refused-ok invalid_field m k))
        (λ h k.
          let (fs, e3, e4) = and_then-ok (fields nb c t p) _ m k in
          sym (ap (λ x. x.target_system) (ok-injective _ m e4)))
        e2

  all-systems :
      (c : Shared V) (command : ℕ) (ts : List (Target V)) (ms : List (Message V))
      → build_all nb c command ts ≡ ok ms
      → map (λ m. m.target_system) ms ≡ map (λ t. t.sysid) ts
  all-systems c command [] ms e = ap (map (λ m. m.target_system)) (sym (ok-injective [] ms e))
  all-systems c command (t ∷ ts) ms e =
      let (m, e1, e2) = and_then-ok (build_target_message nb c command t) _ ms e in
      let (rest, e3, e4) = and_then-ok (build_all nb c command ts) _ ms e2 in
      ap (map (λ x. x.target_system)) (sym (ok-injective (m ∷ rest) ms e4))
      ∙ ap (λ s. s ∷ map (λ x. x.target_system) rest) (message-system c command t m e1)
      ∙ ap (λ ss. t.sysid ∷ ss) (all-systems c command ts rest e3)

  check-Fresh :
      (seen : List ℕ) (ts us : List (Target V))
      → check_targets nb seen ts ≡ ok us
      → (us ≡ ts) × Fresh seen (map (λ t. t.sysid) ts)
  check-Fresh seen [] us e = (sym (ok-injective [] us e), tt)
  check-Fresh seen (t ∷ ts) us e =
      let Q : Result (List (Target V)) → Type 0 =
        λ r. r ≡ ok us → (us ≡ t ∷ ts) × Fresh seen (map (λ x. x.sysid) (t ∷ ts)) in
      if_cases {A = Result (List (Target V))} Q (ltb 255 t.sysid)
        (λ h k. absurd (refused-ok invalid_field us k))
        (λ g.
          if_cases {A = Result (List (Target V))} Q (t.sysid == 0 || includes seen t.sysid)
            (λ h k. absurd (refused-ok bad_target us k))
            (λ h k.
              let (rest, e1, e2) = and_then-ok (check_targets nb (t.sysid ∷ seen) ts) _ us k in
              let (same, fresh) = check-Fresh (t.sysid ∷ seen) ts rest e1 in
              (
                sym (ok-injective (t ∷ rest) us e2) ∙ ap (λ xs. t ∷ xs) same,
                (ground (arith, g, h), ground (arith, g, h), ground (arith, h), fresh),
              )))
        e

  -- What a fan-out is addressed to.
  abbrev pub Addressed : Bool → List (Target V) → List (Message V) → Type 0
  Addressed true ts ms = map (λ m. m.target_system) ms ≡ 0 ∷ []
  Addressed false ts ms =
      (map (λ m. m.target_system) ms ≡ map (λ t. t.sysid) ts) × Fresh [] (map (λ t. t.sysid) ts)

  each-Addressed :
      (c : Shared V) (command : ℕ) (ts : List (Target V)) (ms : List (Message V))
      → build_each nb c command ts ≡ ok ms
      → Addressed false ts ms
  each-Addressed c command [] ms e = absurd (refused-ok _ ms e)
  each-Addressed c command (t ∷ ts) ms e =
      let (us, e1, e2) = and_then-ok (check_targets nb [] (t ∷ ts)) _ ms e in
      let (same, fresh) = check-Fresh [] (t ∷ ts) us e1 in
      (all-systems c command us ms e2 ∙ ap (map (λ x. x.sysid)) same, fresh)

  command-Addressed :
      (c : Shared V) (broadcast : Bool) (ts : List (Target V)) (o : Option ℕ)
      (ms : List (Message V))
      → build_command nb c broadcast ts o ≡ ok ms
      → Addressed broadcast ts ms
  command-Addressed c broadcast ts none ms e = absurd (refused-ok _ ms e)
  command-Addressed c true ts (some command) ms e =
      if_cases {A = Result (List (Message V))} (λ r. r ≡ ok ms → Addressed true ts ms)
        (not (nb.is_command command)) (λ h k. absurd (refused-ok _ ms k))
        (λ h k.
          let (m, e1, e2) =
            and_then-ok
              (build_target_message nb (record c { default_component = some 0 }) command
                (everyone nb))
              _ ms k in
          ap (map (λ x. x.target_system)) (sym (ok-injective (m ∷ []) ms e2))
          ∙ ap (λ s. s ∷ [])
              (message-system (record c { default_component = some 0 }) command (everyone nb) m e1))
        e
  command-Addressed c false ts (some command) ms e =
      if_cases {A = Result (List (Message V))} (λ r. r ≡ ok ms → Addressed false ts ms)
        (not (nb.is_command command)) (λ h k. absurd (refused-ok _ ms k))
        (λ h k. each-Addressed c command ts ms k) e

  -- A broadcast that is built is one message to system 0. Any other fan-out that is built has one
  -- message for each target, in their order, and the targets are distinct systems of 1 to 255: so
  -- never is everyone addressed in place of a vehicle, and no vehicle twice.
  pub fanout-Addressed :
      (c : Shared V) (broadcast : Bool) (ts : List (Target V)) (ms : List (Message V))
      → build_fanout nb c broadcast ts ≡ ok ms
      → Addressed broadcast ts ms
  unfolding build_fanout
  fanout-Addressed c broadcast ts ms e = command-Addressed c broadcast ts c.command ms e
