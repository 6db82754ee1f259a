-- ===== src/Udp/Learned.antt =====
-- Where lib/transport/udp-transport.js sends, after any confirmed packets.
use node_red_contrib_mavlink.Common.{
  ℕ, ◌<◌, ◌≡◌, ◌⊎◌, refl, ◌∙◌, Bool, true, false, ◌&&◌, Option, none, some, List, [], ◌∷◌, arith,
  Eq, nat_eq, if◌then◌else◌, if_cases, ◌==◌,
}
use mathlib.Core.Option.{some-injective}
use node_red_contrib_mavlink.JsMap.{get}
use node_red_contrib_mavlink.JsMap.Laws.{get-set}
use node_red_contrib_mavlink.Udp.{
  Endpoint, Peers, untargeted, to_system, valid_destination, replaces, confirm_peer, values,
  seen_endpoint, dedupe_from, targets, broadcast_targets,
}

module _ {A : Type 0} (blank : A → Bool) where
  abbrev pub confirm_all : List (ℕ × Endpoint A) → Peers A → Peers A
  confirm_all [] s = s
  confirm_all ((sys, p) ∷ ps) s = confirm_all ps (confirm_peer blank sys p s)

  -- The endpoint of a system's last valid packet, or else one known before.
  abbrev pub last_of : ℕ → List (ℕ × Endpoint A) → Option (Endpoint A) → Option (Endpoint A)
  last_of i [] o = o
  last_of i ((sys, p) ∷ ps) o =
      last_of i ps (if (sys == i) && valid_destination blank p then some p else o)

  get-confirm_peer :
      (i sys : ℕ) (p : Endpoint A) (s : Peers A)
      → get (confirm_peer blank sys p s).peers_by_sysid i
        ≡ (if (sys == i) && valid_destination blank p then some p else get s.peers_by_sysid i)
  unfolding confirm_peer
  get-confirm_peer i sys p s = ground (arith, get-set s.peers_by_sysid sys i p)

  get-confirm_all :
      (i : ℕ) (ps : List (ℕ × Endpoint A)) (s : Peers A)
      → get (confirm_all ps s).peers_by_sysid i ≡ last_of i ps (get s.peers_by_sysid i)
  get-confirm_all i [] s = refl
  get-confirm_all i ((sys, p) ∷ ps) s =
      rw (get-confirm_all i ps (confirm_peer blank sys p s), get-confirm_peer i sys p s)

  -- The fallback peer, when there is one, is a vehicle's.
  abbrev pub IsVehicle : Option (ℕ × Endpoint A) → Type 0
  IsVehicle none = ⊥
  IsVehicle (some (sys, p)) = sys < 250

  IsVehicle-stays :
      (o : Option (ℕ × Endpoint A)) (sys : ℕ) (p : Endpoint A)
      → IsVehicle o
      → IsVehicle (if replaces sys o then some (sys, p) else o)
  IsVehicle-stays none sys p h = ground arith
  IsVehicle-stays (some (held, q)) sys p h =
      if_cases IsVehicle (replaces sys (some (held, q))) (λ r. ground arith) (λ r. h)

  confirm_peer-IsVehicle :
      (sys : ℕ) (p : Endpoint A) (s : Peers A)
      → IsVehicle s.learned
      → IsVehicle (confirm_peer blank sys p s).learned
  unfolding confirm_peer
  confirm_peer-IsVehicle sys p s h =
      if_cases (λ (t : Peers A). IsVehicle t.learned) (valid_destination blank p)
        (λ good. IsVehicle-stays s.learned sys p h) (λ bad. h)

  confirm_all-IsVehicle :
      (ps : List (ℕ × Endpoint A)) (s : Peers A)
      → IsVehicle s.learned
      → IsVehicle (confirm_all ps s).learned
  confirm_all-IsVehicle [] s h = h
  confirm_all-IsVehicle ((sys, p) ∷ ps) s h =
      confirm_all-IsVehicle ps (confirm_peer blank sys p s) (confirm_peer-IsVehicle sys p s h)

  vehicle_replaces : (o : Option (ℕ × Endpoint A)) (sys : ℕ) → sys < 250 → replaces sys o ≡ true
  vehicle_replaces none sys h = refl
  vehicle_replaces (some (held, q)) sys h = ground arith

  -- Once a packet of a vehicle was confirmed from a usable endpoint, the fallback peer is a
  -- vehicle's, whatever ground stations and vehicles are confirmed later.
  pub fallback-IsVehicle :
      (sys : ℕ) (p : Endpoint A) (s : Peers A) (later : List (ℕ × Endpoint A))
      → sys < 250
      → valid_destination blank p ≡ true
      → IsVehicle (confirm_all later (confirm_peer blank sys p s)).learned
  unfolding confirm_peer
  fallback-IsVehicle sys p s later h good =
      confirm_all-IsVehicle later (confirm_peer blank sys p s) (
        if_cases (λ (t : Peers A). IsVehicle t.learned) (valid_destination blank p)
          (λ _.
            if_cases IsVehicle (replaces sys s.learned) (λ r. h)
              (λ r. ground (arith, vehicle_replaces s.learned sys h)))
          (λ bad. ground arith))

module _ {A : Type 0} ⦃e : Eq (A × ℕ)⦄ where
  -- No endpoint stands twice.
  abbrev pub Distinct : List (Endpoint A) → Type 0
  Distinct [] = Unit
  Distinct (p ∷ ps) = (seen_endpoint ps p ≡ false) × Distinct ps

  dedupe_from-fresh :
      (seen ps : List (Endpoint A)) (q : Endpoint A)
      → seen_endpoint seen q ≡ true
      → seen_endpoint (dedupe_from seen ps) q ≡ false
  dedupe_from-fresh seen [] q h = refl
  dedupe_from-fresh seen (p ∷ ps) q h =
      if_cases (λ (xs : List (Endpoint A)). seen_endpoint xs q ≡ false) (seen_endpoint seen p)
        (λ old. dedupe_from-fresh seen ps q h)
        (λ new. ground (arith, e.beq_iff p q, dedupe_from-fresh (p ∷ seen) ps q))

  dedupe_from-Distinct : (seen ps : List (Endpoint A)) → Distinct (dedupe_from seen ps)
  dedupe_from-Distinct seen [] = tt
  dedupe_from-Distinct seen (p ∷ ps) =
      if_cases Distinct (seen_endpoint seen p) (λ old. dedupe_from-Distinct seen ps)
        (λ new. (
          dedupe_from-fresh (p ∷ seen) ps p (ground (arith, e.beq_iff p p)),
          dedupe_from-Distinct (p ∷ seen) ps,
        ))

  dedupe_from-keeps :
      (seen ps : List (Endpoint A)) (q : Endpoint A)
      → seen_endpoint ps q ≡ true
      → (seen_endpoint seen q ≡ true) ⊎ (seen_endpoint (dedupe_from seen ps) q ≡ true)
  dedupe_from-keeps seen [] q h = ground arith
  dedupe_from-keeps seen (p ∷ ps) q h =
      if_cases
        (λ (xs : List (Endpoint A)). (seen_endpoint seen q ≡ true) ⊎ (seen_endpoint xs q ≡ true))
        (seen_endpoint seen p) (λ old. ground (arith, e.beq_iff p q, dedupe_from-keeps seen ps q))
        (λ new. ground (arith, e.beq_iff p q, dedupe_from-keeps (p ∷ seen) ps q))

  values-get :
      (m : List (ℕ × Endpoint A)) (i : ℕ) (p : Endpoint A)
      → get m i ≡ some p
      → seen_endpoint (values m) p ≡ true
  unfolding get
  values-get [] i p h = ground arith
  values-get ((j, q) ∷ m) i p h =
      ground (arith, e.beq_iff q p, some-injective q p, values-get m i p)

  confirm_peer-remote :
      (blank : A → Bool) (sys : ℕ) (p : Endpoint A) (s : Peers A)
      → (confirm_peer blank sys p s).remote ≡ s.remote
  unfolding confirm_peer
  confirm_peer-remote blank sys p s =
      if_cases (λ (t : Peers A). t.remote ≡ s.remote) (valid_destination blank p) (λ good. refl)
        (λ bad. refl)

  confirm_all-remote :
      (blank : A → Bool) (ps : List (ℕ × Endpoint A)) (s : Peers A)
      → (confirm_all blank ps s).remote ≡ s.remote
  confirm_all-remote blank [] s = refl
  confirm_all-remote blank ((sys, p) ∷ ps) s =
      confirm_all-remote blank ps (confirm_peer blank sys p s) ∙ confirm_peer-remote blank sys p s

  -- What the targets of a send to all owe to a known endpoint.
  abbrev pub Reaches : Endpoint A → List (Endpoint A) → Type 0
  Reaches p es = Distinct es × (seen_endpoint es p ≡ true)

  broadcast-Reaches :
      (t : Peers A) (m : List (ℕ × Endpoint A)) (i : ℕ) (p : Endpoint A)
      → get m i ≡ some p
      → Reaches p (broadcast_targets t m)
  unfolding get
  broadcast-Reaches t [] i p h = ground arith
  broadcast-Reaches t ((j, q) ∷ m) i p h = (
    dedupe_from-Distinct [] (q ∷ values m),
    ground (arith, dedupe_from-keeps [] (q ∷ values m) p (values-get ((j, q) ∷ m) i p h)),
  )

  -- Without a manual remote, an untargeted send and one to system 0 go to the endpoint of the last
  -- valid packet of every system that was confirmed, and to no endpoint twice.
  pub targets-Reaches :
      (blank : A → Bool) (ps : List (ℕ × Endpoint A)) (s : Peers A) (i : ℕ) (p : Endpoint A)
      → s.remote ≡ none
      → last_of blank i ps (get s.peers_by_sysid i) ≡ some p
      → Reaches p (targets (confirm_all blank ps s) untargeted)
        × Reaches p (targets (confirm_all blank ps s) (to_system 0))
  unfolding targets
  targets-Reaches blank ps s i p none_set h =
      let t = confirm_all blank ps s in
      let b = broadcast-Reaches t t.peers_by_sysid i p (get-confirm_all blank i ps s ∙ h) in
      rw (confirm_all-remote blank ps s ∙ none_set) (b, b)

  -- Without a manual remote, a send to a system goes to the endpoint of its last valid packet alone.
  pub unicast_to_last :
      (blank : A → Bool) (ps : List (ℕ × Endpoint A)) (s : Peers A) (i : ℕ) (p : Endpoint A)
      → s.remote ≡ none
      → last_of blank i ps (get s.peers_by_sysid i) ≡ some p
      → (i == 0) ≡ false
      → targets (confirm_all blank ps s) (to_system i) ≡ p ∷ []
  unfolding targets
  unicast_to_last blank ps s i p none_set h nonzero =
      rw (confirm_all-remote blank ps s ∙ none_set, nonzero, get-confirm_all blank i ps s ∙ h)
