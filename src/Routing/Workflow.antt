-- ===== src/Routing/Workflow.antt =====
-- routeWorkflowTarget of lib/routing/packet-router.js against the routing of the replies: the scan
-- for component 0, and what `route` does to the packets of real components.
use node_red_contrib_mavlink.Common.{
  ℕ, zero, suc, ◌+◌, ◌≤◌, ◌<◌, ◌≡◌, refl, subst, sym, ◌∙◌, Bool, true, false, not, ◌&&◌, ◌||◌,
  Option, none, some, List, [], ◌∷◌, ◌⊎◌, arith, All, length, if_cases, if-true, ◌==◌, includes,
  Bool-cases, inl, inr, keep, length-keep,
}
use node_red_contrib_mavlink.Routing.{
  RouteId, wildcard, exact, Route, id_matches, matches, match_route, Routed, accept, refuse, Reason,
  unmatched_reject, profile_unresolved, profile_invalid, Unmatched, reject, default, PacketRouter,
  fallback, route_to, route_packet, check_usable, or_reason, skips, scan_blocked, scan_route, scan,
  route_workflow_target,
}
use node_red_contrib_mavlink.Routing.Entries.{InRange}

-- A list shorter than `n` misses one of the numbers 1 to n.
abbrev Fresh : ℕ → List ℕ → Type 0
Fresh n xs = (c : ℕ) × (0 < c) × (c ≤ n) × (includes xs c ≡ false)

includes-keep :
    (k c : ℕ) (xs : List ℕ)
    → includes (keep (λ x. not (x == k)) xs) c ≡ false
    → (c == k) ≡ false
    → includes xs c ≡ false
includes-keep k c [] h e = refl
includes-keep k c (x ∷ xs) h e = ground (arith, includes-keep k c xs)

length-keep_present :
    (k : ℕ) (xs : List ℕ) → includes xs k ≡ true → length (keep (λ x. not (x == k)) xs) < length xs
length-keep_present k [] h = ground arith
length-keep_present k (x ∷ xs) h =
    ground (arith, length-keep_present k xs, length-keep (λ y. not (y == k)) xs)

fresh : (n : ℕ) (xs : List ℕ) → length xs < n → Fresh n xs
fresh zero xs h = ground arith
fresh (suc n) xs h = elim (Bool-cases (includes xs (suc n))) [
  | inr e ↦ (suc n, omega arith, omega arith, e)
  | inl e ↦
      let (c, pos_c, le_c, miss) =
        fresh n (keep (λ x. not (x == suc n)) xs)
          (omega (arith, length-keep_present (suc n) xs e)) in
      (c, pos_c, omega (arith, le_c), includes-keep (suc n) c xs miss (ground arith))
]

-- What a route does when it is not skipped, or is: `own` says that its system matches.
skipped_other :
    (own : Bool) (i : RouteId) (shadowed : List ℕ) (c : ℕ)
    → (not own || skips shadowed i) ≡ true
    → 0 < c
    → includes shadowed c ≡ false
    → (own && id_matches i c) ≡ false
skipped_other own wildcard shadowed c h pos_c k = ground arith
skipped_other own (exact n) shadowed c h pos_c k = ground arith

exact_other :
    (own : Bool) (i : RouteId) (n c : ℕ)
    → i ≡ exact n
    → (n == c) ≡ false
    → (own && id_matches i c) ≡ false
exact_other own i n c e h = rw e (ground arith)

fallback_default :
    {Profile : Type 0} (u : Unmatched) (d : Option Profile) (why : Reason) (o : Option Profile)
    → fallback u d why ≡ accept o
    → o ≡ d
fallback_default default (some p) why o h = ground arith
fallback_default default none why o h = ground arith
fallback_default reject d why o h = ground arith

fallback_why :
    {Profile : Type 0} (u : Unmatched) (d : Option Profile) (why other : Reason)
    (o : Option Profile)
    → fallback u d why ≡ accept o
    → fallback u d other ≡ accept o
fallback_why default (some p) why other o h = h
fallback_why default none why other o h = ground arith
fallback_why reject d why other o h = ground arith

module _ {Ref Profile : Type 0} (resolve : Ref → Option Profile) (usable : Profile → Bool)
    (r : PacketRouter Ref Profile) (sysid : ℕ) where
  -- What decodes the packets of a component is usable, unless no route matches it: then it is the
  -- default profile, which nothing tests.
  abbrev pub Decodes : List (Route Ref) → ℕ → Option Profile → Type 0
  Decodes ms c o =
      (check_usable usable (accept o) ≡ accept o)
      ⊎ ((match_route sysid c ms ≡ none) × (o ≡ r.default_profile))

  -- A component of 1 to 255, not in a list, whose packets the remaining routes accept.
  record Responder (ms : List (Route Ref)) (shadowed : List ℕ) (o : Option Profile) : Type 0 where
    component : ℕ
    real : 0 < component
    small : component ≤ 255
    clear : includes shadowed component ≡ false
    accepted : route_to resolve r (match_route sysid component ms) ≡ accept o
    decodes : Decodes ms component o

  Decodes-cons :
      (m : Route Ref) (ms : List (Route Ref)) (c : ℕ) (o : Option Profile)
      → matches sysid c m ≡ false
      → Decodes ms c o
      → Decodes (m ∷ ms) c o
  unfolding match_route
  Decodes-cons m ms c o h (inl fit) = inl fit
  Decodes-cons m ms c o h (inr (miss, same)) = inr (rw h miss, same)

  -- A route that the component's packets do not match makes no difference.
  Responder-cons :
      (m : Route Ref) (ms : List (Route Ref)) (shadowed wider : List ℕ) (o : Option Profile)
      → (x : Responder ms wider o) → includes shadowed x.component ≡ false
      → matches sysid x.component m ≡ false
      → Responder (m ∷ ms) shadowed o
  unfolding match_route
  Responder-cons m ms shadowed wider o x k h = record {
    component = x.component;
    real = x.real;
    small = x.small;
    clear = k;
    accepted = rw h (x.accepted);
    decodes = Decodes-cons m ms x.component o h x.decodes;
  }

  skips_no_match :
      (m : Route Ref) (shadowed : List ℕ) (c : ℕ)
      → (not (id_matches m.sysid sysid) || skips shadowed m.compid) ≡ true
      → 0 < c
      → includes shadowed c ≡ false
      → matches sysid c m ≡ false
  unfolding matches
  skips_no_match m shadowed c h pos_c k =
      skipped_other (id_matches m.sysid sysid) m.compid shadowed c h pos_c k

  exact_no_match :
      (m : Route Ref) (n c : ℕ) → m.compid ≡ exact n → (n == c) ≡ false → matches sysid c m ≡ false
  unfolding matches
  exact_no_match m n c e h = exact_other (id_matches m.sysid sysid) m.compid n c e h

  -- A component whose packets a route matches: one of no shadowed component for a wildcard, or the
  -- route's own.
  Taker : Route Ref → List ℕ → Type 0
  Taker m shadowed =
      (c : ℕ) × (0 < c) × (c ≤ 255) × (includes shadowed c ≡ false) × (matches sysid c m ≡ true)

  taker :
      (m : Route Ref) (i : RouteId) (shadowed : List ℕ)
      → m.compid ≡ i
      → (not (id_matches m.sysid sysid) || skips shadowed i) ≡ false
      → InRange i
      → length shadowed < 255
      → Taker m shadowed
  unfolding matches Taker
  taker m wildcard shadowed e h k room =
      let (c, pos_c, le_c, miss) = fresh 255 shadowed room in
      (c, pos_c, le_c, miss, rw e (ground arith))
  taker m (exact n) shadowed e h k room = (n, ground arith, k, ground arith, rw e (ground arith))

  usable_stays :
      (p : Profile) → usable p ≡ true → check_usable usable (accept (some p)) ≡ accept (some p)
  usable_stays p good = rw good refl

  accept_at :
      (m : Route Ref) (ms : List (Route Ref)) (shadowed : List ℕ) (p : Profile) (o : Option Profile)
      → resolve m.profile ≡ some p
      → usable p ≡ true
      → accept (some p) ≡ accept o
      → Taker m shadowed
      → Responder (m ∷ ms) shadowed o
  unfolding match_route Taker
  accept_at m ms shadowed p o e good h (c, pos_c, le_c, miss, hit) = record {
    component = c;
    real = pos_c;
    small = le_c;
    clear = miss;
    accepted = rw (hit, e) h;
    decodes = inl (subst (λ z. check_usable usable z ≡ z) h (usable_stays p good));
  }

  blocked_at :
      (why : Reason) (m : Route Ref) (ms : List (Route Ref)) (i : RouteId) (shadowed : List ℕ)
      (o : Option Profile) (go_on : List ℕ → Option Reason → Routed Profile)
      → m.compid ≡ i
      → ((n : ℕ) → go_on (n ∷ shadowed) (some why) ≡ accept o → Responder ms (n ∷ shadowed) o)
      → scan_blocked why i shadowed go_on ≡ accept o
      → Responder (m ∷ ms) shadowed o
  blocked_at why m ms wildcard shadowed o go_on e ih h = ground arith
  blocked_at why m ms (exact n) shadowed o go_on e ih h =
      let x = ih n h in
      Responder-cons m ms shadowed (n ∷ shadowed) o x (ground (arith, x.clear))
        (exact_no_match m n x.component e (ground (arith, x.clear)))

  route_at :
      (q : Option Profile) (m : Route Ref) (ms : List (Route Ref)) (shadowed : List ℕ)
      (o : Option Profile) (go_on : List ℕ → Option Reason → Routed Profile)
      → resolve m.profile ≡ q
      → Taker m shadowed
      → ((n : ℕ) (why : Reason)
          → go_on (n ∷ shadowed) (some why) ≡ accept o
          → Responder ms (n ∷ shadowed) o)
      → scan_route usable q m.compid shadowed go_on ≡ accept o
      → Responder (m ∷ ms) shadowed o
  route_at none m ms shadowed o go_on e t ih h =
      blocked_at profile_unresolved m ms m.compid shadowed o go_on refl
        (λ n. ih n profile_unresolved) h
  route_at (some p) m ms shadowed o go_on e t ih h =
      if_cases (λ z. z ≡ accept o → Responder (m ∷ ms) shadowed o) (usable p)
        (λ good k. accept_at m ms shadowed p o e good k t)
        (λ bad k.
          blocked_at profile_invalid m ms m.compid shadowed o go_on refl (λ n. ih n profile_invalid)
            k)
        h

  scan-Responder :
      (ms : List (Route Ref)) (shadowed : List ℕ) (blocked : Option Reason) (o : Option Profile)
      → All (λ (m : Route Ref). InRange m.sysid × InRange m.compid) ms
      → length shadowed + length ms < 255
      → scan resolve usable r sysid ms shadowed blocked ≡ accept o
      → Responder ms shadowed o
  unfolding scan match_route
  scan-Responder [] shadowed blocked o v room h =
      let (c, pos_c, le_c, miss) = fresh 255 shadowed (omega (arith, room)) in
      record {
        component = c;
        real = pos_c;
        small = le_c;
        clear = miss;
        accepted =
            fallback_why r.unmatched r.default_profile (or_reason blocked) unmatched_reject o h;
        decodes =
            inr (refl, fallback_default r.unmatched r.default_profile (or_reason blocked) o h);
      }
  scan-Responder (m ∷ ms) shadowed blocked o v room h =
      if_cases (λ z. z ≡ accept o → Responder (m ∷ ms) shadowed o)
        (not (id_matches m.sysid sysid) || skips shadowed m.compid)
        (λ skip k.
          let x = scan-Responder ms shadowed blocked o v.1 (omega (arith, room)) k in
          Responder-cons m ms shadowed shadowed o x x.clear
            (skips_no_match m shadowed x.component skip x.real x.clear))
        (λ stay k.
          route_at (resolve m.profile) m ms shadowed o _ refl
            (taker m m.compid shadowed refl stay v.0.1 (omega (arith, room)))
            (λ n why. scan-Responder ms (n ∷ shadowed) (some why) o v.1 (omega (arith, room))) k)
        h

  -- The packets of a component are refused: by the routing, or for a profile that is unusable.
  abbrev pub Refused : Routed Profile → Type 0
  Refused x = (why : Reason) × (check_usable usable x ≡ refuse why)

  fallback-Refused :
      (u : Unmatched) (d : Option Profile) (why other w : Reason)
      → fallback u d why ≡ refuse w
      → Refused (fallback u d other)
  fallback-Refused default (some p) why other w h = ground arith
  fallback-Refused default none why other w h = (other, refl)
  fallback-Refused reject d why other w h = (other, refl)

  -- A route of the system decides by its component.
  matches_own :
      (m : Route Ref) (c : ℕ)
      → id_matches m.sysid sysid ≡ true
      → matches sysid c m ≡ id_matches m.compid c
  unfolding matches
  matches_own m c e = rw e

  -- What is refused of the packets of `c` by the routes behind a blocked one, and by that one.
  blocked-Refused :
      (why w : Reason) (m : Route Ref) (ms : List (Route Ref)) (i : RouteId) (shadowed : List ℕ)
      (c : ℕ) (go_on : List ℕ → Option Reason → Routed Profile)
      → id_matches i c ≡ false
      → includes shadowed c ≡ false
      → ((n : ℕ)
          → go_on (n ∷ shadowed) (some why) ≡ refuse w
          → includes (n ∷ shadowed) c ≡ false
          → Refused (route_to resolve r (match_route sysid c ms)))
      → scan_blocked why i shadowed go_on ≡ refuse w
      → Refused (route_to resolve r (match_route sysid c ms))
  blocked-Refused why w m ms wildcard shadowed c go_on e k ih h = ground arith
  blocked-Refused why w m ms (exact n) shadowed c go_on e k ih h = ih n h (ground arith)

  route-Refused :
      (q : Option Profile) (w : Reason) (m : Route Ref) (ms : List (Route Ref)) (shadowed : List ℕ)
      (c : ℕ) (go_on : List ℕ → Option Reason → Routed Profile)
      → resolve m.profile ≡ q
      → id_matches m.sysid sysid ≡ true
      → includes shadowed c ≡ false
      → ((n : ℕ) (why : Reason)
          → go_on (n ∷ shadowed) (some why) ≡ refuse w
          → includes (n ∷ shadowed) c ≡ false
          → Refused (route_to resolve r (match_route sysid c ms)))
      → scan_route usable q m.compid shadowed go_on ≡ refuse w
      → Refused (route_to resolve r (match_route sysid c (m ∷ ms)))
  unfolding match_route
  route-Refused none w m ms shadowed c go_on e own k ih h =
      if_cases (λ z. Refused (route_to resolve r z)) (matches sysid c m)
        (λ hit. (profile_unresolved, rw e refl))
        (λ miss.
          blocked-Refused profile_unresolved w m ms m.compid shadowed c go_on
            (sym (matches_own m c own) ∙ miss) k (λ n. ih n profile_unresolved) h)
  route-Refused (some p) w m ms shadowed c go_on e own k ih h =
      if_cases (λ z. z ≡ refuse w → Refused (route_to resolve r (match_route sysid c (m ∷ ms))))
        (usable p) (λ good g. ground arith)
        (λ bad g.
          if_cases (λ z. Refused (route_to resolve r z)) (matches sysid c m)
            (λ hit. (profile_invalid, rw (e, bad) refl))
            (λ miss.
              blocked-Refused profile_invalid w m ms m.compid shadowed c go_on
                (sym (matches_own m c own) ∙ miss) k (λ n. ih n profile_invalid) g))
        h

  scan-Refused :
      (ms : List (Route Ref)) (shadowed : List ℕ) (blocked : Option Reason) (w : Reason) (c : ℕ)
      → 0 < c
      → includes shadowed c ≡ false
      → scan resolve usable r sysid ms shadowed blocked ≡ refuse w
      → Refused (route_to resolve r (match_route sysid c ms))
  unfolding scan match_route
  scan-Refused [] shadowed blocked w c pos_c k h =
      fallback-Refused r.unmatched r.default_profile (or_reason blocked) unmatched_reject w h
  scan-Refused (m ∷ ms) shadowed blocked w c pos_c k h =
      if_cases (λ z. z ≡ refuse w → Refused (route_to resolve r (match_route sysid c (m ∷ ms))))
        (not (id_matches m.sysid sysid) || skips shadowed m.compid)
        (λ skip g.
          rw (skips_no_match m shadowed c skip pos_c k)
            (scan-Refused ms shadowed blocked w c pos_c k g))
        (λ stay g.
          route-Refused (resolve m.profile) w m ms shadowed c _ refl (ground arith) k
            (λ n why. λ q miss. scan-Refused ms (n ∷ shadowed) (some why) w c pos_c miss q) g)
        h

  -- In routed mode, with fewer than 255 routes whose ids are at most 255: if a workflow that
  -- addresses all components of a system is given a profile, the packets of some component of 1
  -- to 255 are accepted and decoded with that profile, and it is usable, or else no route matches
  -- them and it is the default profile.
  pub broadcast_is_answered :
      (o : Option Profile)
      → r.routed ≡ true
      → All (λ (m : Route Ref). InRange m.sysid × InRange m.compid) r.routes
      → length r.routes < 255
      → route_workflow_target resolve usable r sysid 0 ≡ accept o
      → (c : ℕ) × (0 < c)
        × (c ≤ 255)
        × (route_packet resolve r sysid c ≡ accept o)
        × Decodes r.routes c o
  unfolding route_workflow_target route_packet
  broadcast_is_answered o mode v room h =
      let x =
        scan-Responder r.routes [] none o v (omega (arith, room))
          (sym (if-true r.routed _ _ mode) ∙ h) in
      (x.component, x.real, x.small, if-true r.routed _ _ mode ∙ x.accepted, x.decodes)

  -- In routed mode: if a workflow that addresses all components of a system is refused, every
  -- component's packets are refused by the routing or decode with an unusable profile.
  pub broadcast_is_dead :
      (why : Reason) (c : ℕ)
      → r.routed ≡ true
      → 0 < c
      → route_workflow_target resolve usable r sysid 0 ≡ refuse why
      → Refused (route_packet resolve r sysid c)
  unfolding route_workflow_target route_packet
  broadcast_is_dead why c mode pos_c h =
      subst Refused (sym (if-true r.routed _ _ mode))
        (scan-Refused r.routes [] none why c pos_c refl (sym (if-true r.routed _ _ mode) ∙ h))
