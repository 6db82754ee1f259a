-- ===== src/Vehicles/Targets.antt =====
-- What lib/swarm/vehicle-registry.js lists for a filter, and the targets of a fan-out.
use node_red_contrib_mavlink.Common.{
  ℕ, nat_eq, ◌-◌, ◌≤◌, ◌<◌, ◌≡◌, refl, ap, ◌∙◌, Bool, true, false, not, ◌&&◌, ◌||◌, ◌⊎◌, inl, inr,
  Bool-cases, Option, none, some, if◌then◌else◌, leb, List, [], ◌∷◌, map, arith, ltb, ◌==◌, All,
  All-map, tally, keep, includes, if_cases,
}
use node_red_contrib_mavlink.JsMap.{get}
use node_red_contrib_mavlink.StableSort.{sort-IsSorted, tally-sort, IsSorted}
use node_red_contrib_mavlink.Vehicles.{
  Vehicle, Registry, Filter, expire, is_live, is_stale, drops_stale, allows, allows_armed, selects,
  id_le, values, list_vehicles, unique_after, list_sysids, sysids_of, sysids_or_error, list_checked,
  is_bad, list_known, list_group, merge,
}

id_le_total : (x y : Vehicle) → id_le x y ≡ false → id_le y x ≡ true
unfolding id_le
id_le_total x y h = ground (arith, h)

id_le_trans : (x y z : Vehicle) → id_le x y ≡ true → id_le y z ≡ true → id_le x z ≡ true
unfolding id_le
id_le_trans x y z h k = ground (arith, h, k)

id_le-sysid : (x y : Vehicle) → id_le x y ≡ true → x.sysid ≤ y.sysid
unfolding id_le
id_le-sysid x y h = ground (arith, h)

-- Not removed by `_expire`: expiry is off, or the last message is recent enough.
abbrev pub is_recent : ℕ → ℕ → Vehicle → Bool
is_recent now expire_ms v = expire_ms == 0 || not (ltb expire_ms (now - v.last_seen))

tally-keep :
    {A : Type 0} (p q : A → Bool) (xs : List A) → tally p (keep q xs) ≡ tally (λ x. q x && p x) xs
tally-keep p q [] = refl
tally-keep p q (x ∷ xs) = ground (arith, tally-keep p q xs)

tally-values :
    (p : Vehicle → Bool) (now expire_ms : ℕ) (m : List ((ℕ × ℕ) × Vehicle))
    → (expire_ms == 0) ≡ false
    → tally p (values (keep (is_live now expire_ms) m))
      ≡ tally (λ v. is_recent now expire_ms v && p v) (values m)
tally-values p now expire_ms [] h = refl
tally-values p now expire_ms ((key, v) ∷ m) h = ground (arith, h, tally-values p now expire_ms m h)

tally-all_recent :
    (p : Vehicle → Bool) (now expire_ms : ℕ) (vs : List Vehicle)
    → (expire_ms == 0) ≡ true
    → tally p vs ≡ tally (λ v. is_recent now expire_ms v && p v) vs
tally-all_recent p now expire_ms [] h = refl
tally-all_recent p now expire_ms (v ∷ vs) h =
    ground (arith, h, tally-all_recent p now expire_ms vs h)

tally-expire :
    (p : Vehicle → Bool) (now : ℕ) (r : Registry)
    → tally p (values (expire now r).vehicles)
      ≡ tally (λ v. is_recent now r.expire_ms v && p v) (values r.vehicles)
unfolding expire
tally-expire p now r =
    if_cases {A = Registry}
      (λ s.
        tally p (values s.vehicles)
        ≡ tally (λ v. is_recent now r.expire_ms v && p v) (values r.vehicles))
      (r.expire_ms == 0) (λ e. tally-all_recent p now r.expire_ms (values r.vehicles) e)
      (λ e. tally-values p now r.expire_ms r.vehicles e)

-- What the filter asks of a vehicle, entry by entry.
abbrev pub is_fresh : Option Bool → ℕ → ℕ → Vehicle → Bool
is_fresh none now stale_ms v = true
is_fresh (some true) now stale_ms v = true
is_fresh (some false) now stale_ms v =
    leb (now - (if v.last_heartbeat == 0 then v.last_seen else v.last_heartbeat)) stale_ms

abbrev pub is_named : Option (List ℕ) → ℕ → Bool
is_named none n = true
is_named (some ns) n = ltb 0 (tally (λ k. k == n) ns)

abbrev pub is_armed_as : Option Bool → Vehicle → Bool
is_armed_as none v = true
is_armed_as (some true) v = v.armed
is_armed_as (some false) v = not v.armed

abbrev pub is_wanted : ℕ → ℕ → Filter → Vehicle → Bool
is_wanted now stale_ms f v =
    is_fresh f.include_stale now stale_ms v
    && (is_named f.sysids v.sysid && (is_armed_as f.armed v && is_named f.types v.type_num))

fresh_lem :
    (o : Option Bool) (now : ℕ) (r : Registry) (v : Vehicle)
    → not (drops_stale o && is_stale now r v) ≡ is_fresh o now r.stale_ms v
fresh_lem none now r v = refl
fresh_lem (some true) now r v = refl
fresh_lem (some false) now r v = ground arith

includes-tally : (ns : List ℕ) (n : ℕ) → includes ns n ≡ ltb 0 (tally (λ k. k == n) ns)
includes-tally [] n = refl
includes-tally (k ∷ ns) n = ground (arith, includes-tally ns n)

named_lem : (o : Option (List ℕ)) (n : ℕ) → allows o n ≡ is_named o n
named_lem none n = refl
named_lem (some ns) n = includes-tally ns n

armed_lem : (o : Option Bool) (v : Vehicle) → allows_armed o v.armed ≡ is_armed_as o v
armed_lem none v = refl
armed_lem (some true) v = refl
armed_lem (some false) v = refl

expire-stale_ms : (now : ℕ) (r : Registry) → (expire now r).stale_ms ≡ r.stale_ms
unfolding expire
expire-stale_ms now r =
    if_cases {A = Registry} (λ s. s.stale_ms ≡ r.stale_ms) (r.expire_ms == 0) (λ e. refl)
      (λ e. refl)

selects_lem :
    (now : ℕ) (r : Registry) (f : Filter) (v : Vehicle)
    → selects now r f v ≡ is_wanted now r.stale_ms f v
unfolding selects
selects_lem now r f v =
    rw
      (
        fresh_lem f.include_stale now r v,
        named_lem f.sysids v.sysid,
        armed_lem f.armed v,
        named_lem f.types v.type_num,
      )
      refl

tally-ext :
    {A : Type 0} (p q : A → Bool) (xs : List A) → ((x : A) → p x ≡ q x) → tally p xs ≡ tally q xs
tally-ext p q [] h = refl
tally-ext p q (x ∷ xs) h = ground (arith, h x, tally-ext p q xs h)

-- By system, and by component within one.
abbrev pub NotAfter : Vehicle → Vehicle → Type 0
NotAfter v w = (v.sysid < w.sysid) ⊎ ((v.sysid ≡ w.sysid) × (v.compid ≤ w.compid))

abbrev pub Ordered : List Vehicle → Type 0
Ordered [] = Unit
Ordered (v ∷ vs) = All (NotAfter v) vs × Ordered vs

id_le-NotAfter : (v w : Vehicle) → id_le v w ≡ true → NotAfter v w
unfolding id_le
id_le-NotAfter v w h = elim (Bool-cases (ltb v.sysid w.sysid)) [
  | inl e ↦ inl (ground (arith, e))
  | inr e ↦ inr (ground (arith, e, h), ground (arith, e, h))
]

IsSorted-Ordered : (vs : List Vehicle) → IsSorted id_le vs → Ordered vs
IsSorted-Ordered [] h = tt
IsSorted-Ordered (v ∷ vs) h = (
  All-map (λ w. id_le v w ≡ true) (NotAfter v) (id_le-NotAfter v) vs h.0,
  IsSorted-Ordered vs h.1,
)

list_vehicles-IsSorted :
    (now : ℕ) (f : Filter) (r : Registry) → IsSorted id_le (list_vehicles now f r).0
unfolding list_vehicles
list_vehicles-IsSorted now f r =
    sort-IsSorted id_le id_le_total id_le_trans
      (keep (selects now (expire now r) f) (values (expire now r).vehicles))

-- The listing is ordered by system and component, and it has every tracked vehicle that is not
-- expired and that every entry of the filter asks for as often as it is tracked, and no other.
pub listed_exactly :
    (now : ℕ) (f : Filter) (r : Registry) (p : Vehicle → Bool)
    → Ordered (list_vehicles now f r).0
      × (tally p (list_vehicles now f r).0
          ≡ tally
              (λ v. is_recent now r.expire_ms v && (is_wanted now r.stale_ms f v && p v))
              (values r.vehicles))
unfolding list_vehicles
listed_exactly now f r p =
    let q = selects now (expire now r) f in
    let vs = values (expire now r).vehicles in
    (
      IsSorted-Ordered (list_vehicles now f r).0 (list_vehicles-IsSorted now f r),
      tally-sort id_le p (keep q vs)
          ∙ tally-keep p q vs
          ∙ tally-expire (λ v. q v && p v) now r
          ∙ tally-ext _ _ (values r.vehicles) (λ v.
            ap (λ b. is_recent now r.expire_ms v && (b && p v))
              (selects_lem now (expire now r) f v
                ∙ ap (λ n. is_wanted now n f v) (expire-stale_ms now r))),
    )

abbrev pub Ascending : List ℕ → Type 0
Ascending [] = Unit
Ascending (x ∷ xs) = All (λ y. x < y) xs × Ascending xs

unique-All : (P : ℕ → Type 0) (seen xs : List ℕ) → All P xs → All P (unique_after seen xs)
unique-All P seen [] h = tt
unique-All P seen (x ∷ xs) h =
    if_cases (All P) (includes seen x) (λ e. unique-All P seen xs h.1)
      (λ e. (h.0, unique-All P (x ∷ seen) xs h.1))

unique-new : (seen xs : List ℕ) → All (λ y. includes seen y ≡ false) (unique_after seen xs)
unique-new seen [] = tt
unique-new seen (x ∷ xs) =
    if_cases (All (λ y. includes seen y ≡ false)) (includes seen x) (λ e. unique-new seen xs)
      (λ e. (
        e,
        All-map _ _ (λ y h. ground (arith, h)) (unique_after (x ∷ seen) xs)
            (unique-new (x ∷ seen) xs),
      ))

and-true : (b : Bool) → (b && true) ≡ b
and-true true = refl
and-true false = refl

==-eq : (x s : ℕ) → (x == s) ≡ true → x ≡ s
==-eq x s h = ground (arith, h)

same_seen : (seen : List ℕ) (x s : ℕ) → (x == s) ≡ true → includes seen x ≡ includes seen s
same_seen seen x s h = ap (λ k. includes seen k) (==-eq x s h)

includes-unique_after :
    (seen xs : List ℕ) (s : ℕ)
    → includes (unique_after seen xs) s ≡ (includes xs s && not (includes seen s))
includes-unique_after seen [] s = refl
includes-unique_after seen (x ∷ xs) s = ground (
  arith,
  includes-unique_after seen xs s,
  includes-unique_after (x ∷ seen) xs s,
  same_seen seen x s,
)

abbrev Weakly : List ℕ → Type 0
Weakly [] = Unit
Weakly (x ∷ xs) = All (λ y. x ≤ y) xs × Weakly xs

both-All :
    (x : ℕ) (xs : List ℕ) (seen : List ℕ)
    → All (λ y. x ≤ y) xs
    → All (λ y. includes (x ∷ seen) y ≡ false) xs
    → All (λ y. x < y) xs
both-All x [] seen h k = tt
both-All x (y ∷ xs) seen h k = (ground (arith, h.0, k.0), both-All x xs seen h.1 k.1)

unique-Ascending : (seen xs : List ℕ) → Weakly xs → Ascending (unique_after seen xs)
unique-Ascending seen [] h = tt
unique-Ascending seen (x ∷ xs) h =
    if_cases Ascending (includes seen x) (λ e. unique-Ascending seen xs h.1)
      (λ e. (
        both-All x (unique_after (x ∷ seen) xs) seen (unique-All _ (x ∷ seen) xs h.0)
            (unique-new (x ∷ seen) xs),
        unique-Ascending (x ∷ seen) xs h.1,
      ))

All-sysids :
    (v : Vehicle) (vs : List Vehicle)
    → All (λ y. id_le v y ≡ true) vs
    → All (λ n. v.sysid ≤ n) (map (λ x. x.sysid) vs)
All-sysids v [] h = tt
All-sysids v (x ∷ vs) h = (id_le-sysid v x h.0, All-sysids v vs h.1)

sysids-Weakly : (vs : List Vehicle) → IsSorted id_le vs → Weakly (map (λ v. v.sysid) vs)
sysids-Weakly [] h = tt
sysids-Weakly (v ∷ vs) h = (All-sysids v vs h.0, sysids-Weakly vs h.1)

-- Targets that are strictly ascending and the systems of the listed vehicles.
abbrev pub Targets : Option (List ℕ) → Option (List Vehicle) → Type 0
Targets none none = Unit
Targets none (some vs) = ⊥
Targets (some ns) none = ⊥
Targets (some ns) (some vs) =
    Ascending ns × ((s : ℕ) → includes ns s ≡ includes (map (λ v. v.sysid) vs) s)

sysids_of-Targets :
    (vs : List Vehicle) → IsSorted id_le vs → Targets (some (sysids_of vs)) (some vs)
sysids_of-Targets vs h = (
  unique-Ascending [] (map (λ v. v.sysid) vs) (sysids-Weakly vs h),
  (λ s.
      includes-unique_after [] (map (λ v. v.sysid) vs) s
      ∙ and-true (includes (map (λ v. v.sysid) vs) s)),
)

checked-Targets :
    (now : ℕ) (f : Filter) (r : Registry)
    → let vs = (list_checked now f r).0 in Targets (sysids_or_error vs) vs
checked-Targets now f r =
    if_cases {A = Option (List Vehicle) × Registry} (λ x. Targets (sysids_or_error x.0) x.0)
      (is_bad f.sysids) (λ e. tt)
      (λ e. sysids_of-Targets (list_vehicles now f r).0 (list_vehicles-IsSorted now f r))

known-Targets :
    (now : ℕ) (f : Filter) (o : Option Filter) (r : Registry)
    → let vs = (list_known now f o r).0 in Targets (sysids_or_error vs) vs
known-Targets now f none r = (tt, λ s. refl)
known-Targets now f (some group) r = checked-Targets now (merge f group) r

-- The targets of a filter, with or without a group, are strictly ascending, so none stands twice,
-- and they are the systems of the vehicles that it lists; and there is an error for the one where
-- there is one for the other.
pub sysids-Ascending :
    (now : ℕ) (groups : List (ℕ × Filter)) (group : Option ℕ) (f : Filter) (r : Registry)
    → Targets (list_sysids now groups group f r) (list_group now groups group f r).0
unfolding list_sysids list_group
sysids-Ascending now groups none f r = checked-Targets now f r
sysids-Ascending now groups (some name) f r = known-Targets now f (get groups name) r
