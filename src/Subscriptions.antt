-- ===== src/Subscriptions.antt =====
-- lib/runtime/subscription-registry.js (SubscriptionRegistry) and lib/util/bounded-map.js. Message
-- names, profile references and field signatures are numbers, compared as the source compares its
-- strings; the stream key is name, system and component (one connection). A callback that throws does
-- not stop the loop, so what a dispatch gives is the list of the subscriptions that it calls.
pub mod Bounded
pub mod Closed
pub mod Examples
use node_red_contrib_mavlink.Common.{
  ℕ, zero, suc, ◌+◌, ◌-◌, ◌*◌, Bool, true, false, not, ◌&&◌, ◌||◌, Option, none, some, List, [],
  ◌∷◌, Eq, nat_eq, triple_eq, ltb, leb, ◌==◌, if◌then◌else◌, includes, is_empty,
}
use node_red_contrib_mavlink.JsMap.{get, has, set, size, delete}
use node_red_contrib_mavlink.Routing.{id_accepted}

abbrev pub max_tracked_keys : ℕ
max_tracked_keys = 4096

module _ {K V : Type 0} ⦃e : Eq K⦄ where
  -- `map.delete(map.keys().next().value)`
  abbrev pub drop_oldest : List (K × V) → List (K × V)
  drop_oldest [] = []
  drop_oldest ((k, v) ∷ m) = delete ((k, v) ∷ m) k

  unfoldable pub bounded_set : List (K × V) → K → V → List (K × V)
  bounded_set m k v =
      set (if not (has m k) && leb max_tracked_keys (size m) then drop_oldest m else m) k v

-- An id list as it is supplied, and one of its entries: something else, or a number.
pub data IdEntry : Type 0 where
  not_integer : IdEntry
  integer : ℕ → IdEntry

pub data IdList : Type 0 where
  absent : IdList
  not_array : IdList
  array : List IdEntry → IdList

abbrev pub id_of : IdEntry → Option ℕ
id_of not_integer = none
id_of (integer n) = if ltb 255 n then none else some n

abbrev pub cons_id : Option ℕ → Option (List ℕ) → Option (List ℕ)
cons_id (some n) (some ns) = some (n ∷ ns)
cons_id _ _ = none

abbrev pub ids_of : List IdEntry → Option (List ℕ)
ids_of [] = some []
ids_of (x ∷ xs) = cons_id (id_of x) (ids_of xs)

-- `none` is the BAD_FILTER error; a negative number is `not_integer`.
unfoldable pub strict_id_array : IdList → Option (List ℕ)
strict_id_array absent = some []
strict_id_array not_array = none
strict_id_array (array xs) = ids_of xs

pub record FilterInput : Type 0 where
  pub has_singular : Bool
  pub message_names : List ℕ
  pub message_ids : List ℕ
  pub sysids : IdList
  pub compids : IdList
  pub profile : Option ℕ
  pub rate_limit_hz : ℕ
  pub changed_only : Bool

pub record Filter : Type 0 where
  pub message_names : List ℕ
  pub message_ids : List ℕ
  pub sysids : List ℕ
  pub compids : List ℕ
  pub profile : Option ℕ
  pub rate_limit_hz : ℕ
  pub changed_only : Bool

abbrev make_filter : FilterInput → Option (List ℕ) → Option (List ℕ) → Option Filter
make_filter f (some s) (some c) = some (record {
  message_names = f.message_names;
  message_ids = f.message_ids;
  sysids = s;
  compids = c;
  profile = f.profile;
  rate_limit_hz = f.rate_limit_hz;
  changed_only = f.changed_only;
})
make_filter f _ _ = none

unfoldable pub normalize_filter : FilterInput → Option Filter
normalize_filter f =
    if f.has_singular
    then none
    else make_filter f (strict_id_array f.sysids) (strict_id_array f.compids)

pub record Message : Type 0 where
  pub name : ℕ
  pub id : ℕ
  pub sysid : ℕ
  pub compid : ℕ
  pub profile : ℕ
  pub profile_id : ℕ
  pub signature : ℕ

abbrev pub listed : List ℕ → ℕ → Bool
listed xs n = is_empty xs || includes xs n

abbrev pub profile_matches : Option ℕ → Message → Bool
profile_matches none m = true
profile_matches (some p) m = m.profile == p || m.profile_id == p

unfoldable pub filter_matches : Filter → Message → Bool
filter_matches f m =
    listed f.message_names m.name
    && (listed f.message_ids m.id
        && (id_accepted m.sysid f.sysids
            && (id_accepted m.compid f.compids && profile_matches f.profile m)))

abbrev pub StreamKey : Type 0
StreamKey = ℕ × ℕ × ℕ

pub record Subscription : Type 0 where
  pub id : ℕ
  pub filter : Filter
  pub last_delivered : List (StreamKey × ℕ)
  pub last_signature : List (StreamKey × ℕ)

pub record Registry : Type 0 where
  pub subs : List (ℕ × Subscription)
  pub next_id : ℕ

abbrev pub new_registry : Registry
new_registry = record { subs = []; next_id = 1 }

abbrev add_filter : Option Filter → Registry → Option ℕ × Registry
add_filter none r = (none, record r { next_id = suc r.next_id })
add_filter (some f) r = (
  some r.next_id,
  record {
    subs =
        set r.subs r.next_id
          (record { id = r.next_id; filter = f; last_delivered = []; last_signature = [] });
    next_id = suc r.next_id;
  },
)

-- `subscribe`: the id is counted even when the filter is refused.
unfoldable pub subscribe_filter : FilterInput → Registry → Option ℕ × Registry
subscribe_filter f r = add_filter (normalize_filter f) r

unfoldable pub unsubscribe_id : ℕ → Registry → Bool × Registry
unsubscribe_id i r = (has r.subs i, record r { subs = delete r.subs i })

abbrev pub key_of : Message → StreamKey
key_of m = (m.name, m.sysid, m.compid)

abbrev pub or_zero_time : Option ℕ → ℕ
or_zero_time none = 0
or_zero_time (some t) = t

-- Within 1000 / rateLimitHz milliseconds of the last delivery; multiplied out.
abbrev pub too_soon : ℕ → Message → Subscription → Bool
too_soon now m s =
    ltb 0 s.filter.rate_limit_hz
    && ltb ((now - or_zero_time (get s.last_delivered (key_of m))) * s.filter.rate_limit_hz) 1000

abbrev pub same_signature : Option ℕ → ℕ → Bool
same_signature none n = false
same_signature (some k) n = k == n

abbrev pub unchanged : Message → Subscription → Bool
unchanged m s =
    s.filter.changed_only && same_signature (get s.last_signature (key_of m)) m.signature

-- Whether the loop calls a subscription.
unfoldable pub is_due : ℕ → Message → Subscription → Bool
is_due now m s = filter_matches s.filter m && (not (too_soon now m s) && not (unchanged m s))

abbrev pub track : ℕ → Message → Subscription → Subscription
track now m s = record s {
  last_signature =
      if s.filter.changed_only
      then bounded_set s.last_signature (key_of m) m.signature
      else s.last_signature;
  last_delivered =
      if ltb 0 s.filter.rate_limit_hz
      then bounded_set s.last_delivered (key_of m) now
      else s.last_delivered;
}

-- The loop: the subscriptions called, and all of them as they are behind it.
unfoldable pub dispatch_all :
    ℕ → Message → List (ℕ × Subscription) → List ℕ × List (ℕ × Subscription)
dispatch_all now m [] = ([], [])
dispatch_all now m ((i, s) ∷ ss) =
    let rest = dispatch_all now m ss in
    if is_due now m s
    then (s.id ∷ rest.0, (i, track now m s) ∷ rest.1)
    else (rest.0, (i, s) ∷ rest.1)

unfoldable pub dispatch : ℕ → Message → Registry → List ℕ × Registry
dispatch now m r =
    let result = dispatch_all now m r.subs in (result.0, record r { subs = result.1 })
