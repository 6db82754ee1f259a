-- ===== src/Subscriptions/Examples.antt =====
-- lib/runtime/subscription-registry.js at concrete inputs.
use node_red_contrib_mavlink.Common.{◌≡◌, refl, false, none, List, [], ◌∷◌, All, nat_eq, triple_eq}
use node_red_contrib_mavlink.JsMap.{get, has, set}
use node_red_contrib_mavlink.Routing.{id_accepted}
use node_red_contrib_mavlink.Subscriptions.{
  integer, absent, array, FilterInput, Filter, normalize_filter, strict_id_array, filter_matches,
  Message, new_registry, subscribe_filter, dispatch, dispatch_all, is_due, bounded_set,
}
use node_red_contrib_mavlink.Subscriptions.Bounded.{
  Call, subscribes, dispatches, apply_all, IsBounded, registry-IsBounded,
}
use node_red_contrib_mavlink.Subscriptions.Closed.{Allows, filter_matches-Allows}

-- Messages 30 of system 1, at most two a second.
abbrev attitude : FilterInput
attitude = record {
  has_singular = false;
  message_names = 30 ∷ [];
  message_ids = [];
  sysids = array (integer 1 ∷ []);
  compids = absent;
  profile = none;
  rate_limit_hz = 2;
  changed_only = false;
}

abbrev attitude_filter : Filter
attitude_filter = record {
  message_names = 30 ∷ [];
  message_ids = [];
  sysids = 1 ∷ [];
  compids = [];
  profile = none;
  rate_limit_hz = 2;
  changed_only = false;
}

abbrev message : Message
message = record {
  name = 30;
  id = 30;
  sysid = 1;
  compid = 1;
  profile = 0;
  profile_id = 0;
  signature = 5;
}

abbrev calls : List Call
calls = subscribes attitude ∷ dispatches 5000 message ∷ dispatches 5100 message ∷ []

-- Delivered, too soon, and delivered again after half a second.
calls_delivered :
    ((dispatch 5499 message (apply_all calls new_registry)).0 ≡ [])
    × ((dispatch 5500 message (apply_all calls new_registry)).0 ≡ 1 ∷ [])
unfolding dispatch dispatch_all subscribe_filter normalize_filter strict_id_array is_due
    filter_matches id_accepted bounded_set get has set
calls_delivered = (refl, refl)

registry-IsBounded_example : All IsBounded (apply_all calls new_registry).subs
registry-IsBounded_example = registry-IsBounded calls

filter_matches-Allows_example : Allows (array (integer 1 ∷ [])) 1 × Allows absent 1
unfolding normalize_filter strict_id_array filter_matches id_accepted
filter_matches-Allows_example = filter_matches-Allows attitude attitude_filter message refl refl
