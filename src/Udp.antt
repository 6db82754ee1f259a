-- ===== src/Udp.antt =====
-- lib/transport/udp-transport.js: the peers of UdpTransport (confirmPeer, _targets). Addresses are a
-- type with an equality and a test for blank ones; a sysid that is not an integer is not modelled.
-- The socket, and what a send does with its targets, are left out.
pub mod Learned
pub mod Examples
use node_red_contrib_mavlink.Common.{
  ℕ, Bool, true, false, not, ◌&&◌, ◌||◌, Option, none, some, List, [], ◌∷◌, Eq, nat_eq, ltb, leb,
  ◌==◌, if◌then◌else◌,
}
use node_red_contrib_mavlink.JsMap.{get, set}

-- The sysids of ground stations.
abbrev pub is_gcs_sysid : ℕ → Bool
is_gcs_sysid n = leb 250 n

module _ (A : Type 0) where
  abbrev pub Endpoint : Type 0
  Endpoint = A × ℕ

  -- A manual remote, the peers by sysid, and the fallback peer with its sysid.
  pub record Peers : Type 0 where
    pub remote : Option (A × ℕ)
    pub peers_by_sysid : List (ℕ × (A × ℕ))
    pub learned : Option (ℕ × (A × ℕ))

-- What a send is for.
pub data Meta : Type 0 where
  untargeted : Meta
  to_system : ℕ → Meta
  to_group : List ℕ → Meta

module _ {A : Type 0} where
  abbrev pub valid_destination : (A → Bool) → Endpoint A → Bool
  valid_destination blank (address, port) =
      not (blank address) && (not (ltb port 1) && not (ltb 65535 port))

  abbrev pub replaces : ℕ → Option (ℕ × Endpoint A) → Bool
  replaces sys none = true
  replaces sys (some (held, peer)) =
      held == sys || not (is_gcs_sysid sys && not (is_gcs_sysid held))

  unfoldable pub confirm_peer : (A → Bool) → ℕ → Endpoint A → Peers A → Peers A
  confirm_peer blank sys endpoint s =
      if valid_destination blank endpoint
      then record s {
        peers_by_sysid = set s.peers_by_sysid sys endpoint;
        learned = if replaces sys s.learned then some (sys, endpoint) else s.learned;
      }
      else s

  abbrev pub cons_some : Option (Endpoint A) → List (Endpoint A) → List (Endpoint A)
  cons_some none es = es
  cons_some (some e) es = e ∷ es

  abbrev pub group_peers : Peers A → List ℕ → List (Endpoint A)
  group_peers s [] = []
  group_peers s (i ∷ is) = cons_some (get s.peers_by_sysid i) (group_peers s is)

  abbrev pub values : List (ℕ × Endpoint A) → List (Endpoint A)
  values [] = []
  values ((i, e) ∷ m) = e ∷ values m

  abbrev pub learned_targets : Option (ℕ × Endpoint A) → List (Endpoint A)
  learned_targets none = []
  learned_targets (some (sys, peer)) = peer ∷ []

module _ {A : Type 0} ⦃e : Eq (A × ℕ)⦄ where
  abbrev pub seen_endpoint : List (Endpoint A) → Endpoint A → Bool
  seen_endpoint [] p = false
  seen_endpoint (q ∷ qs) p = e.beq q p || seen_endpoint qs p

  abbrev pub dedupe_from : List (Endpoint A) → List (Endpoint A) → List (Endpoint A)
  dedupe_from seen [] = []
  dedupe_from seen (p ∷ ps) =
      if seen_endpoint seen p then dedupe_from seen ps else p ∷ dedupe_from (p ∷ seen) ps

  abbrev pub dedupe_endpoints : List (Endpoint A) → List (Endpoint A)
  dedupe_endpoints ps = dedupe_from [] ps

  abbrev pub broadcast_targets : Peers A → List (ℕ × Endpoint A) → List (Endpoint A)
  broadcast_targets s [] = learned_targets s.learned
  broadcast_targets s (p ∷ ps) = dedupe_endpoints (values (p ∷ ps))

  abbrev pub system_targets : Peers A → Option (Endpoint A) → List (Endpoint A)
  system_targets s none = learned_targets s.learned
  system_targets s (some peer) = peer ∷ []

  abbrev pub meta_targets : Peers A → Meta → List (Endpoint A)
  meta_targets s untargeted = broadcast_targets s s.peers_by_sysid
  meta_targets s (to_group sysids) = dedupe_endpoints (group_peers s sysids)
  meta_targets s (to_system sys) =
      if sys == 0
      then broadcast_targets s s.peers_by_sysid
      else system_targets s (get s.peers_by_sysid sys)

  abbrev pub remote_or : Option (Endpoint A) → List (Endpoint A) → List (Endpoint A)
  remote_or none es = es
  remote_or (some r) es = r ∷ []

  -- `_targets`
  unfoldable pub targets : Peers A → Meta → List (Endpoint A)
  targets s meta = remote_or s.remote (meta_targets s meta)
