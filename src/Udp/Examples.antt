-- ===== src/Udp/Examples.antt =====
-- lib/transport/udp-transport.js at concrete inputs; addresses are numbers, and 0 stands for a blank.
use node_red_contrib_mavlink.Common.{ℕ, ◌≡◌, refl, Bool, none, List, [], ◌∷◌, nat_eq, pair_eq, ◌==◌}
use node_red_contrib_mavlink.JsMap.{get, set}
use node_red_contrib_mavlink.Udp.{Peers, untargeted, to_system, confirm_peer, targets}
use node_red_contrib_mavlink.Udp.Learned.{confirm_all, Reaches, targets-Reaches, unicast_to_last}

abbrev blank : ℕ → Bool
blank n = n == 0

abbrev no_peers : Peers ℕ
no_peers = record { remote = none; peers_by_sysid = []; learned = none }

-- Vehicle 1, a ground station, vehicle 2 behind the address of vehicle 1, vehicle 1 again.
abbrev packets : List (ℕ × (ℕ × ℕ))
packets = (1, (7, 14550)) ∷ (255, (9, 14551)) ∷ (2, (7, 14560)) ∷ (1, (7, 14560)) ∷ []

packets-targets :
    (targets (confirm_all blank packets no_peers) untargeted ≡ (7, 14560) ∷ (9, 14551) ∷ [])
    × (targets (confirm_all blank packets no_peers) (to_system 8) ≡ (7, 14560) ∷ [])
unfolding targets confirm_peer get set
packets-targets = (refl, refl)

targets-Reaches_example :
    Reaches (7, 14560) (targets (confirm_all blank packets no_peers) untargeted)
    × Reaches (7, 14560) (targets (confirm_all blank packets no_peers) (to_system 0))
unfolding get
targets-Reaches_example = targets-Reaches blank packets no_peers 2 (7, 14560) refl refl

unicast_to_last_example :
    targets (confirm_all blank packets no_peers) (to_system 1) ≡ (7, 14560) ∷ []
unfolding get
unicast_to_last_example = unicast_to_last blank packets no_peers 1 (7, 14560) refl refl refl
