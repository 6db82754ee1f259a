-- ===== src/Signing/Examples.antt =====
-- lib/protocol/replay-tracker.js and lib/protocol/link-state.js at concrete inputs.
use node_red_contrib_mavlink.Common.{
  ℕ, ◌≡◌, refl, some, List, [], ◌∷◌, nat_eq, triple_eq, pair_eq, All, ◌==◌, Bool, false, Option,
  none,
}
use node_red_contrib_mavlink.JsMap.{get, set}
use node_red_contrib_mavlink.Signing.{
  new_link, new_tracker, check, passes, next_seq, next_sign_timestamp,
}
use node_red_contrib_mavlink.Signing.Replay.{Frame, accepted_of, Increasing, refused_keeps}
use node_red_contrib_mavlink.Signing.Sequence.{
  Call, numbers, signs, seqs_of, stamps_of, stamps_of_lem,
}
use node_red_contrib_mavlink.Signing.Inbound.{
  Signature, Packet, verify_inbound_packet, admitted, strict, IsAuthentic, stamps, admitted_once,
}
use node_red_contrib_mavlink.Signing.Replay.{Above}

abbrev frame_at : ℕ → Frame
frame_at ts = record { stream = (1, 1, 0); timestamp = some ts; now = some 7000000 }

-- A fresh frame, its replay, an older one, a newer one; the first of them is out of the window.
abbrev captured : List Frame
captured =
    frame_at 3 ∷ frame_at 7000000 ∷ frame_at 7000000 ∷ frame_at 6999999 ∷ frame_at 7000001 ∷ []

captured_accepted : accepted_of (1, 1, 0) captured new_tracker ≡ 7000000 ∷ 7000001 ∷ []
unfolding check passes get set
captured_accepted = refl

refused_keeps_example : (check (1, 1, 0) (some 3) (some 7000000) new_tracker).1 ≡ new_tracker
unfolding check passes get
refused_keeps_example = refused_keeps (1, 1, 0) (some 3) (some 7000000) new_tracker refl

-- Two senders of one link, and one stream whose clock stands still and then goes back.
abbrev calls : List Call
calls =
    numbers (255, 190)
    ∷ numbers (1, 191)
    ∷ signs (255, 190, 0) 50
    ∷ numbers (255, 190)
    ∷ signs (255, 190, 0) 50
    ∷ signs (255, 190, 0) 20
    ∷ []

calls_numbered : seqs_of (255, 190) calls (new_link {Key = ℕ}) ≡ 0 ∷ 1 ∷ []
unfolding next_seq next_sign_timestamp get set
calls_numbered = refl

calls_stamped : stamps_of (255, 190, 0) calls (new_link {Key = ℕ}) ≡ 50 ∷ 51 ∷ 52 ∷ []
unfolding next_seq next_sign_timestamp get set
calls_stamped = refl

stamps_of_lem_example : Above 0 (stamps_of (255, 190, 0) calls (new_link {Key = ℕ}))
stamps_of_lem_example = stamps_of_lem ℕ (255, 190, 0) calls

-- A signature matches the key that its content names.
abbrev signed_with : ℕ → Option (Signature ℕ) → Bool
signed_with key none = false
signed_with key (some s) = s.content == key

abbrev matches_key : ℕ → Packet ℕ → Bool
matches_key key p = signed_with key p.signature

abbrev packet : ℕ → ℕ → Option ℕ × Packet ℕ
packet ts content = (
  some 7000000,
  record {
    sysid = 1;
    compid = 1;
    signature = some (record { link_id = 0; timestamp = some ts; content = content });
  },
)

-- An authentic packet, its replay, a forged one, an unsigned one, and a newer one.
abbrev arrivals : List (Option ℕ × Packet ℕ)
arrivals =
    packet 6000000 9
    ∷ packet 6000000 9
    ∷ packet 6000001 4
    ∷ (some 7000000, record { sysid = 1; compid = 1; signature = none })
    ∷ packet 6000002 9
    ∷ []

arrivals-stamps :
    stamps matches_key (1, 1, 0) (admitted matches_key (strict matches_key 9) arrivals new_tracker)
    ≡ 6000000 ∷ 6000002 ∷ []
unfolding verify_inbound_packet check passes get set
arrivals-stamps = refl

admitted_once_example :
    All
      (IsAuthentic matches_key 9)
      (admitted matches_key (strict matches_key 9) arrivals new_tracker)
    × Increasing (
        stamps matches_key
          (1, 1, 0)
          (admitted matches_key (strict matches_key 9) arrivals new_tracker))
admitted_once_example = admitted_once matches_key 9 (1, 1, 0) arrivals
