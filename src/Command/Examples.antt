-- ===== src/Command/Examples.antt =====
-- Runs of lib/command/command-workflow.js at concrete inputs.
use node_red_contrib_mavlink.Common.{
  ℕ, ◌+◌, ◌≤◌, ◌≡◌, refl, true, false, some, List, [], ◌∷◌, arith, inr, ◌⊎◌, length, nat_eq,
  triple_eq,
}
use node_red_contrib_mavlink.JsMap.{has, get, set, delete}
use node_red_contrib_mavlink.Locks.{acquire, release, is_held}
use node_red_contrib_mavlink.Command.{
  Command, Config, accepted, timed_out, Ack, new, start, finish, step, run, on_ack, on_timeout,
  ignores, Event, send_ends, timer_fires, acked,
}
use node_red_contrib_mavlink.Command.Settle.{Inv, after, settles_once}
use node_red_contrib_mavlink.Command.Retransmit.{
  no_send_in_progress, transmissions_numbered, transmissions,
}
use node_red_contrib_mavlink.Command.Acks.{Acknowledged, success_was-Acknowledged}
use node_red_contrib_mavlink.Command.Silence.{
  silence, windows, silence_times_out, silence_after_progress,
}
use node_red_contrib_mavlink.Command.Exclusion.{key_held_until_settled, key_of}

-- Arm (400) vehicle 1, autopilot 1, as ground station 255/190; three retries.
abbrev arm : Config
arm = record {
  target_system = 1;
  target_component = 1;
  source_system = some 255;
  source_component = some 190;
  accepted_result = 0;
  in_progress_result = 5;
  use_int = false;
  command = 400;
  max_retries = 3;
}

abbrev ack_of : ℕ → ℕ → Ack
ack_of station result = record {
  sysid = 1;
  compid = some 1;
  ack_command = 400;
  result = result;
  ack_system = some station;
  ack_component = some 190;
}

-- One timeout, an ack for another station, and the acceptance.
abbrev retried : List Event
retried =
    send_ends true ∷ timer_fires ∷ acked (ack_of 254 0) ∷ send_ends true ∷ acked (ack_of 255 0) ∷ []

retried_completes :
    let s = after true arm [] [] 1 retried in
    (s.answers ≡ accepted ∷ [])
    × (s.sent ≡ some 1 ∷ some 0 ∷ [])
    × (s.locks ≡ [])
    × (s.link_subs ≡ [])
unfolding start new run step on_ack on_timeout finish ignores acquire release has get set delete
retried_completes = (refl, refl, refl, refl)

settles_once_example : Inv (after true arm [] [] 1 retried)
settles_once_example = settles_once true arm [] [] 1 retried

transmissions_numbered_example :
    let s = after true arm [] [] 1 retried in
    (s.sent ≡ [])
    ⊎ ((s.sent ≡ transmissions false s.retries) × (s.retries ≤ 3) × (length s.sent ≡ s.retries + 1))
transmissions_numbered_example = transmissions_numbered true arm [] [] 1 retried

abbrev started : Command
started = start true (new arm [] [] 1)

abbrev progressing : Command
progressing = run started (send_ends true ∷ acked (ack_of 255 5) ∷ [])

no_send_in_progress_example :
    (run progressing (timer_fires ∷ timer_fires ∷ [])).sent ≡ progressing.sent
unfolding start new run step on_ack finish ignores acquire has
no_send_in_progress_example =
    no_send_in_progress progressing (timer_fires ∷ timer_fires ∷ []) (inr refl)

success_was-Acknowledged_example : Acknowledged arm retried
unfolding start new run step on_ack on_timeout finish ignores acquire release has get set delete
success_was-Acknowledged_example = success_was-Acknowledged true arm [] [] 1 retried refl

silence_times_out_example : (run started (silence 4)).answers ≡ timed_out ∷ started.answers
unfolding start new acquire has
silence_times_out_example =
    (silence_times_out 3 started
      (record { unsettled = refl; unheard = refl; one_pending = omega arith }) refl).0

silence_after_progress_example :
    (run progressing (windows 4)).answers ≡ timed_out ∷ progressing.answers
unfolding start new run step on_ack finish ignores acquire has
silence_after_progress_example =
    (silence_after_progress 3 progressing (record { unsettled = refl; seen = refl; armed = refl })
      refl).0

key_held_until_settled_example :
    let s = after true arm [] [] 1 retried in
    (s.settled ≡ false → is_held (key_of arm) s.locks ≡ true)
    × (s.settled ≡ true → is_held (key_of arm) s.locks ≡ false)
unfolding is_held has
key_held_until_settled_example = key_held_until_settled arm [] [] 1 retried tt refl
