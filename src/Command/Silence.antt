-- ===== src/Command/Silence.antt =====
-- How lib/command/command-workflow.js treats a vehicle that stays silent.
use node_red_contrib_mavlink.Common.{
  ℕ, zero, suc, ◌+◌, ◌≤◌, ◌<◌, ◌≡◌, ap, true, false, List, [], ◌∷◌, arith, ◌∙◌,
}
use node_red_contrib_mavlink.Command.{
  Command, failed, timed_out, finish, on_timeout, Event, send_ends, timer_fires, step, run,
}

-- `n` rounds in which the send succeeds and the response time runs out.
abbrev pub silence : ℕ → List Event
silence zero = []
silence (suc n) = send_ends true ∷ timer_fires ∷ silence n

-- `n` further windows in which nothing comes.
abbrev pub windows : ℕ → List Event
windows zero = []
windows (suc n) = timer_fires ∷ windows n

-- A send is under way, and nothing has been heard of the vehicle.
pub record Waiting (s : Command) : Type 0 where
  pub unsettled : s.settled ≡ false
  pub unheard : s.in_progress_seen ≡ false
  pub one_pending : 0 < s.pending

round : Command → Command
round s = step (step s (send_ends true)) timer_fires

round-resend :
    (s : Command)
    → Waiting s
    → s.retries < s.max_retries
    → let t = round s in
      Waiting t
      × (t.retries ≡ suc s.retries)
      × (t.max_retries ≡ s.max_retries)
      × (t.answers ≡ s.answers)
unfolding round step on_timeout
round-resend s w lt = ground (arith, w.unsettled, w.unheard, w.one_pending)

round-end :
    (s : Command)
    → Waiting s
    → s.max_retries ≤ s.retries
    → ((round s).answers ≡ timed_out ∷ s.answers) × ((round s).state ≡ failed)
unfolding round step on_timeout finish
round-end s w le = ground (arith, w.unsettled, w.unheard, w.one_pending)

-- From any state that awaits its first ack, the response times that are left fail the workflow with
-- COMMAND_TIMEOUT: one for each retry left and one more.
pub silence_times_out :
    (n : ℕ) (s : Command)
    → Waiting s
    → s.retries + n ≡ s.max_retries
    → ((run s (silence (suc n))).answers ≡ timed_out ∷ s.answers)
      × ((run s (silence (suc n))).state ≡ failed)
unfolding run round
silence_times_out zero s w e = round-end s w (omega arith)
silence_times_out (suc n) s w e =
    let (w', more, same, kept) = round-resend s w (omega arith) in
    let ih = silence_times_out n (round s) w' (omega arith) in (ih.0 ∙ ap (timed_out ∷◌) kept, ih.1)

-- The vehicle owns the operation, and the timer runs.
pub record Progressing (s : Command) : Type 0 where
  pub unsettled : s.settled ≡ false
  pub seen : s.in_progress_seen ≡ true
  pub armed : s.timer ≡ true

window-wait :
    (s : Command)
    → Progressing s
    → s.in_progress_waits < s.max_retries
    → let t = step s timer_fires in
      Progressing t
      × (t.in_progress_waits ≡ suc s.in_progress_waits)
      × (t.max_retries ≡ s.max_retries)
      × (t.answers ≡ s.answers)
unfolding step on_timeout
window-wait s w lt = ground (arith, w.unsettled, w.seen, w.armed)

window-end :
    (s : Command)
    → Progressing s
    → s.max_retries ≤ s.in_progress_waits
    → let t = step s timer_fires in (t.answers ≡ timed_out ∷ s.answers) × (t.state ≡ failed)
unfolding step on_timeout finish
window-end s w le = ground (arith, w.unsettled, w.seen, w.armed)

-- After IN_PROGRESS the silence budget is as long: when it is used up with no further ack, the
-- workflow fails with COMMAND_TIMEOUT as well.
pub silence_after_progress :
    (n : ℕ) (s : Command)
    → Progressing s
    → s.in_progress_waits + n ≡ s.max_retries
    → ((run s (windows (suc n))).answers ≡ timed_out ∷ s.answers)
      × ((run s (windows (suc n))).state ≡ failed)
unfolding run
silence_after_progress zero s w e = window-end s w (omega arith)
silence_after_progress (suc n) s w e =
    let (w', more, same, kept) = window-wait s w (omega arith) in
    let ih = silence_after_progress n (step s timer_fires) w' (omega arith) in
    (ih.0 ∙ ap (timed_out ∷◌) kept, ih.1)
