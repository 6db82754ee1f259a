-- ===== src/Command/Rule.antt =====
-- The rule for properties that every event keeps: the changes that the handlers of
-- lib/command/command-workflow.js are made of.
use node_red_contrib_mavlink.Common.{
  ℕ, suc, ◌+◌, ◌-◌, ◌%◌, ◌<◌, ◌≡◌, refl, Bool, true, false, List, [], ◌∷◌, arith, if_cases, All,
  is_empty, leb, ◌==◌,
}
use node_red_contrib_mavlink.Command.{
  Command, Answer, accepted, rejected, timed_out, aborted, send_failed, in_progress, Ack, finish,
  send_command, arm_timeout, on_timeout, ignores, on_ack, Event, send_ends, timer_fires, acked,
  aborts, step, run,
}

abbrev pub is_accepted : Answer → Bool
is_accepted accepted = true
is_accepted _ = false

-- Each field: one kind of change keeps `P`, under what the handlers have tested.
-- `Q` is what is known of an ack that arrives.
pub record Kept (Q : Ack → Type 0) (P : Command → Type 0) : Type 0 where
  pub finishes : (a : Answer) (s : Command) → is_accepted a ≡ false → P s → P (finish a s)
  pub accepts :
      (a : Ack) (s : Command)
      → Q a
      → ignores s.config a ≡ false
      → (a.result == s.accepted_result) ≡ true
      → P s
      → P (finish accepted s)
  pub arms : (s : Command) → s.settled ≡ false → P s → P (record s { timer = true })
  pub stops : (s : Command) → P s → P (record s { timer = false })
  pub waits : (n : ℕ) (s : Command) → P s → P (record s { in_progress_waits = n })
  pub ends : (n : ℕ) (s : Command) → P s → P (record s { pending = n })
  pub latches :
      (s : Command)
      → is_empty s.subs ≡ false
      → P s
      → P (record s {
        state = in_progress;
        in_progress_seen = true;
        in_progress_waits = 0;
        timer = false;
      })
  pub resends :
      (s : Command)
      → s.settled ≡ false
      → s.in_progress_seen ≡ false
      → s.retries < s.max_retries
      → P s
      → P (
          send_command
            (record s { retries = suc s.retries; confirmation = (s.confirmation + 1) % 256 }))

abbrev pub Known : (Ack → Type 0) → Event → Type 0
Known Q (acked a) = Q a
Known Q (send_ends b) = Unit
Known Q timer_fires = Unit
Known Q aborts = Unit

module _ (Q : Ack → Type 0) (P : Command → Type 0) (k : Kept Q P) where
  keep_arm : (s : Command) → P s → P (arm_timeout s)
  keep_arm s p = if_cases P s.settled (λ on. p) (λ off. k.arms s off p)

  keep_timeout : (s : Command) → P s → P (on_timeout s)
  unfolding on_timeout
  keep_timeout s p =
      if_cases P s.settled (λ on. p)
        (λ off.
          if_cases P s.in_progress_seen
            (λ seen.
              if_cases P (leb s.max_retries s.in_progress_waits)
                (λ f. k.finishes timed_out s refl p)
                (λ f. keep_arm _ (k.waits (suc s.in_progress_waits) s p)))
            (λ seen.
              if_cases P (leb s.max_retries s.retries) (λ f. k.finishes timed_out s refl p)
                (λ f. k.resends s off seen (ground arith) p)))

  keep_ack : (a : Ack) (s : Command) → Q a → is_empty s.subs ≡ false → P s → P (on_ack a s)
  unfolding on_ack
  keep_ack a s h e p =
      if_cases P (ignores s.config a) (λ other. p)
        (λ ours.
          if_cases P (a.result == s.in_progress_result) (λ q. keep_arm _ (k.latches s e p))
            (λ q.
              if_cases P (a.result == s.accepted_result)
                (λ yes_result. k.accepts a _ h ours yes_result (k.stops s p))
                (λ other_result. k.finishes (rejected a.result) _ refl (k.stops s p))))

  keep_step : (s : Command) (ev : Event) → Known Q ev → P s → P (step s ev)
  unfolding step
  keep_step s (send_ends true) h p =
      if_cases P (s.pending == 0) (λ n. p) (λ y. keep_arm _ (k.ends (s.pending - 1) s p))
  keep_step s (send_ends false) h p =
      if_cases P (s.pending == 0) (λ n. p)
        (λ y. k.finishes send_failed _ refl (k.ends (s.pending - 1) s p))
  keep_step s timer_fires h p = if_cases P s.timer (λ on. keep_timeout _ (k.stops s p)) (λ off. p)
  keep_step s (acked a) h p = if_cases P (is_empty s.subs) (λ e. p) (λ e. keep_ack a s h e p)
  keep_step s aborts h p = k.finishes aborted s refl p

  pub keep_run : (s : Command) (evs : List Event) → All (Known Q) evs → P s → P (run s evs)
  unfolding run
  keep_run s [] h p = p
  keep_run s (ev ∷ evs) h p = keep_run (step s ev) evs h.1 (keep_step s ev h.0 p)

-- Of any ack.
abbrev pub Anything : Ack → Type 0
Anything a = Unit

any_event : (ev : Event) → Known Anything ev
any_event (acked a) = tt
any_event _ = tt

any_events : (evs : List Event) → All (Known Anything) evs
any_events [] = tt
any_events (ev ∷ evs) = (any_event ev, any_events evs)

-- The rule for properties that need to know nothing of the acks.
pub keep_always :
    (P : Command → Type 0) (k : Kept Anything P) (s : Command) (evs : List Event)
    → P s
    → P (run s evs)
keep_always P k s evs p = keep_run Anything P k s evs (any_events evs) p
