-- ===== src/Command/Retransmit.antt =====
-- What lib/command/command-workflow.js transmits: how often, with which confirmation, and when no
-- more.
use node_red_contrib_mavlink.Common.{
  ℕ, zero, suc, ◌+◌, ◌%◌, ◌≤◌, ◌≡◌, refl, Bool, true, false, Option, none, some, List, [], ◌∷◌,
  arith, inl, inr, ◌⊎◌, ap, if◌then◌else◌, if_cases, length, nat_eq, triple_eq, ltb,
}
use node_red_contrib_mavlink.Locks.{Lock, LockTable}
use node_red_contrib_mavlink.Command.Rule.{Kept, Anything, keep_always}
use node_red_contrib_mavlink.Command.{
  Command, Config, Key, Answer, accepted, connection_invalid, bad_filter, busy, new, finish,
  with_lock, start, Event, run,
}
use node_red_contrib_mavlink.Command.Settle.{after}

abbrev confirmation_of : Bool → ℕ → Option ℕ
confirmation_of use_int c = if use_int then none else some c

-- The first transmission and `n` retransmissions, newest first.
abbrev pub transmissions : Bool → ℕ → List (Option ℕ)
transmissions use_int zero = confirmation_of use_int 0 ∷ []
transmissions use_int (suc n) = confirmation_of use_int (suc n % 256) ∷ transmissions use_int n

pub record Counts (use_int : Bool) (max_retries : ℕ) (sent : List (Option ℕ))
    (retries confirmation : ℕ) : Type 0 where
  pub numbered : sent ≡ transmissions use_int retries
  pub next_number : confirmation ≡ retries % 256
  pub bounded : retries ≤ max_retries

abbrev Counted : Command → Type 0
Counted s = Counts s.use_int s.max_retries s.sent s.retries s.confirmation

finish-Counted : (a : Answer) (s : Command) → Counted s → Counted (finish a s)
unfolding finish
finish-Counted a s v = if_cases Counted s.settled (λ on. v) (λ off. v)

counted : Kept Anything Counted
counted = record {
  finishes = λ a s _ v. finish-Counted a s v;
  accepts = λ a s _ _ _ v. finish-Counted accepted s v;
  arms = λ s e v. v;
  stops = λ s v. v;
  waits = λ n s v. v;
  ends = λ n s v. v;
  latches = λ s e v. v;
  resends = λ s e p lt v. record {
    numbered = ground (arith, v.numbered, v.next_number);
    next_number = omega (arith, v.next_number);
    bounded = lt;
  };
}

-- Settled, or waiting for the end of an operation that the vehicle has reported.
abbrev pub Quiet : Command → Type 0
Quiet s = (s.settled ≡ true) ⊎ (s.in_progress_seen ≡ true)

abbrev QuietWith : List (Option ℕ) → Command → Type 0
QuietWith l s = Quiet s × (s.sent ≡ l)

finish-Quiet :
    (l : List (Option ℕ)) (a : Answer) (s : Command) → QuietWith l s → QuietWith l (finish a s)
unfolding finish
finish-Quiet l a s q = if_cases (QuietWith l) s.settled (λ on. q) (λ off. (inl refl, q.1))

quiet : (l : List (Option ℕ)) → Kept Anything (QuietWith l)
quiet l = record {
  finishes = λ a s _ q. finish-Quiet l a s q;
  accepts = λ a s _ _ _ q. finish-Quiet l accepted s q;
  arms = λ s e q. q;
  stops = λ s q. q;
  waits = λ n s q. q;
  ends = λ n s q. q;
  latches = λ s e q. (inr refl, q.1);
  resends = λ s e p lt q. ground (arith, q.0);
}

-- Once the vehicle has reported IN_PROGRESS, or the workflow is settled, no event makes it transmit
-- again: a retransmission could restart the operation.
pub no_send_in_progress : (s : Command) (evs : List Event) → Quiet s → (run s evs).sent ≡ s.sent
no_send_in_progress s evs q = (keep_always (QuietWith s.sent) (quiet s.sent) s evs (q, refl)).1

length-transmissions : (u : Bool) (n : ℕ) → length (transmissions u n) ≡ suc n
length-transmissions u zero = refl
length-transmissions u (suc n) = ap suc (length-transmissions u n)

-- A start that fails settles at once with nothing sent; one that succeeds sends number 0.
abbrev Started : Command → Type 0
Started s =
    (Quiet s × (s.sent ≡ [])) ⊎ Counts s.use_int s.max_retries s.sent s.retries s.confirmation

finish-Started : (a : Answer) (s : Command) → s.sent ≡ [] → s.settled ≡ false → Started (finish a s)
unfolding finish
finish-Started a s e n = if_cases Started s.settled (λ on. cc) (λ off. inl (inl refl, e))

with_lock-Started :
    (r : Option (Lock Key × LockTable Key)) (s : Command)
    → s.sent ≡ []
    → s.settled ≡ false
    → s.retries ≡ 0
    → s.confirmation ≡ 0
    → Started (with_lock r s)
with_lock-Started none s e n r0 c0 = finish-Started busy s e n
with_lock-Started (some (l, t)) s e n r0 c0 =
    if_cases Started (ltb 255 s.target_system)
      (λ bad. finish-Started bad_filter (record s { lock = some l; locks = t }) e n)
      (λ good. inr first)
  where
    first :
        Counts s.use_int s.max_retries
          ((if s.use_int then none else some s.confirmation) ∷ s.sent)
          s.retries
          s.confirmation
    first = record { numbered = ground arith; next_number = omega arith; bounded = omega arith }

start-Started :
    (initialised : Bool) (c : Config) (locks : LockTable Key) (link_subs : List ℕ) (next_sub : ℕ)
    → Started (start initialised (new c locks link_subs next_sub))
unfolding start new
start-Started initialised c locks link_subs next_sub =
    if_cases Started initialised
      (λ on. with_lock-Started _ (new c locks link_subs next_sub) refl refl refl refl)
      (λ off. finish-Started connection_invalid (new c locks link_subs next_sub) refl refl)

run-Started : (s : Command) (evs : List Event) → Started s → Started (run s evs)
run-Started s evs (inl (q, e)) = inl (keep_always (QuietWith []) (quiet []) s evs (q, e))
run-Started s evs (inr v) = inr (keep_always Counted counted s evs v)

pub finish-config : (c : Config) (a : Answer) (s : Command) → s.config ≡ c → (finish a s).config ≡ c
unfolding finish
finish-config c a s e = if_cases {A = Command} (λ t. t.config ≡ c) s.settled (λ on. e) (λ off. e)

pub keeps_config : (c : Config) → Kept Anything (λ s. s.config ≡ c)
keeps_config c = record {
  finishes = λ a s _ e. finish-config c a s e;
  accepts = λ a s _ _ _ e. finish-config c accepted s e;
  arms = λ s _ e. e;
  stops = λ s e. e;
  waits = λ n s e. e;
  ends = λ n s e. e;
  latches = λ s _ e. e;
  resends = λ s _ _ _ e. e;
}

pub start-config :
    (initialised : Bool) (c : Config) (locks : LockTable Key) (link_subs : List ℕ) (next_sub : ℕ)
    → (start initialised (new c locks link_subs next_sub)).config ≡ c
unfolding start new finish
start-config initialised c locks link_subs next_sub = ground arith

-- After `run()` and any events, either nothing was ever sent, or exactly the first transmission and
-- one for each retry were sent, with the confirmations 0, 1, 2, ... modulo 256 in this order (none
-- for COMMAND_INT), and there were at most `maxRetries` retries.
pub transmissions_numbered :
    (initialised : Bool) (c : Config) (locks : LockTable Key) (link_subs : List ℕ) (next_sub : ℕ)
    (evs : List Event)
    → let s = after initialised c locks link_subs next_sub evs in
      (s.sent ≡ [])
      ⊎ ((s.sent ≡ transmissions c.use_int s.retries)
          × (s.retries ≤ c.max_retries)
          × (length s.sent ≡ s.retries + 1))
transmissions_numbered initialised c locks link_subs next_sub evs =
    on_config (after initialised c locks link_subs next_sub evs)
      (keep_always _ (keeps_config c) _ evs (start-config initialised c locks link_subs next_sub))
      (run-Started (start initialised (new c locks link_subs next_sub)) evs
        (start-Started initialised c locks link_subs next_sub))
  where
    on_config :
        (s : Command)
        → s.config ≡ c
        → Started s
        → (s.sent ≡ [])
          ⊎ ((s.sent ≡ transmissions c.use_int s.retries)
              × (s.retries ≤ c.max_retries)
              × (length s.sent ≡ s.retries + 1))
    on_config s e (inl q) = inl q.1
    on_config s e (inr v) = inr (
      ground (arith, v.numbered),
      ground (arith, v.bounded),
      omega (arith, ap length v.numbered, length-transmissions s.use_int s.retries),
    )
