-- ===== src/Command/Settle.antt =====
-- How lib/command/command-workflow.js settles, and what it leaves behind.
use node_red_contrib_mavlink.Common.{
  ℕ, suc, ◌≡◌, refl, sym, Bool, true, false, Option, none, some, List, [], ◌∷◌, arith,
  if◌then◌else◌, if_cases, length, nat_eq, triple_eq, ltb,
}
use node_red_contrib_mavlink.Locks.{Lock, LockTable}
use node_red_contrib_mavlink.Command.Rule.{Kept, Anything, keep_always}
use node_red_contrib_mavlink.Command.{
  Command, Config, Key, State, complete, failed, Answer, accepted, busy, connection_invalid,
  bad_filter, new, finish, end_state, send_command, with_lock, start, Event, run,
}

abbrev pub is_terminal : State → Bool
is_terminal complete = true
is_terminal failed = true
is_terminal _ = false

-- Before the settlement nothing is answered; behind it there is one answer, and no timer, no
-- subscription and no lock is left.
pub record Closes (answers : List Answer) (settled : Bool) (state : State) (timer : Bool)
    (subs : List ℕ) (lock : Option (Lock Key)) : Type 0 where
  pub answered_once : length answers ≡ (if settled then 1 else 0)
  pub terminal : is_terminal state ≡ settled
  pub no_timer : settled ≡ true → timer ≡ false
  pub no_subs : settled ≡ true → subs ≡ []
  pub no_lock : settled ≡ true → lock ≡ none

abbrev pub Inv : Command → Type 0
Inv s = Closes s.answers s.settled s.state s.timer s.subs s.lock

end_state-terminal : (a : Answer) → is_terminal (end_state a) ≡ true
end_state-terminal accepted = refl
end_state-terminal _ = refl

finish-Inv : (a : Answer) (s : Command) → Inv s → Inv (finish a s)
unfolding finish
finish-Inv a s v =
    if_cases Inv s.settled (λ old. v)
      (λ e. record {
        answered_once = ground (arith, v.answered_once);
        terminal = end_state-terminal a;
        no_timer = λ _. refl;
        no_subs = λ _. refl;
        no_lock = λ _. refl;
      })

send_command-Inv : (s : Command) → s.settled ≡ false → Inv s → Inv (send_command s)
send_command-Inv s e v = record {
  answered_once = v.answered_once;
  terminal = sym e;
  no_timer = v.no_timer;
  no_subs = v.no_subs;
  no_lock = v.no_lock;
}

kept : Kept Anything Inv
kept = record {
  finishes = λ a s _ v. finish-Inv a s v;
  accepts = λ a s _ _ _ v. finish-Inv accepted s v;
  arms = λ s e v. record {
    answered_once = v.answered_once;
    terminal = v.terminal;
    no_timer = λ on. cc;
    no_subs = v.no_subs;
    no_lock = v.no_lock;
  };
  stops = λ s v. record {
    answered_once = v.answered_once;
    terminal = v.terminal;
    no_timer = λ _. refl;
    no_subs = v.no_subs;
    no_lock = v.no_lock;
  };
  waits = λ n s v. v;
  ends = λ n s v. v;
  latches = λ s e v. record {
    answered_once = v.answered_once;
    terminal = ground (arith, v.no_subs);
    no_timer = λ _. refl;
    no_subs = v.no_subs;
    no_lock = v.no_lock;
  };
  resends = λ s e _ _ v. send_command-Inv s e v;
}

pub run-Inv : (s : Command) (evs : List Event) → Inv s → Inv (run s evs)
run-Inv = keep_always Inv kept

with_lock-Inv :
    (r : Option (Lock Key × LockTable Key)) (s : Command)
    → s.settled ≡ false
    → Inv s
    → Inv (with_lock r s)
with_lock-Inv none s e v = finish-Inv busy s v
with_lock-Inv (some (l, t)) s e v =
    if_cases Inv (ltb 255 s.target_system)
      (λ bad. finish-Inv bad_filter (record s { lock = some l; locks = t }) held)
      (λ good.
        send_command-Inv
          (record s {
            lock = some l;
            locks = t;
            subs = s.next_sub ∷ s.subs;
            link_subs = s.next_sub ∷ s.link_subs;
            next_sub = suc s.next_sub;
          })
          e (open_sub e))
  where
    held : Closes s.answers s.settled s.state s.timer s.subs (some l)
    held = record {
      answered_once = v.answered_once;
      terminal = v.terminal;
      no_timer = v.no_timer;
      no_subs = v.no_subs;
      no_lock = λ on. cc;
    }

    open_sub :
        s.settled ≡ false
        → Closes s.answers s.settled s.state s.timer (s.next_sub ∷ s.subs) (some l)
    open_sub e = record {
      answered_once = v.answered_once;
      terminal = v.terminal;
      no_timer = v.no_timer;
      no_subs = λ on. cc;
      no_lock = λ on. cc;
    }

pub start-Inv :
    (initialised : Bool) (s : Command) → s.settled ≡ false → Inv s → Inv (start initialised s)
unfolding start
start-Inv initialised s e v =
    if_cases Inv initialised (λ on. with_lock-Inv _ s e v)
      (λ off. finish-Inv connection_invalid s v)

pub new-Inv :
    (c : Config) (locks : LockTable Key) (link_subs : List ℕ) (next_sub : ℕ)
    → Inv (new c locks link_subs next_sub)
unfolding new
new-Inv c locks link_subs next_sub = record {
  answered_once = refl;
  terminal = refl;
  no_timer = λ _. refl;
  no_subs = λ _. refl;
  no_lock = λ _. refl;
}

pub new-settled :
    (c : Config) (locks : LockTable Key) (link_subs : List ℕ) (next_sub : ℕ)
    → (new c locks link_subs next_sub).settled ≡ false
unfolding new
new-settled c locks link_subs next_sub = refl

-- The workflow after `run()` and any events.
abbrev pub after : Bool → Config → LockTable Key → List ℕ → ℕ → List Event → Command
after initialised c locks link_subs next_sub evs =
    run (start initialised (new c locks link_subs next_sub)) evs

-- After `run()` and any events the promise is settled at most once: it is settled exactly in the
-- states complete and failed, with one answer, and then no timer, no subscription and no lock of the
-- workflow is left; before that there is no answer.
pub settles_once :
    (initialised : Bool) (c : Config) (locks : LockTable Key) (link_subs : List ℕ) (next_sub : ℕ)
    (evs : List Event)
    → Inv (after initialised c locks link_subs next_sub evs)
settles_once initialised c locks link_subs next_sub evs = run-Inv _ evs (
    start-Inv initialised _ (new-settled c locks link_subs next_sub)
      (new-Inv c locks link_subs next_sub))
