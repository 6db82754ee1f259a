-- ===== src/Command/Acks.antt =====
-- Which acks settle lib/command/command-workflow.js, and how.
use node_red_contrib_mavlink.Common.{
  ℕ, ◌≡◌, refl, subst, ◌≢◌, ◌↔◌, Bool, true, false, Option, none, some, List, [], ◌∷◌, arith, inl,
  inr, ◌⊎◌, if_cases, All,
}
use node_red_contrib_mavlink.Locks.{LockTable}
use node_red_contrib_mavlink.Command.{
  Command, Config, Key, complete, failed, Answer, accepted, rejected, Ack, new, finish, names_other,
  other_component, ignores, on_ack, start, Event, acked, send_ends, timer_fires, aborts,
}
use node_red_contrib_mavlink.Command.Rule.{Kept, Known, is_accepted, keep_run}
use node_red_contrib_mavlink.Command.Settle.{after}
use node_red_contrib_mavlink.Command.Retransmit.{start-config}

-- An extension field that is absent, broadcast, or names this station; an unknown own id passes.
abbrev pub Names : Option ℕ → Option ℕ → Type 0
Names none field = Unit
Names (some own) none = Unit
Names (some own) (some t) = (t ≡ 0) ⊎ (t ≡ own)

-- A component that answers for a target: any one for a broadcast, else the target itself.
abbrev pub Responds : ℕ → Option ℕ → Type 0
Responds target none = Unit
Responds target (some comp) = (target ≡ 0) ⊎ (comp ≡ target)

-- The ack of this command, from its target, for this station.
pub record IsOurs (c : Config) (a : Ack) : Type 0 where
  pub system : a.sysid ≡ c.target_system
  pub component : Responds c.target_component a.compid
  pub same_command : a.ack_command ≡ c.command
  pub for_system : Names c.source_system a.ack_system
  pub for_component : Names c.source_component a.ack_component

Names-iff : (own field : Option ℕ) → (names_other own field ≡ false) ↔ Names own field
Names-iff none field = (λ _. tt, λ _. refl)
Names-iff (some own) none = (λ _. tt, λ _. refl)
Names-iff (some own) (some t) = ground arith

Responds-iff :
    (target : ℕ) (comp : Option ℕ) → (other_component target comp ≡ false) ↔ Responds target comp
Responds-iff target none = (λ _. tt, λ _. refl)
Responds-iff target (some comp) = ground arith

pub IsOurs-ignores : (c : Config) (a : Ack) → ignores c a ≡ false → IsOurs c a
unfolding ignores
IsOurs-ignores c a h = record {
  system = ground arith;
  component = (Responds-iff c.target_component a.compid).0 (ground arith);
  same_command = ground arith;
  for_system = (Names-iff c.source_system a.ack_system).0 (ground arith);
  for_component = (Names-iff c.source_component a.ack_component).0 (ground arith);
}

ignores-IsOurs : (c : Config) (a : Ack) → IsOurs c a → ignores c a ≡ false
unfolding ignores
ignores-IsOurs c a o = ground (
  arith,
  o.system,
  o.same_command,
  (Responds-iff c.target_component a.compid).1 o.component,
  (Names-iff c.source_system a.ack_system).1 o.for_system,
  (Names-iff c.source_component a.ack_component).1 o.for_component,
)

-- What an open workflow does with an ack. One that is not ours changes nothing. Ours: IN_PROGRESS
-- latches the operation, resets the silence budget and arms the timer without an answer; ACCEPTED
-- completes with one answer; any other result fails with it.
pub on_ack_cases :
    (a : Ack) (s : Command)
    → s.settled ≡ false
    → (¬ (IsOurs s.config a) → on_ack a s ≡ s)
      × (IsOurs s.config a
          → a.result ≡ s.in_progress_result
          → ((on_ack a s).in_progress_seen ≡ true)
            × ((on_ack a s).in_progress_waits ≡ 0)
            × ((on_ack a s).timer ≡ true)
            × ((on_ack a s).answers ≡ s.answers))
      × (IsOurs s.config a
          → a.result ≢ s.in_progress_result
          → a.result ≡ s.accepted_result
          → ((on_ack a s).state ≡ complete) × ((on_ack a s).answers ≡ accepted ∷ s.answers))
      × (IsOurs s.config a
          → a.result ≢ s.in_progress_result
          → a.result ≢ s.accepted_result
          → ((on_ack a s).state ≡ failed) × ((on_ack a s).answers ≡ rejected a.result ∷ s.answers))
unfolding on_ack finish
on_ack_cases a s unsettled = (
  λ other.
      if_cases {A = Command} (λ t. t ≡ s) (ignores s.config a) (λ h. refl)
        (λ h. absurd (other (IsOurs-ignores s.config a h))),
  λ o r. ground (arith, ignores-IsOurs s.config a o),
  λ o p r. ground (arith, ignores-IsOurs s.config a o),
  λ o p r. ground (arith, ignores-IsOurs s.config a o),
)

-- An ack of the list that is ours and says ACCEPTED.
abbrev pub Acknowledged : Config → List Event → Type 0
Acknowledged c [] = ⊥
Acknowledged c (acked a ∷ evs) = (IsOurs c a × (a.result ≡ c.accepted_result)) ⊎ Acknowledged c evs
Acknowledged c (send_ends b ∷ evs) = Acknowledged c evs
Acknowledged c (timer_fires ∷ evs) = Acknowledged c evs
Acknowledged c (aborts ∷ evs) = Acknowledged c evs

abbrev Unless : Config → Type 0 → Command → Type 0
Unless c E s = (s.config ≡ c) × (All (λ a. is_accepted a ≡ false) s.answers ⊎ E)

-- What an ack would give, if it were accepted.
abbrev Gives : Config → Type 0 → Ack → Type 0
Gives c E a = IsOurs c a → a.result ≡ c.accepted_result → E

both_errors :
    (E : Type 0) (a : Answer) (l : List Answer)
    → (is_accepted a ≡ false) ⊎ E
    → All (λ b. is_accepted b ≡ false) l ⊎ E
    → All (λ b. is_accepted b ≡ false) (a ∷ l) ⊎ E
both_errors E a l (inl e) (inl h) = inl (e, h)
both_errors E a l (inl e) (inr x) = inr x
both_errors E a l (inr x) h = inr x

finish-Unless :
    (c : Config) (E : Type 0) (a : Answer) (s : Command)
    → (is_accepted a ≡ false) ⊎ E
    → Unless c E s
    → Unless c E (finish a s)
unfolding finish
finish-Unless c E a s why p =
    if_cases (Unless c E) s.settled (λ on. p) (λ off. (p.0, both_errors E a s.answers why p.1))

kept : (c : Config) (E : Type 0) → Kept (Gives c E) (Unless c E)
kept c E = record {
  finishes = λ a s e p. finish-Unless c E a s (inl e) p;
  accepts = λ a s g ours r p.
      finish-Unless c E accepted s
        (inr
          (g (subst (λ d. IsOurs d a) p.0 (IsOurs-ignores s.config a ours)) (ground (arith, p.0))))
        p;
  arms = λ s e p. p;
  stops = λ s p. p;
  waits = λ n s p. p;
  ends = λ n s p. p;
  latches = λ s e p. p;
  resends = λ s e q lt p. p;
}

Known-mono : (Q R : Ack → Type 0) (f : (a : Ack) → Q a → R a) (ev : Event) → Known Q ev → Known R ev
Known-mono Q R f (acked a) h = f a h
Known-mono Q R f (send_ends b) h = tt
Known-mono Q R f timer_fires h = tt
Known-mono Q R f aborts h = tt

-- Every ack of a list gives the event that the list holds an acceptance, if it is one.
heard_in :
    (c : Config) (evs all : List Event)
    → (Acknowledged c evs → Acknowledged c all)
    → All (Known (Gives c (Acknowledged c all))) evs
heard_in c [] all f = tt
heard_in c (acked a ∷ evs) all f = (λ o r. f (inl (o, r)), heard_in c evs all (λ h. f (inr h)))
heard_in c (send_ends b ∷ evs) all f = (tt, heard_in c evs all f)
heard_in c (timer_fires ∷ evs) all f = (tt, heard_in c evs all f)
heard_in c (aborts ∷ evs) all f = (tt, heard_in c evs all f)

start-NoSuccess :
    (initialised : Bool) (c : Config) (locks : LockTable Key) (link_subs : List ℕ) (next_sub : ℕ)
    → All (λ a. is_accepted a ≡ false) (start initialised (new c locks link_subs next_sub)).answers
unfolding start new finish
start-NoSuccess initialised c locks link_subs next_sub = ground arith

accepted_heard :
    (E : Type 0) (l : List Answer) → All (λ a. is_accepted a ≡ false) l ⊎ E → l ≡ accepted ∷ [] → E
accepted_heard E l (inr x) e = x
accepted_heard E l (inl h) e = absurd (ground arith)

-- No false success: if the promise is resolved, then among the events was a COMMAND_ACK of this
-- command from its target, addressed to this station, with the result ACCEPTED.
pub success_was-Acknowledged :
    (initialised : Bool) (c : Config) (locks : LockTable Key) (link_subs : List ℕ) (next_sub : ℕ)
    (evs : List Event)
    → (after initialised c locks link_subs next_sub evs).answers ≡ accepted ∷ []
    → Acknowledged c evs
success_was-Acknowledged initialised c locks link_subs next_sub evs =
    let E : Type 0 = Acknowledged c evs in
    accepted_heard E (after initialised c locks link_subs next_sub evs).answers
      (keep_run (Gives c E) (Unless c E) (kept c E)
        (start initialised (new c locks link_subs next_sub)) evs (heard_in c evs evs (λ h. h))
        (
          start-config initialised c locks link_subs next_sub,
          inl (start-NoSuccess initialised c locks link_subs next_sub),
        )).1
