-- ===== src/Command/Exclusion.antt =====
-- The lock of lib/command/command-workflow.js, in a table of lib/runtime/lock-manager.js.
use node_red_contrib_mavlink.Common.{
  ℕ, ◌≡◌, refl, true, false, some, List, [], ◌∷◌, inl, inr, ◌⊎◌, if_cases, ltb, nat_eq, triple_eq,
}
use node_red_contrib_mavlink.JsMap.Laws.{Keyed}
use node_red_contrib_mavlink.Locks.{Lock, LockTable, acquire, release_lock, is_held}
use node_red_contrib_mavlink.Locks.Exclusion.{acquire_exclusive, release_lock-acquire}
use node_red_contrib_mavlink.Command.{
  Command, Config, Key, Answer, accepted, busy, new, finish, start, Event,
}
use node_red_contrib_mavlink.Command.Rule.{Kept, Anything, keep_always}
use node_red_contrib_mavlink.Command.Settle.{after}

abbrev pub key_of : Config → Key
key_of c = (c.target_system, c.target_component, c.command)

-- The lock is held as it was acquired, or the workflow is settled and has released it.
abbrev Owns : Lock Key → LockTable Key → Command → Type 0
Owns l t s =
    ((s.settled ≡ false) × (s.lock ≡ some l) × (s.locks ≡ t))
    ⊎ ((s.settled ≡ true) × (s.locks ≡ release_lock l t))

finish-Owns :
    (l : Lock Key) (t : LockTable Key) (a : Answer) (s : Command)
    → Owns l t s
    → Owns l t (finish a s)
unfolding finish
finish-Owns l t a s (inl (u, h, e)) =
    if_cases (Owns l t) s.settled (λ on. inl (u, h, e)) (λ off. inr (refl, rw (h, e)))
finish-Owns l t a s (inr o) = if_cases (Owns l t) s.settled (λ on. inr o) (λ off. cc)

owns : (l : Lock Key) (t : LockTable Key) → Kept Anything (Owns l t)
owns l t = record {
  finishes = λ a s _ o. finish-Owns l t a s o;
  accepts = λ a s _ _ _ o. finish-Owns l t accepted s o;
  arms = λ s e o. o;
  stops = λ s o. o;
  waits = λ n s o. o;
  ends = λ n s o. o;
  latches = λ s e o. o;
  resends = λ s e p lt o. o;
}

start-Owns :
    (c : Config) (locks t : LockTable Key) (l : Lock Key) (link_subs : List ℕ) (next_sub : ℕ)
    → acquire (key_of c) (some c.command) locks ≡ some (l, t)
    → Owns l t (start true (new c locks link_subs next_sub))
unfolding start new
start-Owns c locks t l link_subs next_sub e = rw e (
    if_cases (Owns l t) (ltb 255 c.target_system)
      (λ bad. finish-Owns l t _ _ (inl (refl, refl, refl))) (λ good. inl (refl, refl, refl)))

held_or_free :
    (k : Key) (l : Lock Key) (t : LockTable Key) (s : Command)
    → is_held k t ≡ true
    → is_held k (release_lock l t) ≡ false
    → Owns l t s
    → (s.settled ≡ false → is_held k s.locks ≡ true)
      × (s.settled ≡ true → is_held k s.locks ≡ false)
held_or_free k l t s h f (inl (u, _, e)) = (λ off. rw e h, λ on. cc)
held_or_free k l t s h f (inr (u, e)) = (λ off. cc, λ on. rw e f)

-- From a table where the key is free, with no other user of the table in between: as long as the workflow is open its key is held, and once it
-- is settled, in whatever way, the key is free again.
pub key_held_until_settled :
    (c : Config) (locks : LockTable Key) (link_subs : List ℕ) (next_sub : ℕ) (evs : List Event)
    → Keyed locks
    → is_held (key_of c) locks ≡ false
    → let s = after true c locks link_subs next_sub evs in
      (s.settled ≡ false → is_held (key_of c) s.locks ≡ true)
      × (s.settled ≡ true → is_held (key_of c) s.locks ≡ false)
key_held_until_settled c locks link_subs next_sub evs keyed free =
    let (l, t, got, held, others) = (acquire_exclusive (key_of c) (some c.command) locks).1 free in
    let freed =
      (release_lock-acquire (key_of c) (key_of c) (some c.command) locks t l keyed got).0 in
    let o =
      keep_always (Owns l t) (owns l t) (start true (new c locks link_subs next_sub)) evs
        (start-Owns c locks t l link_subs next_sub got) in
    held_or_free (key_of c) l t (after true c locks link_subs next_sub evs) held freed o

-- While the key is held, a second identical command fails with COMMAND_BUSY: it sends nothing,
-- subscribes to nothing, and leaves the lock table as it was.
pub identical_command_busy :
    (c : Config) (locks : LockTable Key) (link_subs : List ℕ) (next_sub : ℕ)
    → is_held (key_of c) locks ≡ true
    → let s = start true (new c locks link_subs next_sub) in
      (s.answers ≡ busy ∷ []) × (s.sent ≡ []) × (s.link_subs ≡ link_subs) × (s.locks ≡ locks)
unfolding start new finish
identical_command_busy c locks link_subs next_sub held =
    rw ((acquire_exclusive (key_of c) (some c.command) locks).0 held) (refl, refl, refl, refl)
