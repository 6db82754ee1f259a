-- ===== src/Outbound/Runs.antt =====
-- What holds of lib/runtime/outbound-queue.js after any sequence of calls and completed writes.
use node_red_contrib_mavlink.Common.{
  ℕ, ◌+◌, ◌≤◌, ◌≡◌, refl, Bool, Option, none, some, List, [], ◌∷◌, arith, ltb, leb, ◌==◌,
  if◌then◌else◌, if_cases, length, tally, Eq, nat_eq,
}
use node_red_contrib_mavlink.JsMap.{has}
use node_red_contrib_mavlink.JsMap.Laws.{Keyed}
use node_red_contrib_mavlink.Outbound.{
  Outbound, drop_coalesced, drop_superseded, push_item, enqueue, key_is, new, AgeOption, Event,
  enqueues, writer_ends, direct_ends, drops, drops_matching, clears, step, run, resolved,
  queue_full,
}
use node_red_contrib_mavlink.Outbound.Ledger.{paid, owed, is_id}
use node_red_contrib_mavlink.Outbound.Invariant.{
  Inv, Working, written-Inv, remove-Books, remove-Working, drop_coalesced_matching-Inv,
  direct_written-Inv, clear-Inv, drain-Inv, push-Books, refuse-Books, direct-Books,
}

module _ {K P : Type 0} ⦃e : Eq K⦄ where
  drop_coalesced-Inv : (k : K) (s : Outbound K P) → Inv s → Inv (drop_coalesced k s).0
  unfolding drop_coalesced
  drop_coalesced-Inv k s v = drop_coalesced_matching-Inv (key_is k) s v

  drop_superseded-Inv : (k : K) (s : Outbound K P) → Inv s → Inv (drop_superseded k s).1
  unfolding drop_superseded
  drop_superseded-Inv k s v = record {
    books = remove-Books s (key_is k) resolved v.books;
    working = remove-Working s (key_is k) v.working;
  }

  push_item-Inv :
      (payload : P) (priority : ℕ) (key : Option K) (on_write : Bool) (now : ℕ) (at : Option ℕ)
      (s : Outbound K P)
      → Inv s
      → Inv (push_item payload priority key on_write now at s)
  unfolding push_item
  push_item-Inv payload priority key on_write now at s v =
      if_cases Inv (leb s.max_length (length s.queue))
        (λ full. record { books = refuse-Books s queue_full v.books; working = v.working })
        (λ room.
          drain-Inv now _ (ground (arith, v.working)) (push-Books _ s refl (ground arith) v.books))

  enqueue-Inv :
      (payload : P) (priority : ℕ) (key : Option K) (on_write : Bool) (now : ℕ) (s : Outbound K P)
      → Inv s
      → Inv (enqueue payload priority key on_write now s)
  unfolding enqueue
  enqueue-Inv payload priority none on_write now s v =
      if_cases Inv s.enabled (λ on. push_item-Inv payload priority none on_write now none s v)
        (λ off. record { books = direct-Books _ s refl v.books; working = v.working })
  enqueue-Inv payload priority (some k) on_write now s v =
      if_cases Inv s.enabled
        (λ on. push_item-Inv payload priority (some k) on_write now _ _ (drop_superseded-Inv k s v))
        (λ off. record { books = direct-Books _ s refl v.books; working = v.working })

  step-Inv : (s : Outbound K P) (ev : Event K P) → Inv s → Inv (step s ev)
  unfolding step
  step-Inv s (enqueues payload priority key on_write now) v =
      enqueue-Inv payload priority key on_write now s v
  step-Inv s (writer_ends w now) v = written-Inv w now s v
  step-Inv s (direct_ends i w) v = direct_written-Inv i w s v
  step-Inv s (drops k) v = drop_coalesced-Inv k s v
  step-Inv s (drops_matching p) v = drop_coalesced_matching-Inv p s v
  step-Inv s clears v = clear-Inv s v

  run-Inv : (s : Outbound K P) (evs : List (Event K P)) → Inv s → Inv (run s evs)
  unfolding run
  run-Inv s [] v = v
  run-Inv s (ev ∷ evs) v = run-Inv (step s ev) evs (step-Inv s ev v)

  new-Inv :
      (enabled : Bool) (max : Option ℕ) (age : AgeOption)
      → Inv (new {K = K} {P = P} enabled max age)
  unfolding new has
  new-Inv enabled max age = record {
    books = record {
      balanced = λ i. ground arith;
      bounded = ground arith;
      answered = tt;
      abandoned = tt;
      traced_once = λ i. omega arith;
      written_once = λ i. ground arith;
    };
    working = tt;
  }

  abbrev pub after : Bool → Option ℕ → AgeOption → List (Event K P) → Outbound K P
  after enabled max age evs = run (new enabled max age) evs

  pub after-Inv :
      (enabled : Bool) (max : Option ℕ) (age : AgeOption) (evs : List (Event K P))
      → Inv (after enabled max age evs)
  after-Inv enabled max age evs = run-Inv _ evs (new-Inv enabled max age)

  -- In every state that the queue can reach, each call of `enqueue` that was made has either one
  -- open promise (queued, in flight or passed through) or one settlement in the log, never both and
  -- never neither; a call that was not made has none; and no promise is in the log twice.
  pub settled_once :
      (enabled : Bool) (max : Option ℕ) (age : AgeOption) (evs : List (Event K P))
      → let s = after enabled max age evs in
        ((i : ℕ) → owed i s + paid i s.settled ≡ (if ltb i s.next_id then 1 else 0))
        × Keyed s.settled
  settled_once enabled max age evs =
      let v = (after-Inv enabled max age evs).books in (v.balanced, v.answered)

  -- In every reachable state the drain loop awaits exactly one write, or it is at rest with nothing
  -- queued and nothing in flight; and the queue is never longer than `maxLength`.
  pub never_idle_with_work :
      (enabled : Bool) (max : Option ℕ) (age : AgeOption) (evs : List (Event K P))
      → let s = after enabled max age evs in
        Working s.draining s.in_flight s.queue × (length s.queue ≤ s.max_length)
  never_idle_with_work enabled max age evs =
      let v = after-Inv enabled max age evs in (v.working, v.books.bounded)

  -- In every reachable state each call was handed to the writer at most once, not at all while it is
  -- still queued, and its `onWrite` was called at most once and only if its promise is settled.
  pub written_and_traced_once :
      (enabled : Bool) (max : Option ℕ) (age : AgeOption) (evs : List (Event K P)) (i : ℕ)
      → let s = after enabled max age evs in
        (tally (is_id i) s.writes + tally (is_id i) s.queue ≤ (if ltb i s.next_id then 1 else 0))
        × (tally (λ j. j == i) s.traced ≤ paid i s.settled)
  written_and_traced_once enabled max age evs i =
      let v = (after-Inv enabled max age evs).books in (v.written_once i, v.traced_once i)
