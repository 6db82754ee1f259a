-- ===== src/Outbound/Invariant.antt =====
-- The invariant of lib/runtime/outbound-queue.js between two steps.
use node_red_contrib_mavlink.Common.{
  ℕ, suc, ◌+◌, ◌≤◌, ◌<◌, ◌≡◌, refl, Bool, true, false, not, ◌&&◌, Option, none, some, List, [], ◌∷◌,
  ◌++◌, arith, inl, inr, ◌⊎◌, ltb, ◌==◌, if◌then◌else◌, length, length-append, tally, tally-append,
  if_cases, Option-cases, nat_eq,
}
use node_red_contrib_mavlink.JsMap.Laws.{Keyed}
use node_red_contrib_mavlink.Outbound.{
  mark_cleared, reject_in_flight, Item, Outcome, Outbound, Write, settle_promise, settle_promises,
  sort_queue, remove_matching, take_direct, shift_item, drain_next, drain, finish_write, written,
  drop_coalesced_matching, direct_written, clear, resolved, queue_cleared,
}
use node_red_contrib_mavlink.Outbound.Ledger.{
  paid, owed, is_id, paid-settle_promise, paid-settle_promises, settle_promise-Keyed,
  settle_promises-Keyed, paid-mono_settle_promises, tally-sort_queue, length-sort_queue,
  tally-remove_matching, length-remove_matching, tally-take_direct, take_direct-id,
}

module _ {K P : Type 0} where
  -- A loop that runs awaits a write; a loop at rest has nothing left to send.
  abbrev pub Working : Bool → Option (Item K P) → List (Item K P) → Type 0
  Working true (some x) q = Unit
  Working true none q = ⊥
  Working false none [] = Unit
  Working false none (x ∷ q) = ⊥
  Working false (some x) q = ⊥

  abbrev pub Abandoned : Bool → Option (Item K P) → List (ℕ × Outcome) → Type 0
  Abandoned true (some x) log = paid x.id log ≡ 1
  Abandoned true none log = Unit
  Abandoned false x log = Unit

  pub record Books (s : Outbound K P) : Type 0 where
    pub balanced : (i : ℕ) → owed i s + paid i s.settled ≡ (if ltb i s.next_id then 1 else 0)
    pub bounded : length s.queue ≤ s.max_length
    pub answered : Keyed s.settled
    pub abandoned : Abandoned s.cleared s.in_flight s.settled
    pub traced_once : (i : ℕ) → tally (λ j. j == i) s.traced ≤ paid i s.settled
    pub written_once :
        (i : ℕ)
        → tally (is_id i) s.writes + tally (is_id i) s.queue ≤ (if ltb i s.next_id then 1 else 0)

  pub record Inv (s : Outbound K P) : Type 0 where
    pub books : Books s
    pub working : Working s.draining s.in_flight s.queue

  shift_item-Inv :
      (q : List (Item K P)) (s : Outbound K P)
      → ((i : ℕ) → tally (is_id i) q ≡ tally (is_id i) s.queue)
      → length q ≡ length s.queue
      → s.in_flight ≡ none
      → Books s
      → Inv (shift_item q s)
  unfolding shift_item
  shift_item-Inv [] s t l e v = record {
    books = record {
      balanced = λ i. ground (arith, v.balanced i, t i);
      bounded = omega arith;
      answered = v.answered;
      abandoned = ground arith;
      traced_once = v.traced_once;
      written_once = λ i. ground (arith, v.written_once i, t i);
    };
    working = tt;
  }
  shift_item-Inv (x ∷ q) s t l e v = record {
    books = record {
      balanced = λ i. ground (arith, v.balanced i, t i);
      bounded = omega (arith, v.bounded);
      answered = v.answered;
      abandoned = tt;
      traced_once = v.traced_once;
      written_once = λ i. ground (arith, v.written_once i, t i);
    };
    working = tt;
  }

  drain_next-Inv :
      (now : ℕ) (s : Outbound K P) → s.in_flight ≡ none → Books s → Inv (drain_next now s)
  unfolding drain_next
  drain_next-Inv now s e v =
      shift_item-Inv (sort_queue s.age_promotion_ms now s.queue) s
        (tally-sort_queue s.age_promotion_ms now s.queue)
        (length-sort_queue s.age_promotion_ms now s.queue) e v

  -- The queue may be left with work only while the loop runs.
  pub drain-Inv :
      (now : ℕ) (s : Outbound K P)
      → Working s.draining s.in_flight [] ⊎ Working s.draining s.in_flight s.queue
      → Books s
      → Inv (drain now s)
  unfolding drain
  drain-Inv now s w v =
      if_cases Inv s.draining (λ e. record { books = v; working = ground arith })
        (λ e. drain_next-Inv now s (ground arith) v)

  -- The writer's end settles the item in flight, unless `clear` has done so.
  settle_flight-Books :
      (s : Outbound K P) (x : Item K P) (o : Outcome) (called : Bool)
      → s.in_flight ≡ some x
      → (called ≡ true → s.cleared ≡ false)
      → Books s
      → Books (record s {
        in_flight = none;
        settled = settle_promise x.id o s.settled;
        traced = if called then x.id ∷ s.traced else s.traced;
      })
  settle_flight-Books s x o called e c v = record {
    balanced =
        λ i. ground (arith, v.balanced i, v.abandoned, paid-settle_promise x.id i o s.settled);
    bounded = v.bounded;
    answered = settle_promise-Keyed x.id o s.settled v.answered;
    abandoned = ground arith;
    traced_once =
        λ i. ground (arith, v.balanced i, v.traced_once i, paid-settle_promise x.id i o s.settled);
    written_once = v.written_once;
  }

  finish_write-Books :
      (s : Outbound K P) (x : Item K P) (w : Write)
      → s.in_flight ≡ some x
      → Books s
      → Books (record (finish_write (x.on_write && not s.cleared) x.id w s) { in_flight = none })
  finish_write-Books s x w e v = settle_flight-Books s x _ _ e (λ h. ground arith) v

  pub written-Inv : (w : Write) (now : ℕ) (s : Outbound K P) → Inv s → Inv (written w now s)
  unfolding written
  written-Inv w now s v = elim (Option-cases s.in_flight) [
    | inl e ↦ rw (e, written) v
    | inr (x, e) ↦ rw (e, written) (drain_next-Inv now _ refl (finish_write-Books s x w e v.books))
  ]

  Abandoned-settle :
      (c : Bool) (x : Option (Item K P)) (xs : List (Item K P)) (o : Outcome)
      (log : List (ℕ × Outcome))
      → Abandoned c x log
      → Abandoned c x (settle_promises xs o log)
  Abandoned-settle true none xs o log h = tt
  Abandoned-settle true (some x) xs o log h =
      ground (arith, paid-mono_settle_promises xs x.id o log)
  Abandoned-settle false x xs o log h = tt

  Abandoned-settle_one :
      (c : Bool) (x : Option (Item K P)) (k : ℕ) (o : Outcome) (log : List (ℕ × Outcome))
      → Abandoned c x log
      → Abandoned c x (settle_promise k o log)
  Abandoned-settle_one true none k o log h = tt
  Abandoned-settle_one true (some x) k o log h = ground (arith, paid-settle_promise k x.id o log)
  Abandoned-settle_one false x k o log h = tt

  -- Items leave the queue and are settled.
  pub remove-Books :
      (s : Outbound K P) (p : Option K → Bool) (o : Outcome)
      → Books s
      → Books (record s {
        queue = (remove_matching p s.queue).1;
        settled = settle_promises (remove_matching p s.queue).0 o s.settled;
      })
  remove-Books s p o v = record {
    balanced = λ i. ground (
      arith,
      v.balanced i,
      tally-remove_matching p (is_id i) s.queue,
      paid-settle_promises (remove_matching p s.queue).0 i o s.settled,
    );
    bounded = omega (arith, v.bounded, length-remove_matching p s.queue);
    answered = settle_promises-Keyed (remove_matching p s.queue).0 o s.settled v.answered;
    abandoned =
        Abandoned-settle s.cleared s.in_flight (remove_matching p s.queue).0 o s.settled
          v.abandoned;
    traced_once = λ i. omega (
      arith,
      v.traced_once i,
      paid-mono_settle_promises (remove_matching p s.queue).0 i o s.settled,
    );
    written_once = λ i. omega (arith, v.written_once i, tally-remove_matching p (is_id i) s.queue);
  }

  pub remove-Working :
      (s : Outbound K P) (p : Option K → Bool)
      → Working s.draining s.in_flight s.queue
      → Working s.draining s.in_flight (remove_matching p s.queue).1
  unfolding remove_matching
  remove-Working s p w = ground (arith, length-remove_matching p s.queue)

  pub drop_coalesced_matching-Inv :
      (p : Option K → Bool) (s : Outbound K P) → Inv s → Inv (drop_coalesced_matching p s).0
  unfolding drop_coalesced_matching
  drop_coalesced_matching-Inv p s v = record {
    books = remove-Books s p resolved v.books;
    working = remove-Working s p v.working;
  }

  settle_direct-Books :
      (s : Outbound K P) (k : ℕ) (x : Item K P) (o : Outcome) (called : Bool)
      → (take_direct k s.direct).0 ≡ some x
      → Books s
      → Books (record s {
        direct = (take_direct k s.direct).1;
        settled = settle_promise k o s.settled;
        traced = if called then k ∷ s.traced else s.traced;
      })
  settle_direct-Books s k x o called e v = record {
    balanced = λ i. ground (
      arith,
      v.balanced i,
      take_direct-id k s.direct x,
      tally-take_direct k i s.direct,
      paid-settle_promise k i o s.settled,
    );
    bounded = v.bounded;
    answered = settle_promise-Keyed k o s.settled v.answered;
    abandoned = Abandoned-settle_one s.cleared s.in_flight k o s.settled v.abandoned;
    traced_once = λ i. ground (
      arith,
      v.balanced i,
      v.traced_once i,
      take_direct-id k s.direct x,
      tally-take_direct k i s.direct,
      paid-settle_promise k i o s.settled,
    );
    written_once = v.written_once;
  }

  pub direct_written-Inv :
      (i : ℕ) (w : Write) (s : Outbound K P) → Inv s → Inv (direct_written i w s)
  unfolding direct_written
  direct_written-Inv i w s v = elim (Option-cases (take_direct i s.direct).0) [
    | inl e ↦ rw (e, direct_written) v
    | inr (x, e) ↦
        rw (e, direct_written)
          (record { books = settle_direct-Books s i x _ _ e v.books; working = v.working })
  ]

  mark_cleared-Books :
      (s : Outbound K P) (f : Option (Item K P))
      → s.in_flight ≡ f
      → Books s
      → Books
          (record s { cleared = mark_cleared f s.cleared; settled = reject_in_flight f s.settled })
  mark_cleared-Books s none e v = v
  mark_cleared-Books s (some x) e v = record {
    balanced = λ i.
        ground
          (arith, v.balanced i, v.abandoned, paid-settle_promise x.id i queue_cleared s.settled);
    bounded = v.bounded;
    answered = settle_promise-Keyed x.id queue_cleared s.settled v.answered;
    abandoned = ground (arith, paid-settle_promise x.id x.id queue_cleared s.settled);
    traced_once =
        λ i. ground (arith, v.traced_once i, paid-settle_promise x.id i queue_cleared s.settled);
    written_once = v.written_once;
  }

  empty_queue-Books :
      (s : Outbound K P) (o : Outcome)
      → Books s
      → Books (record s { queue = []; settled = settle_promises s.queue o s.settled })
  empty_queue-Books s o v = record {
    balanced = λ i. ground (arith, v.balanced i, paid-settle_promises s.queue i o s.settled);
    bounded = omega arith;
    answered = settle_promises-Keyed s.queue o s.settled v.answered;
    abandoned = Abandoned-settle s.cleared s.in_flight s.queue o s.settled v.abandoned;
    traced_once =
        λ i. omega (arith, v.traced_once i, paid-mono_settle_promises s.queue i o s.settled);
    written_once = λ i. omega (arith, v.written_once i);
  }

  pub clear-Inv : (s : Outbound K P) → Inv s → Inv (clear s)
  unfolding clear
  clear-Inv s v = record {
    books = empty_queue-Books _ queue_cleared (mark_cleared-Books s s.in_flight refl v.books);
    working = ground (arith, v.working);
  }

  -- Before the drain loop is entered: a loop at rest had nothing to send.
  pub push-Books :
      (x : Item K P) (s : Outbound K P)
      → x.id ≡ s.next_id
      → length s.queue < s.max_length
      → Books s
      → Books (record s { queue = s.queue ++ (x ∷ []); next_id = suc s.next_id })
  push-Books x s e l v = record {
    balanced = λ i. ground (arith, v.balanced i, tally-append (is_id i) s.queue (x ∷ []));
    bounded = omega (arith, length-append s.queue (x ∷ []));
    answered = v.answered;
    abandoned = v.abandoned;
    traced_once = v.traced_once;
    written_once = λ i. ground (arith, v.written_once i, tally-append (is_id i) s.queue (x ∷ []));
  }

  pub refuse-Books :
      (s : Outbound K P) (o : Outcome)
      → Books s
      → Books (record s { next_id = suc s.next_id; settled = settle_promise s.next_id o s.settled })
  refuse-Books s o v = record {
    balanced = λ i. ground (arith, v.balanced i, paid-settle_promise s.next_id i o s.settled);
    bounded = v.bounded;
    answered = settle_promise-Keyed s.next_id o s.settled v.answered;
    abandoned = Abandoned-settle_one s.cleared s.in_flight s.next_id o s.settled v.abandoned;
    traced_once = λ i. ground (arith, v.traced_once i, paid-settle_promise s.next_id i o s.settled);
    written_once = λ i. ground (arith, v.written_once i);
  }

  pub direct-Books :
      (x : Item K P) (s : Outbound K P)
      → x.id ≡ s.next_id
      → Books s
      → Books (record s { direct = x ∷ s.direct; next_id = suc s.next_id; writes = x ∷ s.writes })
  direct-Books x s e v = record {
    balanced = λ i. ground (arith, v.balanced i);
    bounded = v.bounded;
    answered = v.answered;
    abandoned = v.abandoned;
    traced_once = v.traced_once;
    written_once = λ i. ground (arith, v.written_once i);
  }
