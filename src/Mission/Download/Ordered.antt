-- ===== src/Mission/Download/Ordered.antt =====
-- What lib/mission/mission-download.js keeps between two events when sends end in order and no timer
-- fires during a send.
use node_red_contrib_mavlink.Common.{
  ℕ, suc, ◌+◌, ◌<◌, ◌≡◌, refl, subst, Bool, true, false, Option, none, some, List, [], ◌∷◌, ◌++◌,
  arith, All, All-append, length, if_cases, is_empty,
}
use node_red_contrib_mavlink.Workflow.{finish}
use node_red_contrib_mavlink.Mission.{
  Base, State, waiting_count, waiting_item, sending_ack, failed, Answer, done, failed_with, Failure,
}
use node_red_contrib_mavlink.Mission.Download.{
  Act, request_list, request_item, Cont, list_sent, item_sent, ack_sent, Msg, Item, Mission,
  Download,
}

module _ {I : Type 0} where
  -- The items carry the numbers from `k` on.
  abbrev pub InOrder : ℕ → List (Item I) → Type 0
  InOrder k [] = Unit
  InOrder k (x ∷ xs) = (x.seq ≡ k) × InOrder (suc k) xs

  pub InOrder-snoc :
      (k : ℕ) (xs : List (Item I)) (y : Item I)
      → InOrder k xs
      → y.seq ≡ k + length xs
      → InOrder k (xs ++ (y ∷ []))
  InOrder-snoc k [] y h e = (omega (arith, e), tt)
  InOrder-snoc k (x ∷ xs) y h e = (h.0, InOrder-snoc (suc k) xs y h.1 (omega (arith, e)))

  abbrev pub IsWhole : Answer (Mission I) → Type 0
  IsWhole (done m) = InOrder 0 m.items × (length m.items ≡ m.count)
  IsWhole (failed_with f) = Unit

-- What a download is at, as its state and the number that it expects tell.
pub data Part : Type 0 where
  listing : Part
  getting : ℕ → Part
  acking : Part
  elsewhere : Part

abbrev pub part : State → ℕ → Part
part waiting_count expected = listing
part waiting_item expected = getting expected
part sending_ack expected = acking
part _ expected = elsewhere

-- What it says of the counters.
abbrev pub Phase : Part → ℕ → ℕ → Type 0
Phase listing count got = got ≡ 0
Phase (getting expected) count got = (expected ≡ got) × (expected < count)
Phase acking count got = got ≡ count
Phase elsewhere count got = ⊥

-- The send that it waits for last.
abbrev pub current : Part → Cont
current listing = list_sent
current (getting expected) = item_sent expected
current acking = ack_sent
current elsewhere = ack_sent

abbrev pub Lasts : Cont → List Cont → Type 0
Lasts k [] = Unit
Lasts k (j ∷ []) = j ≡ k
Lasts k (j ∷ i ∷ ks) = Lasts k (i ∷ ks)

Lasts-snoc : (k : Cont) (ks : List Cont) → Lasts k (ks ++ (k ∷ []))
Lasts-snoc k [] = refl
Lasts-snoc k (j ∷ []) = refl
Lasts-snoc k (j ∷ i ∷ ks) = Lasts-snoc k (i ∷ ks)

Lasts-tail : (k j : Cont) (ks : List Cont) → Lasts k (j ∷ ks) → Lasts k ks
Lasts-tail k j [] h = tt
Lasts-tail k j (i ∷ ks) h = h

is_empty-snoc : (ks : List Cont) (k : Cont) → is_empty (ks ++ (k ∷ [])) ≡ false
is_empty-snoc [] k = refl
is_empty-snoc (j ∷ js) k = refl

-- The acknowledgement is under way only in its own part.
abbrev pub Fits : Part → Cont → Type 0
Fits acking k = Unit
Fits _ list_sent = Unit
Fits _ (item_sent seq) = Unit
Fits _ ack_sent = ⊥

-- The timer that may be left running once every send has ended.
abbrev pub Timed : Part → Option Act → Type 0
Timed p none = Unit
Timed listing (some request_list) = Unit
Timed (getting expected) (some (request_item seq)) = seq ≡ expected
Timed _ (some a) = ⊥

pub record Going (p : Part) (count got : ℕ) (timer : Option Act) (pending : List Cont)
    : Type 0 where
  pub phase : Phase p count got
  pub lasts : Lasts (current p) pending
  pub fits : All (Fits p) pending
  pub timed : is_empty pending ≡ true → Timed p timer

pub listing-Fits : (p : Part) (k : Cont) → Fits listing k → Fits p k
listing-Fits acking k h = tt
listing-Fits listing k h = h
listing-Fits (getting e) list_sent h = tt
listing-Fits (getting e) (item_sent seq) h = tt
listing-Fits (getting e) ack_sent h = h
listing-Fits elsewhere list_sent h = tt
listing-Fits elsewhere (item_sent seq) h = tt
listing-Fits elsewhere ack_sent h = h

pub getting-Fits : (e : ℕ) (p : Part) (k : Cont) → Fits (getting e) k → Fits p k
getting-Fits e p list_sent h = listing-Fits p list_sent tt
getting-Fits e p (item_sent seq) h = listing-Fits p (item_sent seq) tt
getting-Fits e p ack_sent h = absurd h

current-Fits : (p : Part) (count got : ℕ) → Phase p count got → Fits p (current p)
current-Fits listing count got h = tt
current-Fits (getting e) count got h = tt
current-Fits acking count got h = tt
current-Fits elsewhere count got h = absurd h

-- The send of a part was made.
pub send-Going :
    (p : Part) (count got : ℕ) (timer : Option Act) (pending : List Cont)
    → Phase p count got
    → All (Fits p) pending
    → Going p count got timer (pending ++ (current p ∷ []))
send-Going p count got timer pending h f = record {
  phase = h;
  lasts = Lasts-snoc (current p) pending;
  fits = All-append (Fits p) pending (current p ∷ []) f (current-Fits p count got h, tt);
  timed = λ e. ground (arith, is_empty-snoc pending (current p));
}

-- What is armed when a send of the list or of an item ends.
abbrev pub armed : Cont → Option Act
armed list_sent = some request_list
armed (item_sent seq) = some (request_item seq)
armed ack_sent = none

-- If it was the last send, that is the timer of the part.
armed-Timed : (p : Part) (k : Cont) → k ≡ current p → Timed p (armed k)
armed-Timed listing list_sent e = tt
armed-Timed listing (item_sent s) e = ground arith
armed-Timed listing ack_sent e = tt
armed-Timed (getting n) list_sent e = ground arith
armed-Timed (getting n) (item_sent s) e = ground arith
armed-Timed (getting n) ack_sent e = tt
armed-Timed acking list_sent e = ground arith
armed-Timed acking (item_sent s) e = ground arith
armed-Timed acking ack_sent e = tt
armed-Timed elsewhere list_sent e = ground arith
armed-Timed elsewhere (item_sent s) e = ground arith
armed-Timed elsewhere ack_sent e = tt

-- A send ends.
end-Going :
    (p : Part) (count got : ℕ) (timer : Option Act) (k : Cont) (ks : List Cont)
    → Going p count got timer (k ∷ ks)
    → Going p count got (armed k) ks
end-Going p count got timer k [] g = record {
  phase = g.phase;
  lasts = tt;
  fits = tt;
  timed = λ e. armed-Timed p k g.lasts;
}
end-Going p count got timer k (j ∷ ks) g = record {
  phase = g.phase;
  lasts = g.lasts;
  fits = g.fits.1;
  timed = λ (e : false ≡ true). ground arith;
}

-- The download of an acknowledged mission is whole.
pub acking_whole :
    (p : Part) (count got : ℕ) (timer : Option Act) (ks : List Cont)
    → Going p count got timer (ack_sent ∷ ks)
    → got ≡ count
acking_whole acking count got timer ks g = g.phase
acking_whole listing count got timer ks g = absurd g.fits.0
acking_whole (getting n) count got timer ks g = absurd g.fits.0
acking_whole elsewhere count got timer ks g = absurd g.phase

module _ {I : Type 0} where
  pub record Valid (settled : Bool) (state : State) (count : ℕ) (items : List (Item I))
      (expected : ℕ) (timer : Option Act) (pending : List Cont)
      (answers : List (Answer (Mission I))) : Type 0 where
    pub whole : All IsWhole answers
    pub in_order : settled ≡ false → InOrder 0 items
    pub going : settled ≡ false → Going (part state expected) count (length items) timer pending

  abbrev pub Inv : Download I → Type 0
  Inv d =
      Valid d.base.settled d.base.state d.count d.items d.expected_seq d.base.timer d.base.pending
        d.base.answers

  pub finish-Inv :
      (state : State) (a : Answer (Mission I)) (d : Download I)
      → All IsWhole d.base.answers
      → (d.base.settled ≡ false → IsWhole a)
      → Inv (record d { base = finish state a d.base })
  unfolding finish
  finish-Inv state a d v w =
      if_cases {A = Base Act Cont Msg (Mission I)} (λ b. Inv (record d { base = b })) d.base.settled
        (λ on. record { whole = v; in_order = λ off. ground arith; going = λ off. ground arith })
        (λ off. record {
          whole = (w off, v);
          in_order = λ (e : true ≡ false). ground arith;
          going = λ (e : true ≡ false). ground arith;
        })

  pub fail-Inv :
      (f : Failure) (d : Download I)
      → All IsWhole d.base.answers
      → Inv (record d { base = finish failed (failed_with f) d.base })
  fail-Inv f d v = finish-Inv failed (failed_with f) d v (λ _. tt)

  -- The last download that is under way, seen from the sends that are.
  pub open_sends :
      (d : Download I) (ks : List Cont)
      → d.base.pending ≡ ks
      → Inv d
      → d.base.settled ≡ false
      → Going (part d.base.state d.expected_seq) d.count (length d.items) d.base.timer ks
  open_sends d ks e v off =
      subst (Going (part d.base.state d.expected_seq) d.count (length d.items) d.base.timer) e
        (v.going off)

  pub end-Inv :
      (k : Cont) (ks : List Cont) (d : Download I)
      → d.base.pending ≡ k ∷ ks
      → Inv d
      → Inv (record d { base = record (d.base) { timer = armed k; pending = ks } })
  end-Inv k ks d e v = record {
    whole = v.whole;
    in_order = v.in_order;
    going = λ off.
        end-Going _ d.count (length d.items) d.base.timer k ks (open_sends d (k ∷ ks) e v off);
  }
