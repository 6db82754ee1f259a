-- ===== src/Signing/Sequence.antt =====
-- What lib/protocol/link-state.js hands out over any sequence of calls: sequence numbers and signing
-- timestamps; and what it remembers of each verification key.
use node_red_contrib_mavlink.Common.{
  ℕ, suc, ◌%◌, ◌<◌, ◌≡◌, refl, subst, ap, sym, ◌∙◌, true, false, Option, none, some, List, [], ◌∷◌,
  arith, Eq, triple_eq, pair_eq, nat_eq, if_cases, if◌then◌else◌,
}
use node_red_contrib_mavlink.JsMap.{get}
use node_red_contrib_mavlink.JsMap.Laws.{get-set, get-set_self}
use node_red_contrib_mavlink.Signing.{
  Stream, ReplayTracker, LinkState, new_link, new_tracker, or_zero, next_seq, next_sign_timestamp,
  check, check_frame, replay_tracker_for, tracker_or_new, store_new,
}
use node_red_contrib_mavlink.Signing.Replay.{Above}

-- The calls of a sender that stamps its frames, on one link.
pub data Call : Type 0 where
  numbers : ℕ × ℕ → Call
  signs : Stream → ℕ → Call

-- Counting up modulo 256 from `n`.
abbrev pub CountsFrom : ℕ → List ℕ → Type 0
CountsFrom n [] = Unit
CountsFrom n (x ∷ xs) = (x ≡ n % 256) × CountsFrom (suc n) xs

module _ {Key : Type 0} where
  abbrev pub apply : Call → LinkState Key → LinkState Key
  apply (numbers sender) l = (next_seq sender l).1
  apply (signs stream now) l = (next_sign_timestamp stream now l).1

  -- The sequence numbers handed to one sender, in order.
  abbrev pub seqs_of : ℕ × ℕ → List Call → LinkState Key → List ℕ
  seqs_of s [] l = []
  seqs_of s (numbers sender ∷ cs) l =
      let rest = seqs_of s cs (next_seq sender l).1 in
      if pair_eq.beq sender s then (next_seq sender l).0 ∷ rest else rest
  seqs_of s (signs stream now ∷ cs) l = seqs_of s cs (next_sign_timestamp stream now l).1

  -- The signing timestamps handed out on one stream, in order.
  abbrev pub stamps_of : Stream → List Call → LinkState Key → List ℕ
  stamps_of s [] l = []
  stamps_of s (numbers sender ∷ cs) l = stamps_of s cs (next_seq sender l).1
  stamps_of s (signs stream now ∷ cs) l =
      let rest = stamps_of s cs (next_sign_timestamp stream now l).1 in
      if triple_eq.beq stream s then (next_sign_timestamp stream now l).0 ∷ rest else rest

  seq_same :
      (s sender : ℕ × ℕ) (l : LinkState Key) (n : ℕ)
      → or_zero (get l.seq s) ≡ n % 256
      → pair_eq.beq sender s ≡ true
      → ((next_seq sender l).0 ≡ n % 256)
        × (or_zero (get (next_seq sender l).1.seq s) ≡ suc n % 256)
  unfolding next_seq
  seq_same s sender l n e h = (
    subst (λ z. or_zero (get l.seq z) ≡ n % 256) (sym ((pair_eq.beq_iff sender s).0 h)) e,
    rw (get-set l.seq sender s _, h)
        (omega (
          arith,
          subst (λ z. or_zero (get l.seq z) ≡ n % 256) (sym ((pair_eq.beq_iff sender s).0 h)) e,
        )),
  )

  seq_other :
      (s sender : ℕ × ℕ) (l : LinkState Key)
      → pair_eq.beq sender s ≡ false
      → or_zero (get (next_seq sender l).1.seq s) ≡ or_zero (get l.seq s)
  unfolding next_seq
  seq_other s sender l h = rw (get-set l.seq sender s _, h)

  seqs_of_count :
      (s : ℕ × ℕ) (cs : List Call) (l : LinkState Key) (n : ℕ)
      → or_zero (get l.seq s) ≡ n % 256
      → CountsFrom n (seqs_of s cs l)
  unfolding next_sign_timestamp
  seqs_of_count s [] l n e = tt
  seqs_of_count s (signs stream now ∷ cs) l n e = seqs_of_count s cs _ n e
  seqs_of_count s (numbers sender ∷ cs) l n e =
      if_cases (CountsFrom n) (pair_eq.beq sender s)
        (λ same.
          let r = seq_same s sender l n e same in
          (r.0, seqs_of_count s cs (next_seq sender l).1 (suc n) r.1))
        (λ other. seqs_of_count s cs (next_seq sender l).1 n (seq_other s sender l other ∙ e))

  stamp_same :
      (s stream : Stream) (now : ℕ) (l : LinkState Key)
      → triple_eq.beq stream s ≡ true
      → (or_zero (get l.sign_ms s) < (next_sign_timestamp stream now l).0)
        × (or_zero (get (next_sign_timestamp stream now l).1.sign_ms s)
            ≡ (next_sign_timestamp stream now l).0)
  unfolding next_sign_timestamp
  stamp_same s stream now l h = (
    subst (λ z. or_zero (get l.sign_ms z) < (next_sign_timestamp stream now l).0)
        ((triple_eq.beq_iff stream s).0 h) (ground arith),
    rw (get-set l.sign_ms stream s _, h),
  )

  stamp_other :
      (s stream : Stream) (now : ℕ) (l : LinkState Key)
      → triple_eq.beq stream s ≡ false
      → or_zero (get (next_sign_timestamp stream now l).1.sign_ms s) ≡ or_zero (get l.sign_ms s)
  unfolding next_sign_timestamp
  stamp_other s stream now l h = rw (get-set l.sign_ms stream s _, h)

  stamps_of-Above :
      (s : Stream) (cs : List Call) (l : LinkState Key)
      → Above (or_zero (get l.sign_ms s)) (stamps_of s cs l)
  unfolding next_seq
  stamps_of-Above s [] l = tt
  stamps_of-Above s (numbers sender ∷ cs) l = stamps_of-Above s cs _
  stamps_of-Above s (signs stream now ∷ cs) l =
      let l2 = (next_sign_timestamp stream now l).1 in
      if_cases (Above (or_zero (get l.sign_ms s))) (triple_eq.beq stream s)
        (λ same.
          let r = stamp_same s stream now l same in
          (r.0, subst (λ n. Above n (stamps_of s cs l2)) r.1 (stamps_of-Above s cs l2)))
        (λ other.
          subst (λ n. Above n (stamps_of s cs l2)) (stamp_other s stream now l other)
            (stamps_of-Above s cs l2))

-- Whatever calls are made on a new link, the numbers that one sender gets count up from 0 modulo
-- 256, however the calls of other senders and the stamps stand between.
pub seqs_of_lem :
    (Key : Type 0) (s : ℕ × ℕ) (cs : List Call) → CountsFrom 0 (seqs_of s cs (new_link {Key = Key}))
unfolding get
seqs_of_lem Key s cs = seqs_of_count s cs (new_link {Key = Key}) 0 refl

-- Whatever calls are made on a new link, and even when the clock stands still or goes back, the
-- signing timestamps of one stream are positive and strictly increase.
pub stamps_of_lem :
    (Key : Type 0) (s : Stream) (cs : List Call) → Above 0 (stamps_of s cs (new_link {Key = Key}))
unfolding get
stamps_of_lem Key s cs = stamps_of-Above s cs (new_link {Key = Key})

module _ {Key : Type 0} ⦃e : Eq Key⦄ where
  abbrev pub tracker_of : Key → LinkState Key → ReplayTracker
  tracker_of key l = tracker_or_new (get l.replay_by_key key)

  store_new-other :
      (key other : Key) (o : Option ReplayTracker) (l : LinkState Key)
      → e.beq key other ≡ false
      → get (store_new key o l).replay_by_key other ≡ get l.replay_by_key other
  store_new-other key other none l h = rw (get-set l.replay_by_key key other new_tracker, h)
  store_new-other key other (some t) l h = refl

  store_new-rest :
      (key : Key) (o : Option ReplayTracker) (l : LinkState Key)
      → ((store_new key o l).seq ≡ l.seq) × ((store_new key o l).sign_ms ≡ l.sign_ms)
  store_new-rest key none l = (refl, refl)
  store_new-rest key (some t) l = (refl, refl)

  -- Checking a frame moves the tracker of its key as ReplayTracker does, gives its verdict, and
  -- leaves the tracker of every other key, the numbers and the timestamps as they were.
  pub check_frame_lem :
      (key : Key) (stream : Stream) (ts now : Option ℕ) (l : LinkState Key)
      → let r = check_frame key stream ts now l in
        let c = check stream ts now (tracker_of key l) in
        (r.0 ≡ c.0)
        × (tracker_of key r.1 ≡ c.1)
        × ((other : Key) → e.beq key other ≡ false → tracker_of other r.1 ≡ tracker_of other l)
        × (r.1.seq ≡ l.seq)
        × (r.1.sign_ms ≡ l.sign_ms)
  unfolding check_frame replay_tracker_for
  check_frame_lem key stream ts now l = (
    refl,
    ap tracker_or_new (get-set_self _ key _),
    λ other h.
        ap tracker_or_new {x = get (check_frame key stream ts now l).1.replay_by_key other}
          {y = get l.replay_by_key other}
          (rw
            (
              get-set (store_new key (get l.replay_by_key key) l).replay_by_key key other
                  (check stream ts now (tracker_of key l)).1,
              h,
            )
            (store_new-other key other _ l h)),
    (store_new-rest key _ l).0,
    (store_new-rest key _ l).1,
  )
