-- ===== src/Signing/Replay.antt =====
-- What lib/protocol/replay-tracker.js accepts over any sequence of frames.
use node_red_contrib_mavlink.Common.{
  ℕ, ◌+◌, ◌≤◌, ◌⊎◌, ◌↔◌, ◌<◌, ◌≡◌, refl, subst, Bool, true, false, Option, none, some, List, [],
  ◌∷◌, arith, triple_eq, nat_eq, if_cases, if◌then◌else◌, ltb→lt, inl, inr, Bool-cases,
}
use mathlib.Core.Option.{some-injective}
use node_red_contrib_mavlink.JsMap.{get, has, size}
use node_red_contrib_mavlink.JsMap.Laws.{get-set, length-set, has-get}
use node_red_contrib_mavlink.Signing.{
  Stream, ReplayTracker, new_tracker, max_streams, or_zero, passes, record_frame, check,
  freshness_window,
}

-- A frame as it arrives: its stream, its timestamp, and the receiver's clock.
pub record Frame : Type 0 where
  pub stream : Stream
  pub timestamp : Option ℕ
  pub now : Option ℕ

abbrev pub check_one : Frame → ReplayTracker → Bool × ReplayTracker
check_one f t = check f.stream f.timestamp f.now t

-- The timestamps that are accepted of a stream, in order.
abbrev pub took : Stream → Frame → Bool → List ℕ → List ℕ
took stream f accepted rest =
    if accepted
    then (if triple_eq.beq f.stream stream then or_zero f.timestamp ∷ rest else rest)
    else rest

abbrev pub accepted_of : Stream → List Frame → ReplayTracker → List ℕ
accepted_of stream [] t = []
accepted_of stream (f ∷ fs) t =
    let r = check_one f t in took stream f r.0 (accepted_of stream fs r.1)

-- Each element is above the ones before it, and above `low`.
abbrev pub Above : ℕ → List ℕ → Type 0
Above low [] = Unit
Above low (x ∷ xs) = (low < x) × Above x xs

abbrev pub Increasing : List ℕ → Type 0
Increasing [] = Unit
Increasing (x ∷ xs) = Above x xs

-- What a stream's newest timestamp asks of the ones that follow.
abbrev Follows : Option ℕ → List ℕ → Type 0
Follows none xs = Increasing xs
Follows (some n) xs = Above n xs

Above-Increasing : (n : ℕ) (xs : List ℕ) → Above n xs → Increasing xs
Above-Increasing n [] h = tt
Above-Increasing n (x ∷ xs) h = h.1

Follows-any : (o : Option ℕ) (n : ℕ) (xs : List ℕ) → Follows (some n) xs → (o ≡ none) → Follows o xs
Follows-any none n xs h e = Above-Increasing n xs h
Follows-any (some m) n xs h e = ground arith

passes_known :
    (now : Option ℕ) (ts last : ℕ) (t : ReplayTracker)
    → passes now ts (some last) t ≡ true
    → last < ts
unfolding passes
passes_known now ts last t h = ltb→lt last ts h

-- One accepted frame of the stream goes on from what is known.
Follows-step :
    (now : Option ℕ) (ts : ℕ) (t : ReplayTracker) (known : Option ℕ) (xs : List ℕ)
    → passes now ts known t ≡ true
    → Above ts xs
    → Follows known (ts ∷ xs)
Follows-step now ts t none xs h k = k
Follows-step now ts t (some last) xs h k = (passes_known now ts last t h, k)

Follows-nil : (known : Option ℕ) → Follows known []
Follows-nil none = tt
Follows-nil (some n) = tt

get-record_frame_other :
    (f stream : Stream) (ts : ℕ) (t : ReplayTracker)
    → triple_eq.beq f stream ≡ false
    → get (record_frame f ts t).newest stream ≡ get t.newest stream
get-record_frame_other f stream ts t h = rw (get-set t.newest f stream ts, h)

get-record_frame_same :
    (f stream : Stream) (ts : ℕ) (t : ReplayTracker)
    → triple_eq.beq f stream ≡ true
    → get (record_frame f ts t).newest stream ≡ some ts
get-record_frame_same f stream ts t h = rw (get-set t.newest f stream ts, h)

-- What an accepted frame asks of the later ones, when what is said of the tracker behind it holds.
Follows-accepted :
    (stream : Stream) (f : Frame) (ts : ℕ) (t : ReplayTracker) (xs : List ℕ)
    → passes f.now ts (get t.newest f.stream) t ≡ true
    → Follows (get (record_frame f.stream ts t).newest stream) xs
    → Follows (get t.newest stream) (if triple_eq.beq f.stream stream then ts ∷ xs else xs)
Follows-accepted stream f ts t xs h k =
    if_cases (Follows (get t.newest stream)) (triple_eq.beq f.stream stream)
      (λ same.
        Follows-step f.now ts t (get t.newest stream) xs
          (subst (λ z. passes f.now ts (get t.newest z) t ≡ true)
            ((triple_eq.beq_iff f.stream stream).0 same) h)
          (subst (λ o. Follows o xs) (get-record_frame_same f.stream stream ts t same) k))
      (λ other. subst (λ o. Follows o xs) (get-record_frame_other f.stream stream ts t other) k)

-- The frames behind one of timestamp `o`, and what was accepted of its stream with it.
abbrev later : Stream → Stream → Option ℕ → Bool × ReplayTracker → List Frame → List ℕ
later stream s o r fs =
    let rest = accepted_of stream fs r.1 in
    if r.0 then (if triple_eq.beq s stream then or_zero o ∷ rest else rest) else rest

Follows-frame :
    (stream : Stream) (f : Frame) (o : Option ℕ) (fs : List Frame) (t : ReplayTracker)
    → ((u : ReplayTracker) → Follows (get u.newest stream) (accepted_of stream fs u))
    → Follows (get t.newest stream) (later stream f.stream o (check f.stream o f.now t) fs)
unfolding check
Follows-frame stream f none fs t ih = ih t
Follows-frame stream f (some ts) fs t ih =
    if_cases (λ r. Follows (get t.newest stream) (later stream f.stream (some ts) r fs))
      (passes f.now ts (get t.newest f.stream) t)
      (λ h. Follows-accepted stream f ts t _ h (ih (record_frame f.stream ts t))) (λ h. ih t)

accepted_follow :
    (stream : Stream) (fs : List Frame) (t : ReplayTracker)
    → Follows (get t.newest stream) (accepted_of stream fs t)
accepted_follow stream [] t = Follows-nil (get t.newest stream)
accepted_follow stream (f ∷ fs) t =
    Follows-frame stream f f.timestamp fs t (accepted_follow stream fs)

-- Whatever frames arrive, the timestamps that a new tracker accepts of one stream strictly
-- increase, so no frame is accepted twice.
pub accepted_of-Increasing :
    (stream : Stream) (fs : List Frame) → Increasing (accepted_of stream fs new_tracker)
unfolding get
accepted_of-Increasing stream fs = accepted_follow stream fs new_tracker

abbrev pub after : List Frame → ReplayTracker → ReplayTracker
after [] t = t
after (f ∷ fs) t = after fs (check_one f t).1

-- What holds of every tracker that frames can lead to.
pub record IsTracker (t : ReplayTracker) : Type 0 where
  pub bounded : size t.newest ≤ max_streams
  pub covered : (stream : Stream) (n : ℕ) → get t.newest stream ≡ some n → n ≤ t.max_accepted

room_of_new :
    (now : Option ℕ) (ts : ℕ) (t : ReplayTracker)
    → passes now ts none t ≡ true
    → size t.newest < max_streams
unfolding passes
room_of_new now ts t h = ground arith

known_or_room :
    (now : Option ℕ) (ts : ℕ) (stream : Stream) (t : ReplayTracker)
    → passes now ts (get t.newest stream) t ≡ true
    → (has t.newest stream ≡ true) ⊎ (size t.newest < max_streams)
known_or_room now ts stream t h = elim (Bool-cases (has t.newest stream)) [
  | inl e ↦ inl e
  | inr e ↦
      inr
        (room_of_new now ts t (subst (λ o. passes now ts o t ≡ true) (has-get t.newest stream e) h))
]

record_frame-IsTracker :
    (stream : Stream) (now : Option ℕ) (ts : ℕ) (t : ReplayTracker)
    → passes now ts (get t.newest stream) t ≡ true
    → IsTracker t
    → IsTracker (record_frame stream ts t)
record_frame-IsTracker stream now ts t h v = record {
  bounded =
      ground (arith, known_or_room now ts stream t h, length-set t.newest stream ts, v.bounded);
  covered =
      λ s n e. ground (arith, get-set t.newest stream s ts, v.covered s n, some-injective ts n);
}

check-IsTracker :
    (f : Frame) (o : Option ℕ) (t : ReplayTracker)
    → IsTracker t
    → IsTracker (check f.stream o f.now t).1
unfolding check
check-IsTracker f none t v = v
check-IsTracker f (some ts) t v =
    if_cases (λ (r : Bool × ReplayTracker). IsTracker r.1)
      (passes f.now ts (get t.newest f.stream) t)
      (λ h. record_frame-IsTracker f.stream f.now ts t h v) (λ h. v)

after-IsTracker : (fs : List Frame) (t : ReplayTracker) → IsTracker t → IsTracker (after fs t)
after-IsTracker [] t v = v
after-IsTracker (f ∷ fs) t v =
    after-IsTracker fs (check_one f t).1 (check-IsTracker f f.timestamp t v)

-- Whatever frames arrive, a tracker keeps at most 256 streams, and its reference time is no less
-- than the newest timestamp of each of them.
pub after_new-IsTracker : (fs : List Frame) → IsTracker (after fs new_tracker)
unfolding get
after_new-IsTracker fs =
    after-IsTracker fs new_tracker
      (record { bounded = omega arith; covered = λ s n e. ground arith })

-- A stream that the tracker does not know is accepted exactly when its timestamp is at most the
-- window older than the clock and than every timestamp accepted, and there is room for it.
pub new_stream_iff :
    (stream : Stream) (ts : ℕ) (now : Option ℕ) (t : ReplayTracker)
    → get t.newest stream ≡ none
    → ((check stream (some ts) now t).0 ≡ true) ↔ (
        (or_zero now ≤ ts + freshness_window)
        × (t.max_accepted ≤ ts + freshness_window)
        × (size t.newest < max_streams))
unfolding check passes
new_stream_iff stream ts now t e = rw e (ground arith)

-- A frame that is refused leaves the tracker as it was.
pub refused_keeps :
    (stream : Stream) (o now : Option ℕ) (t : ReplayTracker)
    → (check stream o now t).0 ≡ false
    → (check stream o now t).1 ≡ t
unfolding check
refused_keeps stream none now t h = refl
refused_keeps stream (some ts) now t h = ground arith
