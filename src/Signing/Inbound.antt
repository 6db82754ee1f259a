-- ===== src/Signing/Inbound.antt =====
-- lib/protocol/mavlink-codec.js: verifyInboundPacket, over the replay tracker of the key.
use node_red_contrib_mavlink.Common.{
  ℕ, ◌≡◌, refl, sym, ap, ◌∙◌, subst, Bool, true, false, not, Option, none, some, List, [], ◌∷◌,
  arith, if◌then◌else◌, if_cases, All, Bool-cases, inl, inr,
}
use node_red_contrib_mavlink.Signing.{ReplayTracker, new_tracker, check, Stream}
use node_red_contrib_mavlink.Signing.Replay.{
  Frame, accepted_of, took, Increasing, accepted_of-Increasing,
}

-- A signature: its link id and timestamp, and whatever `signature.matches` reads.
pub record Signature (S : Type 0) : Type 0 where
  pub link_id : ℕ
  pub timestamp : Option ℕ
  pub content : S

pub record Packet (S : Type 0) : Type 0 where
  pub sysid : ℕ
  pub compid : ℕ
  pub signature : Option (Signature S)

pub record Policy (Key : Type 0) : Type 0 where
  pub verify_inbound : Bool
  pub require_signature : Bool
  pub key : Option Key
  pub enforce_replay : Bool

pub data Reason : Type 0 where
  signature_required unsigned_allowed signature_no_key signature_invalid : Reason
  signature_replayed signature_valid : Reason

pub record Verdict : Type 0 where
  pub accepted : Bool
  pub reason : Reason
  pub signed : Bool

not-false : (b : Bool) → not b ≡ false → b ≡ true
not-false b h = ground (arith, h)

module _ {Key S : Type 0} (matches_key : Key → Packet S → Bool) where
  abbrev pub stream_of : Packet S → Signature S → Stream
  stream_of p s = (p.sysid, p.compid, s.link_id)

  abbrev pub of_decision : Bool × ReplayTracker → Verdict × ReplayTracker
  of_decision (accepted, t) = (
    record {
      accepted = accepted;
      reason = if accepted then signature_valid else signature_replayed;
      signed = true;
    },
    t,
  )

  abbrev pub verify_replay :
      Option ℕ → Policy Key → Packet S → Signature S → ReplayTracker → Verdict × ReplayTracker
  verify_replay now policy p s t =
      if policy.enforce_replay
      then of_decision (check (stream_of p s) s.timestamp now t)
      else (record { accepted = true; reason = signature_valid; signed = true }, t)

  abbrev pub verify_key :
      Option ℕ
      → Policy Key
      → Packet S
      → Signature S
      → Option Key
      → ReplayTracker
      → Verdict × ReplayTracker
  verify_key now policy p s none t =
      (record { accepted = false; reason = signature_no_key; signed = true }, t)
  verify_key now policy p s (some key) t =
      if not (matches_key key p)
      then (record { accepted = false; reason = signature_invalid; signed = true }, t)
      else verify_replay now policy p s t

  abbrev pub verify_signed :
      Option ℕ
      → Policy Key
      → Packet S
      → Option (Signature S)
      → ReplayTracker
      → Verdict × ReplayTracker
  verify_signed now policy p none t = (
    if policy.require_signature
        then record { accepted = false; reason = signature_required; signed = false }
        else record { accepted = true; reason = unsigned_allowed; signed = false },
    t,
  )
  verify_signed now policy p (some s) t = verify_key now policy p s policy.key t

  -- `verifyInboundPacket`; without verification there is no verdict, and the packet passes.
  unfoldable pub verify_inbound_packet :
      Option ℕ → Policy Key → Packet S → ReplayTracker → Option Verdict × ReplayTracker
  verify_inbound_packet now policy p t =
      let (verdict, u) = verify_signed now policy p p.signature t in
      if policy.verify_inbound then (some verdict, u) else (none, t)

  abbrev pub is_admitted : Option Verdict → Bool
  is_admitted none = true
  is_admitted (some v) = v.accepted

  -- The packets that pass, of those that arrive with their clock readings.
  abbrev pub admitted_if :
      Packet S
      → Option Verdict × ReplayTracker
      → (ReplayTracker → List (Packet S))
      → List (Packet S)
  admitted_if p (verdict, t) next =
      let rest = next t in if is_admitted verdict then p ∷ rest else rest

  abbrev pub admitted : Policy Key → List (Option ℕ × Packet S) → ReplayTracker → List (Packet S)
  admitted policy [] t = []
  admitted policy ((now, p) ∷ ps) t =
      admitted_if p (verify_inbound_packet now policy p t) (admitted policy ps)

  -- The policy that demands everything.
  abbrev pub strict : Key → Policy Key
  strict key = record {
    verify_inbound = true;
    require_signature = true;
    key = some key;
    enforce_replay = true;
  }

  abbrev pub is_signed : Option (Signature S) → Bool
  is_signed none = false
  is_signed (some s) = true

  abbrev pub IsAuthentic : Key → Packet S → Type 0
  IsAuthentic key p = (is_signed p.signature ≡ true) × (matches_key key p ≡ true)

  -- The timestamps of a stream.
  abbrev pub stamp_of : Stream → Packet S → Option (Signature S) → List ℕ → List ℕ
  stamp_of stream p none rest = rest
  stamp_of stream p (some s) rest =
      took stream (record { stream = stream_of p s; timestamp = s.timestamp; now = none }) true rest

  abbrev pub stamps : Stream → List (Packet S) → List ℕ
  stamps stream [] = []
  stamps stream (p ∷ ps) = stamp_of stream p p.signature (stamps stream ps)

  -- The frames that reach the tracker: the signed packets that match the key.
  abbrev frame_of : Key → Option ℕ → Packet S → Option (Signature S) → List Frame → List Frame
  frame_of key now p none fs = fs
  frame_of key now p (some s) fs =
      if not (matches_key key p)
      then fs
      else record { stream = stream_of p s; timestamp = s.timestamp; now = now } ∷ fs

  abbrev frames : Key → List (Option ℕ × Packet S) → List Frame
  frames key [] = []
  frames key ((now, p) ∷ ps) = frame_of key now p p.signature (frames key ps)

  module _ (key : Key) where
    abbrev pub after_verdict :
        Option ℕ → Packet S → Option (Signature S) → ReplayTracker → Option Verdict × ReplayTracker
    after_verdict now p o t =
        let (verdict, u) = verify_signed now (strict key) p o t in (some verdict, u)

    one-IsAuthentic :
        (now : Option ℕ) (p : Packet S) (o : Option (Signature S)) (t : ReplayTracker)
        (next : ReplayTracker → List (Packet S))
        → p.signature ≡ o
        → ((u : ReplayTracker) → All (IsAuthentic key) (next u))
        → All (IsAuthentic key) (admitted_if p (after_verdict now p o t) next)
    one-IsAuthentic now p none t next e h = h t
    one-IsAuthentic now p (some s) t next e h =
        let (accepted, u) = check (stream_of p s) s.timestamp now t in
        if_cases {A = Verdict × ReplayTracker}
          (λ r. All (IsAuthentic key) (admitted_if p (some r.0, r.1) next))
          (not (matches_key key p)) (λ off. h t)
          (λ on.
            if_cases (All (IsAuthentic key)) accepted
              (λ a. ((ap is_signed e, not-false (matches_key key p) on), h u)) (λ a. h u))

    decided :
        (stream : Stream) (now : Option ℕ) (p : Packet S) (s : Signature S) (accepted : Bool)
        (u : ReplayTracker) (next : ReplayTracker → List (Packet S)) (fs : List Frame)
        → p.signature ≡ some s
        → stamps stream (next u) ≡ accepted_of stream fs u
        → stamps stream (if accepted then p ∷ next u else next u)
          ≡ took stream
              (record { stream = stream_of p s; timestamp = s.timestamp; now = now })
              accepted
              (accepted_of stream fs u)
    decided stream now p s true u next fs e h =
        ap (λ o. stamp_of stream p o (stamps stream (next u))) e
        ∙ ap
            (λ xs.
              took stream (record { stream = stream_of p s; timestamp = s.timestamp; now = now })
                true xs)
            h
    decided stream now p s false u next fs e h = h

    one_stamps :
        (stream : Stream) (now : Option ℕ) (p : Packet S) (o : Option (Signature S))
        (t : ReplayTracker) (next : ReplayTracker → List (Packet S)) (fs : List Frame)
        → p.signature ≡ o
        → ((u : ReplayTracker) → stamps stream (next u) ≡ accepted_of stream fs u)
        → stamps stream (admitted_if p (after_verdict now p o t) next)
          ≡ accepted_of stream (frame_of key now p o fs) t
    one_stamps stream now p none t next fs e h = h t
    one_stamps stream now p (some s) t next fs e h = elim (Bool-cases (matches_key key p)) [
      | inl on ↦ rw on (
          let (accepted, u) = check (stream_of p s) s.timestamp now t in
          decided stream now p s accepted u next fs e (h u))
      | inr off ↦ rw off (h t)
    ]

    admitted-IsAuthentic :
        (ps : List (Option ℕ × Packet S)) (t : ReplayTracker)
        → All (IsAuthentic key) (admitted (strict key) ps t)
    unfolding verify_inbound_packet
    admitted-IsAuthentic [] t = tt
    admitted-IsAuthentic ((now, p) ∷ ps) t =
        one-IsAuthentic now p p.signature t (admitted (strict key) ps) refl
          (λ u. admitted-IsAuthentic ps u)

    stamps-admitted :
        (stream : Stream) (ps : List (Option ℕ × Packet S)) (t : ReplayTracker)
        → stamps stream (admitted (strict key) ps t) ≡ accepted_of stream (frames key ps) t
    unfolding verify_inbound_packet
    stamps-admitted stream [] t = refl
    stamps-admitted stream ((now, p) ∷ ps) t =
        one_stamps stream now p p.signature t (admitted (strict key) ps) (frames key ps) refl
          (λ u. stamps-admitted stream ps u)

    -- When verification, signatures, a key and replay protection are all demanded: every packet
    -- that is admitted is signed and matches the key, and the timestamps that are admitted of a
    -- stream strictly increase. So no recorded packet is admitted again.
    pub admitted_once :
        (stream : Stream) (ps : List (Option ℕ × Packet S))
        → All (IsAuthentic key) (admitted (strict key) ps new_tracker)
          × Increasing (stamps stream (admitted (strict key) ps new_tracker))
    admitted_once stream ps = (
      admitted-IsAuthentic ps new_tracker,
      subst Increasing (sym (stamps-admitted stream ps new_tracker))
          (accepted_of-Increasing stream (frames key ps)),
    )
