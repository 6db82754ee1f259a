-- ===== src/Mission/Upload/Runs.antt =====
-- What lib/mission/mission-upload.js does over any sequence of events.
use node_red_contrib_mavlink.Common.{
  ℕ, ◌+◌, ◌*◌, ◌≤◌, ◌≡◌, refl, subst, true, false, List, [], ◌∷◌, arith, All, length, if◌then◌else◌,
  if_cases, ltb, ◌==◌,
}
use native.Mathlib.Nat.{mul-le-mul_left}
use node_red_contrib_mavlink.Mission.{Config, done, bad_mission_type, bad_filter}
use node_red_contrib_mavlink.Mission.Upload.{Upload, new_upload, start, Event, run}
use node_red_contrib_mavlink.Mission.Upload.Sent.{LastSent, IsHonest, IsOurs}
use node_red_contrib_mavlink.Mission.Upload.Valid.{Inv, fail-Inv, run-Inv}
use node_red_contrib_mavlink.Mission.Upload.Quiet.{run-Quiet, Inv-Quiet}

module _ {I : Type 0} where
  new-Inv :
      (c : Config) (items : List I) (link_subs : List ℕ) (next_sub : ℕ)
      → Inv items c.max_retries (new_upload c items link_subs next_sub)
  new-Inv c items link_subs next_sub = record {
    answered_once = refl;
    no_subs = λ (e : false ≡ true). ground arith;
    same_items = refl;
    same_limit = refl;
    retried = omega arith;
    answered = 0;
    ceiling = omega arith;
    few = omega arith;
    ours = tt;
    honest = tt;
    going_on = λ e. record { counted = refl; reached = λ h. ground arith };
  }

  start-Inv :
      (c : Config) (items : List I) (link_subs : List ℕ) (next_sub : ℕ)
      → Inv items c.max_retries (start (new_upload c items link_subs next_sub))
  unfolding start
  start-Inv c items link_subs next_sub =
      let u = new_upload c items link_subs next_sub in
      if_cases {A = Upload I} (Inv items c.max_retries) (c.mission_type == c.mission_type_all)
        (λ e. fail-Inv items c.max_retries bad_mission_type u (new-Inv c items link_subs next_sub))
        (λ e.
          if_cases {A = Upload I} (Inv items c.max_retries) (ltb 255 c.target_system)
            (λ k. fail-Inv items c.max_retries bad_filter u (new-Inv c items link_subs next_sub))
            (λ k. record {
              answered_once = refl;
              no_subs = λ (e : false ≡ true). ground arith;
              same_items = refl;
              same_limit = refl;
              retried = omega arith;
              answered = 0;
              ceiling = omega arith;
              few = omega arith;
              ours = (refl, tt);
              honest = tt;
              going_on = λ e. record { counted = refl; reached = λ h. ground arith };
            }))

  -- An upload after run() and some events.
  abbrev pub after : Config → List I → List ℕ → ℕ → List (Event I) → Upload I
  after c items link_subs next_sub evs = run (start (new_upload c items link_subs next_sub)) evs

  after-Inv :
      (c : Config) (items : List I) (link_subs : List ℕ) (next_sub : ℕ) (evs : List (Event I))
      → Inv items c.max_retries (after c items link_subs next_sub evs)
  after-Inv c items link_subs next_sub evs =
      run-Inv items c.max_retries _ evs (start-Inv c items link_subs next_sub)

  bounded_own :
      (items : List I) (limit : ℕ) (u : Upload I)
      → Inv items limit u
      → length u.base.sent
        ≤ (u.config.max_retries + 1) * (1 + length u.items * (u.config.max_retries + 1))
  bounded_own items limit u v =
      let n = length u.items * (u.config.max_retries + 1) in
      let more : 1 + v.answered ≤ 1 + n = omega (arith, v.ceiling) in
      omega (arith, v.few, mul-le-mul_left (u.config.max_retries + 1) more)

  Inv-bounded :
      (items : List I) (limit : ℕ) (u : Upload I)
      → Inv items limit u
      → length u.base.sent ≤ (limit + 1) * (1 + length items * (limit + 1))
  Inv-bounded items limit u v =
      subst (λ xs. length u.base.sent ≤ (limit + 1) * (1 + length xs * (limit + 1))) v.same_items
        (subst (λ k. length u.base.sent ≤ (k + 1) * (1 + length u.items * (k + 1))) v.same_limit
          (bounded_own items limit u v))

  module _ (c : Config) (items : List I) (link_subs : List ℕ) (next_sub : ℕ)
      (evs : List (Event I)) where
    -- After run() and any events: a success is reported with the number of items, and only when
    -- the mission is empty or its last item was sent.
    pub success-LastSent :
        (n : ℕ)
        → (after c items link_subs next_sub evs).base.answers ≡ done n ∷ []
        → (n ≡ length items) × LastSent items (after c items link_subs next_sub evs).base.sent
    success-LastSent n e =
        let v = after-Inv c items link_subs next_sub evs in
        subst (λ xs. IsHonest xs (after c items link_subs next_sub evs).base.sent (done n))
          v.same_items
          (subst
            (All (
              IsHonest (after c items link_subs next_sub evs).items
                (after c items link_subs next_sub evs).base.sent))
            e v.honest).0

    -- After run() and any events: every message that was sent is the count of the mission, or one of
    -- its items under its own index.
    pub sent-IsOurs : All (IsOurs items) (after c items link_subs next_sub evs).base.sent
    sent-IsOurs =
        let v = after-Inv c items link_subs next_sub evs in
        subst (λ xs. All (IsOurs xs) (after c items link_subs next_sub evs).base.sent) v.same_items
          v.ours

    -- After run() and any events, also when the vehicle requests items for ever: the messages sent
    -- are at most one and maxRetries retries for the count, and for each of the item sends that the
    -- stall ceiling allows, which are maxRetries + 1 for each item.
    pub sends_bounded :
        length (after c items link_subs next_sub evs).base.sent
        ≤ (c.max_retries + 1) * (1 + length items * (c.max_retries + 1))
    sends_bounded =
        Inv-bounded items c.max_retries (after c items link_subs next_sub evs)
          (after-Inv c items link_subs next_sub evs)

    -- After run() and any events there is one answer if the upload is settled, and none before; and
    -- once it is settled it has no subscription, and no further events make it send or answer.
    pub upload_settles_once :
        let u = after c items link_subs next_sub evs in
        (length u.base.answers ≡ (if u.base.settled then 1 else 0))
        × (u.base.settled ≡ true
            → (u.base.subs ≡ [])
              × ((later : List (Event I))
                  → ((run u later).base.sent ≡ u.base.sent)
                    × ((run u later).base.answers ≡ u.base.answers)))
    upload_settles_once =
        let u = after c items link_subs next_sub evs in
        let v = after-Inv c items link_subs next_sub evs in
        (
          v.answered_once,
          λ h. (
            v.no_subs h,
            λ later.
                let q =
                  run-Quiet u.base.sent u.base.answers u later
                    (Inv-Quiet items c.max_retries u v h) in
                (q.same_sent, q.same_answers),
          ),
        )
