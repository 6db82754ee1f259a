-- ===== src/Mission/Upload/Progress.antt =====
-- What an upload of lib/mission/mission-upload.js awaits while it is open.
use node_red_contrib_mavlink.Common.{
  ℕ, zero, suc, max, ◌≡◌, ◌⊎◌, inl, inr, refl, subst, Bool, true, false, ◌&&◌, Option, none, some,
  List, [], ◌∷◌, ◌++◌, arith, All, All-append, get_elem?, if_cases, is_empty, ltb, leb, ◌==◌,
}
use node_red_contrib_mavlink.Workflow.{finish, take_send, take_out}
use node_red_contrib_mavlink.Mission.{
  Config, Name, mission_request, mission_request_int, mission_ack, mission_count, mission_item,
  mission_item_int, Payload, Screened, foreign, too_old, ours, screen, Base, Answer, State,
  on_timeout, fire, follow, end_send,
}
use node_red_contrib_mavlink.Mission.Upload.{
  Act, send_count, resend_item, Cont, Msg, Upload, new_upload, start, act, continue, count_sent,
  item_sent, item_resent, on_message, on_named, on_screened, on_request, on_ack, resend, too_early,
  max_item_sends, Event, send_ends, timer_fires, arrives, aborts, step, run,
}

abbrev pub timer_runs : Option Act → Bool
timer_runs none = false
timer_runs (some a) = true

snoc_not_empty : (ks : List Cont) (k : Cont) → is_empty (ks ++ (k ∷ [])) ≡ false
snoc_not_empty [] k = refl
snoc_not_empty (j ∷ js) k = refl

module _ {I : Type 0} where
  -- What can be sent again: an item is there.
  abbrev CanResend : List I → Act → Type 0
  CanResend items send_count = Unit
  CanResend items (resend_item seq) = (x : I) × (get_elem? items seq ≡ some x)

  abbrev CanFollow : List I → Cont → Type 0
  CanFollow items count_sent = Unit
  CanFollow items (item_sent seq) = (x : I) × (get_elem? items seq ≡ some x)
  CanFollow items (item_resent seq) = (x : I) × (get_elem? items seq ≡ some x)

  abbrev Armed : List I → Option Act → Type 0
  Armed items none = Unit
  Armed items (some a) = CanResend items a

  record Live (items : List I) (settled : Bool) (timer : Option Act) (pending : List Cont)
      : Type 0 where
    armed : Armed items timer
    follows : All (CanFollow items) pending
    moves : settled ≡ false → (is_empty pending ≡ false) ⊎ (timer_runs timer ≡ true)

  abbrev Moving : Upload I → Type 0
  Moving u = Live u.items u.base.settled u.base.timer u.base.pending

  -- The same, without the promise that something is under way.
  record Sound (items : List I) (timer : Option Act) (pending : List Cont) : Type 0 where
    armed : Armed items timer
    follows : All (CanFollow items) pending

  abbrev Able : Upload I → Type 0
  Able u = Sound u.items u.base.timer u.base.pending

  Moving-Able : (u : Upload I) → Moving u → Able u
  Moving-Able u m = record { armed = m.armed; follows = m.follows }

  finish-Moving :
      (state : State) (a : Answer ℕ) (u : Upload I)
      → Able u
      → Moving (record u { base = finish state a u.base })
  unfolding finish
  finish-Moving state a u m =
      if_cases {A = Base Act Cont (Msg I) ℕ} (λ b. Moving (record u { base = b })) u.base.settled
        (λ on. record { armed = m.armed; follows = m.follows; moves = λ e. ground arith })
        (λ off. record {
          armed = tt;
          follows = m.follows;
          moves = λ (e : true ≡ false). ground arith;
        })

  -- A send is always followed.
  send-Live :
      (items : List I) (settled : Bool) (timer : Option Act) (pending : List Cont) (k : Cont)
      → Sound items timer pending
      → CanFollow items k
      → Live items settled timer (pending ++ (k ∷ []))
  send-Live items settled timer pending k m h = record {
    armed = m.armed;
    follows = All-append (CanFollow items) pending (k ∷ []) m.follows (h, tt);
    moves = λ e. inl (snoc_not_empty pending k);
  }

  -- The continuation that is taken out, and those that stay.
  abbrev Taken : List I → Option (Cont × List Cont) → Type 0
  Taken items none = Unit
  Taken items (some (k, ks)) = CanFollow items k × All (CanFollow items) ks

  take_out-Taken :
      (items : List I) (k : Cont) (o : Option (Cont × List Cont))
      → CanFollow items k
      → Taken items o
      → Taken items (take_out k o)
  take_out-Taken items k none h t = tt
  take_out-Taken items k (some (j, js)) h t = (t.0, (h, t.1))

  take_send-Taken :
      (items : List I) (n : ℕ) (ks : List Cont)
      → All (CanFollow items) ks
      → Taken items (take_send n ks)
  take_send-Taken items n [] h = tt
  take_send-Taken items zero (k ∷ ks) h = h
  take_send-Taken items (suc n) (k ∷ ks) h =
      take_out-Taken items k (take_send n ks) h.0 (take_send-Taken items n ks h.1)

  continue-Moving :
      (k : Cont) (u : Upload I)
      → CanFollow u.items k
      → All (CanFollow u.items) u.base.pending
      → Moving (continue (some k) u)
  continue-Moving count_sent u h f = record { armed = tt; follows = f; moves = λ e. inr refl }
  continue-Moving (item_sent seq) u h f = record { armed = h; follows = f; moves = λ e. inr refl }
  continue-Moving (item_resent seq) u h f = record { armed = h; follows = f; moves = λ e. inr refl }

  follow-Moving :
      (sent_ok : Bool) (o : Option (Cont × List Cont)) (u : Upload I)
      → Taken u.items o
      → Moving u
      → Moving (let (k, b) = follow sent_ok o u.base in continue k (record u { base = b }))
  follow-Moving sent_ok none u t m = m
  follow-Moving true (some (k, ks)) u t m =
      continue-Moving k (record u { base = record (u.base) { pending = ks } }) t.0 t.1
  follow-Moving false (some (k, ks)) u t m =
      finish-Moving _ _ (record u { base = record (u.base) { pending = ks } })
        (record { armed = m.armed; follows = t.1 })

  resend-Moving :
      (seq : ℕ) (x : I) (o : Option I) (u : Upload I)
      → get_elem? u.items seq ≡ some x
      → get_elem? u.items seq ≡ o
      → Able u
      → Moving (resend seq o u)
  resend-Moving seq x none u h e m = ground arith
  resend-Moving seq x (some y) u h e m =
      send-Live u.items u.base.settled u.base.timer u.base.pending (item_resent seq) m (x, h)

  act-Moving : (a : Act) (u : Upload I) → CanResend u.items a → Able u → Moving (act (some a) u)
  act-Moving send_count u h m =
      send-Live u.items u.base.settled u.base.timer u.base.pending count_sent m tt
  act-Moving (resend_item seq) u h m = resend-Moving seq h.0 (get_elem? u.items seq) u h.1 refl m

  request-Moving :
      (use_int : Bool) (seq : ℕ) (o : Option I) (u : Upload I)
      → get_elem? u.items seq ≡ o
      → Moving u
      → Moving (on_request use_int seq o u)
  request-Moving use_int seq none u e m = finish-Moving _ _ u (Moving-Able u m)
  request-Moving use_int seq (some x) u e m =
      if_cases {A = Upload I} Moving (ltb (max_item_sends u) (suc u.item_sends))
        (λ full.
          finish-Moving _ _
            (record u {
              item_use_int = some use_int;
              sent_to = max u.sent_to (suc seq);
              item_sends = suc u.item_sends;
            })
            (Moving-Able u m))
        (λ room.
          send-Live u.items u.base.settled none u.base.pending (item_sent seq)
            (record { armed = tt; follows = m.follows }) (x, e))

  ack-Moving : (result : ℕ) (u : Upload I) → Moving u → Moving (on_ack result u)
  ack-Moving result u m =
      if_cases {A = Upload I} Moving ((result == u.config.mission_accepted) && too_early u)
        (λ early. m)
        (λ late.
          let stopped = record u { base = record (u.base) { timer = none } } in
          if_cases {A = Upload I} Moving (result == u.config.mission_accepted)
            (λ good. finish-Moving _ _ stopped (record { armed = tt; follows = m.follows }))
            (λ other. finish-Moving _ _ stopped (record { armed = tt; follows = m.follows })))

  named-Moving :
      (name : Name) (m : Payload I) (u : Upload I) → Moving u → Moving (on_named name m u)
  named-Moving mission_request m u v = request-Moving false m.seq (get_elem? u.items m.seq) u refl v
  named-Moving mission_request_int m u v =
      request-Moving true m.seq (get_elem? u.items m.seq) u refl v
  named-Moving mission_ack m u v = ack-Moving m.result u v
  named-Moving mission_count m u v = v
  named-Moving mission_item m u v = v
  named-Moving mission_item_int m u v = v

  screened-Moving :
      (q : Screened) (m : Payload I) (u : Upload I) → Moving u → Moving (on_screened q m u)
  screened-Moving foreign m u v = v
  screened-Moving too_old m u v = finish-Moving _ _ u (Moving-Able u v)
  screened-Moving ours m u v = named-Moving m.name m u v

  fire-Moving :
      (max_retries : ℕ) (o : Option Act) (u : Upload I)
      → u.base.timer ≡ o
      → Moving u
      → Moving (
          let (a, b) = fire max_retries o (record (u.base) { timer = none }) in
          act a (record u { base = b }))
  fire-Moving max_retries none u e m = record {
    armed = tt;
    follows = m.follows;
    moves = λ off. ground (arith, m.moves off);
  }
  fire-Moving max_retries (some a) u e m =
      let P : Option Act × Base Act Cont (Msg I) ℕ → Type 0 =
        λ r. Moving (act r.0 (record u { base = r.1 })) in
      if_cases {A = Option Act × Base Act Cont (Msg I) ℕ} P u.base.settled
        (λ on. record { armed = tt; follows = m.follows; moves = λ off. ground arith })
        (λ off.
          if_cases {A = Option Act × Base Act Cont (Msg I) ℕ} P (leb max_retries u.base.retries)
            (λ spent.
              finish-Moving _ _ (record u { base = record (u.base) { timer = none } })
                (record { armed = tt; follows = m.follows }))
            (λ more.
              act-Moving a
                (record u { base = record (u.base) { timer = none; retries = suc u.base.retries } })
                (subst (Armed u.items) e m.armed) (record { armed = tt; follows = m.follows })))

  step-Moving : (u : Upload I) (ev : Event I) → Moving u → Moving (step u ev)
  unfolding step on_message on_timeout end_send
  step-Moving u (send_ends n sent_ok) m =
      follow-Moving sent_ok (take_send n u.base.pending) u
        (take_send-Taken u.items n u.base.pending m.follows) m
  step-Moving u timer_fires m = fire-Moving u.config.max_retries u.base.timer u refl m
  step-Moving u (arrives p) m =
      if_cases {A = Upload I} Moving (is_empty u.base.subs) (λ e. m)
        (λ e. screened-Moving (screen u.config p) p u m)
  step-Moving u aborts m = finish-Moving _ _ u (Moving-Able u m)

  run-Moving : (u : Upload I) (evs : List (Event I)) → Moving u → Moving (run u evs)
  unfolding run
  run-Moving u [] m = m
  run-Moving u (ev ∷ evs) m = run-Moving (step u ev) evs (step-Moving u ev m)

  start-Moving :
      (c : Config) (items : List I) (link_subs : List ℕ) (next_sub : ℕ)
      → Moving (start (new_upload c items link_subs next_sub))
  unfolding start
  start-Moving c items link_subs next_sub =
      let u = new_upload c items link_subs next_sub in
      if_cases {A = Upload I} Moving (c.mission_type == c.mission_type_all)
        (λ e. finish-Moving _ _ u (record { armed = tt; follows = tt }))
        (λ e.
          if_cases {A = Upload I} Moving (ltb 255 c.target_system)
            (λ k. finish-Moving _ _ u (record { armed = tt; follows = tt }))
            (λ k. record { armed = tt; follows = (tt, tt); moves = λ e. inl refl }))

  -- After run() and any events, an upload that is not settled awaits the end of a send or has its
  -- timer running: no order of messages, sends and timeouts leaves it waiting for the vehicle alone.
  pub upload_never_stuck :
      (c : Config) (items : List I) (link_subs : List ℕ) (next_sub : ℕ) (evs : List (Event I))
      → let u = run (start (new_upload c items link_subs next_sub)) evs in
        u.base.settled ≡ false
        → (is_empty u.base.pending ≡ false) ⊎ (timer_runs u.base.timer ≡ true)
  upload_never_stuck c items link_subs next_sub evs h =
      (run-Moving _ evs (start-Moving c items link_subs next_sub)).moves h
