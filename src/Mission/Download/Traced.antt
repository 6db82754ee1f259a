-- ===== src/Mission/Download/Traced.antt =====
-- What the count and the items of a download of lib/mission/mission-download.js come from, between two
-- events.
use node_red_contrib_mavlink.Common.{
  ℕ, zero, suc, ◌≡◌, ◌⊎◌, inl, inr, refl, sym, ap, ◌∙◌, subst, Bool, true, false, not, Option, none,
  some, List, [], ◌∷◌, ◌++◌, arith, ltb, leb, ◌==◌, All, All-append, if_cases, is_empty,
}
use node_red_contrib_mavlink.Workflow.{subscribe, finish, clear_timeout, take_out, take_send}
use node_red_contrib_mavlink.Mission.{
  Config, Name, mission_request, mission_request_int, mission_ack, mission_count, mission_item,
  mission_item_int, Payload, Screened, foreign, too_old, ours, screen, Base, State, waiting_count,
  complete, failed, Answer, done, failed_with, Failure, fire, follow, on_timeout, bad_mission_type,
  bad_filter,
}
use node_red_contrib_mavlink.Mission.Sender.{Genuine, screen-Genuine}
use node_red_contrib_mavlink.Mission.Download.{
  Act, request_list, request_item, Cont, list_sent, item_sent, ack_sent, Msg, Item, Mission,
  Download, Event, send_ends, timer_fires, arrives, aborts, is_waiting_count, is_waiting_item,
  goes_on, new_download, start, extract_item, on_ack, on_count, on_item, on_named, on_screened,
  on_message, do_request_list, act, continue, step, run,
}
use node_red_contrib_mavlink.Mission.Download.Heard.{
  IsItem, Arrived, Announced, Delivered, Told, IsFrom, all-IsFrom,
}

-- Before a count was taken, only the list has been asked for.
abbrev ListSend : Cont → Type 0
ListSend list_sent = Unit
ListSend _ = ⊥

abbrev ListTimer : Option Act → Type 0
ListTimer none = Unit
ListTimer (some request_list) = Unit
ListTimer (some (request_item seq)) = ⊥

abbrev Before : Option Act → List Cont → State → Type 0
Before timer pending state =
    ListTimer timer × All ListSend pending × (is_waiting_item state ≡ false)

abbrev Taken : Option (Cont × List Cont) → Type 0
Taken none = Unit
Taken (some (k, ks)) = ListSend k × All ListSend ks

take_out-Taken :
    (k : Cont) (o : Option (Cont × List Cont)) → ListSend k → Taken o → Taken (take_out k o)
take_out-Taken k none h t = tt
take_out-Taken k (some (j, ks)) h t = (t.0, (h, t.1))

take_send-Taken : (n : ℕ) (ks : List Cont) → All ListSend ks → Taken (take_send n ks)
take_send-Taken n [] h = tt
take_send-Taken zero (k ∷ ks) h = h
take_send-Taken (suc n) (k ∷ ks) h =
    take_out-Taken k (take_send n ks) h.0 (take_send-Taken n ks h.1)

module _ {I : Type 0} where
  module _ (c : Config) (P : Payload I → Type 0) where
    abbrev Known : ℕ → Option Act → List Cont → State → Type 0
    Known count timer pending state = Announced c P count ⊎ Before timer pending state

    record Traced (config : Config) (answers : List (Answer (Mission I))) (items : List (Item I))
        (count : ℕ) (timer : Option Act) (pending : List Cont) (state : State) : Type 0 where
      same_config : config ≡ c
      told : All (Told c P) answers
      delivered : All (Delivered c P) items
      known : Known count timer pending state

    abbrev Inv : Download I → Type 0
    Inv d = Traced d.config d.base.answers d.items d.count d.base.timer d.base.pending d.base.state

    fail-Known :
        (count : ℕ) (timer : Option Act) (pending : List Cont) (state end : State)
        → is_waiting_item end ≡ false
        → Known count timer pending state
        → Known count none pending end
    fail-Known count timer pending state end e (inl a) = inl a
    fail-Known count timer pending state end e (inr b) = inr (tt, b.1, e)

    finish-Inv :
        (end : State) (a : Answer (Mission I)) (d : Download I)
        → is_waiting_item end ≡ false
        → Told c P a
        → Inv d
        → Inv (record d { base = finish end a d.base })
    unfolding finish
    finish-Inv end a d e t w =
        if_cases {A = Base Act Cont Msg (Mission I)} (λ b. Inv (record d { base = b }))
          d.base.settled (λ on. w)
          (λ off. record {
            same_config = w.same_config;
            told = (t, w.told);
            delivered = w.delivered;
            known = fail-Known d.count d.base.timer d.base.pending d.base.state end e w.known;
          })

    fail-Inv :
        (f : Failure) (d : Download I)
        → Inv d
        → Inv (record d { base = finish failed (failed_with f) d.base })
    fail-Inv f d w = finish-Inv failed (failed_with f) d refl tt w

    -- The timer is cleared.
    quiet-Known :
        (count : ℕ) (timer : Option Act) (pending : List Cont) (state : State)
        → Known count timer pending state
        → Known count none pending state
    quiet-Known count timer pending state (inl a) = inl a
    quiet-Known count timer pending state (inr b) = inr (tt, b.1, b.2)

    quiet-Inv : (d : Download I) → Inv d → Inv (record d { base = clear_timeout d.base })
    quiet-Inv d w = record {
      same_config = w.same_config;
      told = w.told;
      delivered = w.delivered;
      known = quiet-Known d.count d.base.timer d.base.pending d.base.state w.known;
    }

    more-Known :
        (count : ℕ) (timer : Option Act) (pending : List Cont) (state : State)
        → Known count timer pending state
        → Known count timer (pending ++ (list_sent ∷ [])) waiting_count
    more-Known count timer pending state (inl a) = inl a
    more-Known count timer pending state (inr b) =
        inr (b.0, All-append ListSend pending (list_sent ∷ []) b.1 (tt, tt), refl)

    ask-Inv : (d : Download I) → Inv d → Inv (do_request_list d)
    ask-Inv d w = record {
      same_config = w.same_config;
      told = w.told;
      delivered = w.delivered;
      known = more-Known d.count d.base.timer d.base.pending d.base.state w.known;
    }

    item-Known :
        (count seq : ℕ) (pending : List Cont) (state : State)
        → Known count (some (request_item seq)) pending state
        → Announced c P count
    item-Known count seq pending state (inl a) = a
    item-Known count seq pending state (inr b) = absurd b.0

    again-Inv :
        (a : Act) (retries : ℕ) (d : Download I)
        → d.base.timer ≡ some a
        → Inv d
        → Inv
            (act (some a) (record d { base = record (d.base) { timer = none; retries = retries } }))
    again-Inv request_list retries d e w =
        ask-Inv (record d { base = record (d.base) { timer = none; retries = retries } })
          (record {
            same_config = w.same_config;
            told = w.told;
            delivered = w.delivered;
            known = quiet-Known d.count d.base.timer d.base.pending d.base.state w.known;
          })
    again-Inv (request_item seq) retries d e w = record {
      same_config = w.same_config;
      told = w.told;
      delivered = w.delivered;
      known = inl (
          item-Known d.count seq d.base.pending d.base.state
            (subst (λ t. Known d.count t d.base.pending d.base.state) e w.known));
    }

    fire-Inv :
        (o : Option Act) (d : Download I)
        → d.base.timer ≡ o
        → Inv d
        → Inv (
            let (a, b) = fire d.config.max_retries o (clear_timeout d.base) in
            act a (record d { base = b }))
    fire-Inv none d e w = quiet-Inv d w
    fire-Inv (some a) d e w =
        let R : Type 0 = Option Act × Base Act Cont Msg (Mission I) in
        let Q : R → Type 0 = λ r. Inv (act r.0 (record d { base = r.1 })) in
        if_cases {A = R} Q d.base.settled (λ on. quiet-Inv d w)
          (λ off.
            if_cases {A = R} Q (leb d.config.max_retries d.base.retries)
              (λ spent. fail-Inv _ (record d { base = clear_timeout d.base }) (quiet-Inv d w))
              (λ more. again-Inv a (suc d.base.retries) d e w))

    -- What is known when a send ends, of the others and of what is armed then.
    rest-Known :
        (count : ℕ) (k : Cont) (pending ks : List Cont) (timer : Option Act) (state : State)
        → Known count timer pending state
        → (All ListSend pending → ListSend k × All ListSend ks)
        → Known count timer ks state
    rest-Known count k pending ks timer state (inl a) f = inl a
    rest-Known count k pending ks timer state (inr b) f = inr (b.0, (f b.1).1, b.2)

    ended-Known :
        (count : ℕ) (k : Cont) (pending ks : List Cont) (timer : Option Act) (state : State)
        → (ListSend k → ⊥)
        → Known count timer pending state
        → (All ListSend pending → ListSend k × All ListSend ks)
        → Announced c P count
    ended-Known count k pending ks timer state n (inl a) f = a
    ended-Known count k pending ks timer state n (inr b) f = absurd (n (f b.1).0)

    armed-Known :
        (count : ℕ) (timer : Option Act) (pending : List Cont) (state : State)
        → Known count timer pending state
        → Known count (some request_list) pending state
    armed-Known count timer pending state (inl a) = inl a
    armed-Known count timer pending state (inr b) = inr (tt, b.1, b.2)

    ended-Inv :
        (k : Cont) (ks : List Cont) (d : Download I)
        → (All ListSend d.base.pending → ListSend k × All ListSend ks)
        → Inv d
        → Inv (record d { base = record (d.base) { pending = ks } })
    ended-Inv k ks d f w = record {
      same_config = w.same_config;
      told = w.told;
      delivered = w.delivered;
      known = rest-Known d.count k d.base.pending ks d.base.timer d.base.state w.known f;
    }

    follow-Inv :
        (sent_ok : Bool) (o : Option (Cont × List Cont)) (d : Download I)
        → (All ListSend d.base.pending → Taken o)
        → Inv d
        → Inv
            (let (k, b) = follow (goes_on o sent_ok) o d.base in continue k (record d { base = b }))
    follow-Inv sent_ok none d f w = w
    follow-Inv true (some (list_sent, ks)) d f w = record {
      same_config = w.same_config;
      told = w.told;
      delivered = w.delivered;
      known =
          armed-Known d.count d.base.timer ks d.base.state
            (rest-Known d.count list_sent d.base.pending ks d.base.timer d.base.state w.known f);
    }
    follow-Inv true (some (item_sent seq, ks)) d f w = record {
      same_config = w.same_config;
      told = w.told;
      delivered = w.delivered;
      known = inl (
          ended-Known d.count (item_sent seq) d.base.pending ks d.base.timer d.base.state (λ h. h)
            w.known f);
    }
    follow-Inv false (some (list_sent, ks)) d f w =
        fail-Inv _ (record d { base = record (d.base) { pending = ks } })
          (ended-Inv list_sent ks d f w)
    follow-Inv false (some (item_sent seq, ks)) d f w =
        fail-Inv _ (record d { base = record (d.base) { pending = ks } })
          (ended-Inv (item_sent seq) ks d f w)
    follow-Inv sent_ok (some (ack_sent, ks)) d f w =
        finish-Inv complete (done (record { count = d.count; items = d.items }))
          (record d { base = record (d.base) { pending = ks } }) refl
          (
            ended-Known d.count ack_sent d.base.pending ks d.base.timer d.base.state (λ h. h)
                w.known f,
            w.delivered,
          )
          (ended-Inv ack_sent ks d f w)

    waits-Known :
        (count : ℕ) (timer : Option Act) (pending : List Cont) (state : State)
        → is_waiting_item state ≡ true
        → Known count timer pending state
        → Announced c P count
    waits-Known count timer pending state h (inl a) = a
    waits-Known count timer pending state h (inr b) = ground (arith, h, b.2)

    ack-Inv : (result : ℕ) (d : Download I) → Inv d → Inv (on_ack result d)
    ack-Inv result d w =
        if_cases Inv (result == d.config.mission_accepted) (λ same. w)
          (λ other. fail-Inv _ (record d { base = clear_timeout d.base }) (quiet-Inv d w))

    -- What is kept once the count is known, whatever is under way.
    counted :
        {config : Config} {answers : List (Answer (Mission I))} {items : List (Item I)} {count : ℕ}
        {timer : Option Act} {pending : List Cont} {state : State}
        → config ≡ c
        → All (Told c P) answers
        → All (Delivered c P) items
        → Announced c P count
        → Traced config answers items count timer pending state
    counted s t i a = record { same_config = s; told = t; delivered = i; known = inl a }

    count-Inv : (n : ℕ) (d : Download I) → Announced c P n → Inv d → Inv (on_count n d)
    count-Inv n d a w =
        if_cases Inv (n == 0) (λ e. counted w.same_config w.told w.delivered a)
          (λ e. counted w.same_config w.told w.delivered a)

    item-Inv :
        (m : Payload I) (d : Download I)
        → P m
        → IsItem m.name
        → Genuine c m
        → is_waiting_item d.base.state ≡ true
        → Inv d
        → Inv (on_item m d)
    item-Inv m d p n g h w =
        let a = waits-Known d.count d.base.timer d.base.pending d.base.state h w.known in
        let i : All (Delivered c P) (d.items ++ (extract_item m ∷ [])) =
          All-append (Delivered c P) d.items (extract_item m ∷ []) w.delivered
            ((m, p, n, g, refl, refl, refl), tt) in
        if_cases Inv (not (m.seq == d.expected_seq)) (λ e. w)
          (λ e.
            if_cases Inv (leb d.count (suc m.seq)) (λ k. counted w.same_config w.told i a)
              (λ k. counted w.same_config w.told i a))

    named-Inv :
        (name : Name) (m : Payload I) (d : Download I)
        → m.name ≡ name
        → P m
        → Genuine c m
        → Inv d
        → Inv (on_named name m d)
    named-Inv mission_ack m d e p g w = ack-Inv m.result d w
    named-Inv mission_count m d e p g w =
        if_cases Inv (is_waiting_count d.base.state) (λ h. count-Inv m.count d (m, p, e, g, refl) w)
          (λ h. w)
    named-Inv mission_item m d e p g w =
        if_cases Inv (is_waiting_item d.base.state)
          (λ h. item-Inv m d p (subst IsItem (sym e) tt) g h w) (λ h. w)
    named-Inv mission_item_int m d e p g w =
        if_cases Inv (is_waiting_item d.base.state)
          (λ h. item-Inv m d p (subst IsItem (sym e) tt) g h w) (λ h. w)
    named-Inv mission_request m d e p g w = w
    named-Inv mission_request_int m d e p g w = w

    screened-Inv :
        (q : Screened) (m : Payload I) (d : Download I)
        → screen d.config m ≡ q
        → P m
        → Inv d
        → Inv (on_screened q m d)
    screened-Inv foreign m d e p w = w
    screened-Inv too_old m d e p w = fail-Inv _ d w
    screened-Inv ours m d e p w =
        named-Inv m.name m d refl p
          (screen-Genuine c m (ap (λ k. screen k m) (sym w.same_config) ∙ e)) w

    step-Inv : (d : Download I) (ev : Event I) → IsFrom P ev → Inv d → Inv (step d ev)
    unfolding step on_message on_timeout
    step-Inv d (send_ends n sent_ok) p w =
        follow-Inv sent_ok (take_send n d.base.pending) d (take_send-Taken n d.base.pending) w
    step-Inv d timer_fires p w = fire-Inv d.base.timer d refl w
    step-Inv d (arrives m) p w =
        if_cases Inv (is_empty d.base.subs) (λ e. w)
          (λ e. screened-Inv (screen d.config m) m d refl p w)
    step-Inv d aborts p w = fail-Inv _ d w

    run-Inv : (d : Download I) (evs : List (Event I)) → All (IsFrom P) evs → Inv d → Inv (run d evs)
    unfolding run
    run-Inv d [] h w = w
    run-Inv d (ev ∷ evs) h w = run-Inv (step d ev) evs h.1 (step-Inv d ev h.0 w)

    start-Inv :
        (link_subs : List ℕ) (next_sub : ℕ) → Inv (start (new_download c link_subs next_sub))
    unfolding start
    start-Inv link_subs next_sub =
        let d : Download I = new_download c link_subs next_sub in
        let w : Inv d = record {
          same_config = refl;
          told = tt;
          delivered = tt;
          known = inr (tt, tt, refl);
        } in
        if_cases Inv (c.mission_type == c.mission_type_all) (λ e. fail-Inv bad_mission_type d w)
          (λ e.
            if_cases Inv (ltb 255 c.target_system) (λ k. fail-Inv bad_filter d w)
              (λ k. ask-Inv (record d { base = subscribe d.base }) w))

  -- After run() and any events, the answers tell what the vehicle announced and sent.
  pub answers-Told :
      (c : Config) (link_subs : List ℕ) (next_sub : ℕ) (evs : List (Event I))
      → All
          (Told c (λ m. Arrived m evs))
          (run (start (new_download c link_subs next_sub)) evs).base.answers
  answers-Told c link_subs next_sub evs =
      let P : Payload I → Type 0 = λ m. Arrived m evs in
      (run-Inv c P _ evs (all-IsFrom evs) (start-Inv c P link_subs next_sub)).told
