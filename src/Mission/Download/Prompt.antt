-- ===== src/Mission/Download/Prompt.antt =====
-- Downloads of lib/mission/mission-download.js whose sends end in order and whose timer never fires
-- during one.
use node_red_contrib_mavlink.Common.{
  ℕ, zero, suc, ◌≡◌, refl, sym, ap, subst, Bool, true, false, not, ◌&&◌, Option, none, some, List,
  [], ◌∷◌, ◌++◌, arith, All, All-map, length, length-append, if_cases, is_empty, ltb, leb, ◌==◌,
}
use node_red_contrib_mavlink.Workflow.{take_send}
use node_red_contrib_mavlink.Mission.{
  Config, Name, mission_request, mission_request_int, mission_ack, mission_count, mission_item,
  mission_item_int, Payload, Screened, foreign, too_old, ours, screen, Base, State, idle,
  waiting_request, sending_item, waiting_count, waiting_item, sending_ack, waiting_ack, complete,
  failed, done, fire, on_timeout, follow, bad_mission_type, bad_filter,
}
use node_red_contrib_mavlink.Mission.Download.Heard.{Arrived, Announced, Delivered, Told}
use node_red_contrib_mavlink.Mission.Download.Traced.{answers-Told}
use node_red_contrib_mavlink.Mission.Download.{
  Act, request_list, request_item, Cont, list_sent, item_sent, ack_sent, Msg, Item, Mission,
  Download, Event, send_ends, timer_fires, arrives, aborts, is_waiting_count, is_waiting_item,
  new_download, start, on_ack, on_count, on_item, on_named, on_screened, on_message, act, continue,
  goes_on, extract_item, step, run,
}
use node_red_contrib_mavlink.Mission.Download.Ordered.{
  InOrder, InOrder-snoc, IsWhole, Part, listing, getting, acking, elsewhere, part, current, Phase,
  Going, Timed, Fits, send-Going, listing-Fits, getting-Fits, acking_whole, Valid, Inv, open_sends,
  finish-Inv, fail-Inv, end-Inv,
}

part-listing : (state : State) (e : ℕ) → is_waiting_count state ≡ true → part state e ≡ listing
part-listing idle e h = ground arith
part-listing waiting_request e h = ground arith
part-listing sending_item e h = ground arith
part-listing waiting_count e h = refl
part-listing waiting_item e h = ground arith
part-listing sending_ack e h = ground arith
part-listing waiting_ack e h = ground arith
part-listing complete e h = ground arith
part-listing failed e h = ground arith

part-getting : (state : State) (e : ℕ) → is_waiting_item state ≡ true → part state e ≡ getting e
part-getting idle e h = ground arith
part-getting waiting_request e h = ground arith
part-getting sending_item e h = ground arith
part-getting waiting_count e h = ground arith
part-getting waiting_item e h = refl
part-getting sending_ack e h = ground arith
part-getting waiting_ack e h = ground arith
part-getting complete e h = ground arith
part-getting failed e h = ground arith

list-Timed : (p : Part) → Timed p (some request_list) → p ≡ listing
list-Timed listing t = refl
list-Timed (getting n) t = absurd t
list-Timed acking t = absurd t
list-Timed elsewhere t = absurd t

item-Timed : (p : Part) (seq : ℕ) → Timed p (some (request_item seq)) → p ≡ getting seq
item-Timed (getting n) seq t = ap getting (sym t)
item-Timed listing seq t = absurd t
item-Timed acking seq t = absurd t
item-Timed elsewhere seq t = absurd t

module _ {I : Type 0} where
  -- The sends end in order and the timer fires only when none is under way.
  abbrev pub prompt : Download I → List (Event I) → Bool
  prompt d [] = true
  prompt d (timer_fires ∷ evs) = is_empty d.base.pending && prompt (step d timer_fires) evs
  prompt d (send_ends n sent_ok ∷ evs) = n == 0 && prompt (step d (send_ends n sent_ok)) evs
  prompt d (arrives m ∷ evs) = prompt (step d (arrives m)) evs
  prompt d (aborts ∷ evs) = prompt (step d aborts) evs

  -- What is sent in a part, from any download.
  post-Inv :
      (state : State) (timer : Option Act) (count expected : ℕ) (items : List (Item I))
      (d : Download I)
      → All IsWhole d.base.answers
      → (d.base.settled ≡ false → InOrder 0 items)
      → (d.base.settled ≡ false
          → Phase (part state expected) count (length items)
            × All (Fits (part state expected)) d.base.pending)
      → Valid d.base.settled state count items expected timer
          (d.base.pending ++ (current (part state expected) ∷ []))
          d.base.answers
  post-Inv state timer count expected items d w o g = record {
    whole = w;
    in_order = o;
    going = λ off.
        send-Going (part state expected) count (length items) timer d.base.pending (g off).0
          (g off).1;
  }

  act-Inv :
      (a : Act) (retries : ℕ) (d : Download I)
      → d.base.settled ≡ false
      → Timed (part d.base.state d.expected_seq) (some a)
      → Inv d
      → Inv (act (some a) (record d { base = record (d.base) { timer = none; retries = retries } }))
  act-Inv request_list retries d off t v =
      post-Inv waiting_count none d.count d.expected_seq d.items d v.whole v.in_order (λ _.
        let g =
          subst (λ q. Going q d.count (length d.items) d.base.timer d.base.pending) (list-Timed _ t)
            (v.going off) in
        (g.phase, g.fits))
  act-Inv (request_item seq) retries d off t v =
      post-Inv waiting_item none d.count seq d.items d v.whole v.in_order (λ _.
        let g =
          subst (λ q. Going q d.count (length d.items) d.base.timer d.base.pending)
            (item-Timed _ seq t) (v.going off) in
        (g.phase, g.fits))

  fire-Inv :
      (o : Option Act) (d : Download I)
      → d.base.timer ≡ o
      → is_empty d.base.pending ≡ true
      → Inv d
      → Inv (
          let (a, b) = fire d.config.max_retries o (record (d.base) { timer = none }) in
          act a (record d { base = b }))
  fire-Inv none d e q v = record {
    whole = v.whole;
    in_order = v.in_order;
    going = λ off.
        let g = v.going off in
        record { phase = g.phase; lasts = g.lasts; fits = g.fits; timed = λ _. tt };
  }
  fire-Inv (some a) d e q v =
      let P : Option Act × Base Act Cont Msg (Mission I) → Type 0 =
        λ r. Inv (act r.0 (record d { base = r.1 })) in
      if_cases {A = Option Act × Base Act Cont Msg (Mission I)} P d.base.settled
        (λ on. record {
          whole = v.whole;
          in_order = λ off. ground arith;
          going = λ off. ground arith;
        })
        (λ off.
          if_cases {A = Option Act × Base Act Cont Msg (Mission I)} P
            (leb d.config.max_retries d.base.retries)
            (λ spent. fail-Inv _ (record d { base = record (d.base) { timer = none } }) v.whole)
            (λ more.
              act-Inv a (suc d.base.retries) d off
                (subst (Timed (part d.base.state d.expected_seq)) e ((v.going off).timed q)) v))

  follow-Inv :
      (sent_ok : Bool) (ks : List Cont) (d : Download I)
      → d.base.pending ≡ ks
      → Inv d
      → Inv (
          let sends = take_send 0 ks in
          let (k, b) = follow (goes_on sends sent_ok) sends d.base in
          continue k (record d { base = b }))
  follow-Inv sent_ok [] d e v = v
  follow-Inv true (list_sent ∷ ks) d e v = end-Inv list_sent ks d e v
  follow-Inv true (item_sent seq ∷ ks) d e v = end-Inv (item_sent seq) ks d e v
  follow-Inv false (list_sent ∷ ks) d e v =
      fail-Inv _ (record d { base = record (d.base) { pending = ks } }) v.whole
  follow-Inv false (item_sent seq ∷ ks) d e v =
      fail-Inv _ (record d { base = record (d.base) { pending = ks } }) v.whole
  follow-Inv sent_ok (ack_sent ∷ ks) d e v =
      finish-Inv complete (done (record { count = d.count; items = d.items }))
        (record d { base = record (d.base) { pending = ks } }) v.whole
        (λ off. (
          v.in_order off,
          acking_whole (part d.base.state d.expected_seq) d.count (length d.items) d.base.timer ks
              (open_sends d (ack_sent ∷ ks) e v off),
        ))

  ack-Inv : (result : ℕ) (d : Download I) → Inv d → Inv (on_ack result d)
  ack-Inv result d v =
      if_cases {A = Download I} Inv (result == d.config.mission_accepted) (λ same. v)
        (λ other. fail-Inv _ (record d { base = record (d.base) { timer = none } }) v.whole)

  counting :
      (d : Download I)
      → is_waiting_count d.base.state ≡ true
      → Inv d
      → d.base.settled ≡ false
      → Going listing d.count (length d.items) d.base.timer d.base.pending
  counting d w v off =
      subst (λ q. Going q d.count (length d.items) d.base.timer d.base.pending)
        (part-listing d.base.state d.expected_seq w) (v.going off)

  awaiting :
      (d : Download I)
      → is_waiting_item d.base.state ≡ true
      → Inv d
      → d.base.settled ≡ false
      → Going (getting d.expected_seq) d.count (length d.items) d.base.timer d.base.pending
  awaiting d w v off =
      subst (λ q. Going q d.count (length d.items) d.base.timer d.base.pending)
        (part-getting d.base.state d.expected_seq w) (v.going off)

  count-Inv :
      (n : ℕ) (d : Download I) → is_waiting_count d.base.state ≡ true → Inv d → Inv (on_count n d)
  count-Inv n d w v =
      if_cases {A = Download I} Inv (n == 0)
        (λ none_there.
          post-Inv sending_ack none n d.expected_seq d.items d v.whole v.in_order (λ off.
            let g = counting d w v off in
            (ground (arith, g.phase), All-map _ _ (listing-Fits acking) d.base.pending g.fits)))
        (λ some_there. post-Inv waiting_item none n 0 d.items d v.whole v.in_order (λ off.
          let g = counting d w v off in
          (
            (omega (arith, g.phase), ground arith),
            All-map _ _ (listing-Fits (getting 0)) d.base.pending g.fits,
          )))

  item-Inv :
      (m : Payload I) (d : Download I)
      → is_waiting_item d.base.state ≡ true
      → Inv d
      → Inv (on_item m d)
  item-Inv m d w v =
      if_cases {A = Download I} Inv (not (m.seq == d.expected_seq)) (λ other. v)
        (λ same.
          let next_in_order : d.base.settled ≡ false
              → InOrder 0 (d.items ++ (extract_item m ∷ [])) =
            λ off.
              InOrder-snoc 0 d.items (extract_item m) (v.in_order off)
                (ground (arith, (awaiting d w v off).phase)) in
          if_cases {A = Download I} Inv (leb d.count (suc m.seq))
            (λ all_there.
              post-Inv sending_ack none d.count d.expected_seq (d.items ++ (extract_item m ∷ [])) d
                v.whole (λ off. next_in_order off)
                (λ off.
                  let g = awaiting d w v off in
                  (
                    ground (arith, g.phase, length-append d.items (extract_item m ∷ [])),
                    All-map _ _ (getting-Fits d.expected_seq acking) d.base.pending g.fits,
                  )))
            (λ more.
              post-Inv waiting_item none d.count (suc m.seq) (d.items ++ (extract_item m ∷ [])) d
                v.whole (λ off. next_in_order off)
                (λ off.
                  let g = awaiting d w v off in
                  (
                    (
                      ground (arith, g.phase, length-append d.items (extract_item m ∷ [])),
                      ground (arith, g.phase),
                    ),
                    All-map _ _ (getting-Fits d.expected_seq (getting (suc m.seq))) d.base.pending
                        g.fits,
                  ))))

  named-Inv : (name : Name) (m : Payload I) (d : Download I) → Inv d → Inv (on_named name m d)
  named-Inv mission_ack m d v = ack-Inv m.result d v
  named-Inv mission_count m d v =
      if_cases {A = Download I} Inv (is_waiting_count d.base.state) (λ w. count-Inv m.count d w v)
        (λ w. v)
  named-Inv mission_item m d v =
      if_cases {A = Download I} Inv (is_waiting_item d.base.state) (λ w. item-Inv m d w v) (λ w. v)
  named-Inv mission_item_int m d v =
      if_cases {A = Download I} Inv (is_waiting_item d.base.state) (λ w. item-Inv m d w v) (λ w. v)
  named-Inv mission_request m d v = v
  named-Inv mission_request_int m d v = v

  screened-Inv : (q : Screened) (m : Payload I) (d : Download I) → Inv d → Inv (on_screened q m d)
  screened-Inv foreign m d v = v
  screened-Inv too_old m d v = fail-Inv _ d v.whole
  screened-Inv ours m d v = named-Inv m.name m d v

  run-Inv : (d : Download I) (evs : List (Event I)) → prompt d evs ≡ true → Inv d → Inv (run d evs)
  unfolding run step on_message on_timeout
  run-Inv d [] h v = v
  run-Inv d (timer_fires ∷ evs) h v =
      run-Inv (step d timer_fires) evs (ground arith)
        (fire-Inv d.base.timer d refl (ground arith) v)
  run-Inv d (send_ends zero sent_ok ∷ evs) h v =
      run-Inv (step d (send_ends 0 sent_ok)) evs (ground arith)
        (follow-Inv sent_ok d.base.pending d refl v)
  run-Inv d (send_ends (suc n) sent_ok ∷ evs) h v = ground arith
  run-Inv d (arrives m ∷ evs) h v = run-Inv (step d (arrives m)) evs h (
      if_cases {A = Download I} Inv (is_empty d.base.subs) (λ e. v)
        (λ e. screened-Inv (screen d.config m) m d v))
  run-Inv d (aborts ∷ evs) h v = run-Inv (step d aborts) evs h (fail-Inv _ d v.whole)

  start-Inv :
      (c : Config) (link_subs : List ℕ) (next_sub : ℕ)
      → Inv {I = I} (start (new_download c link_subs next_sub))
  unfolding start
  start-Inv c link_subs next_sub =
      let d : Download I = new_download c link_subs next_sub in
      if_cases {A = Download I} Inv (c.mission_type == c.mission_type_all)
        (λ e. fail-Inv bad_mission_type d tt)
        (λ e.
          if_cases {A = Download I} Inv (ltb 255 c.target_system) (λ k. fail-Inv bad_filter d tt)
            (λ k. post-Inv waiting_count none 0 0 [] d tt (λ _. tt) (λ _. (refl, tt))))

  -- After run() and any events in which the sends end in order and the timer never fires while one
  -- is under way: a download that succeeds has as many items as a MISSION_COUNT of the vehicle
  -- that arrived announces, numbered 0, 1, 2, ..., and each is one that the vehicle sent.
  pub download-InOrder :
      (c : Config) (link_subs : List ℕ) (next_sub : ℕ) (evs : List (Event I)) (r : Mission I)
      → prompt (start (new_download c link_subs next_sub)) evs ≡ true
      → (run (start (new_download c link_subs next_sub)) evs).base.answers ≡ done r ∷ []
      → InOrder 0 r.items
        × (length r.items ≡ r.count)
        × Announced c (λ m. Arrived m evs) r.count
        × All (Delivered c (λ m. Arrived m evs)) r.items
  download-InOrder c link_subs next_sub evs r h e =
      let v = run-Inv _ evs h (start-Inv c link_subs next_sub) in
      let w = (subst (All IsWhole) e v.whole).0 in
      let t = (subst (All (Told c _)) e (answers-Told c link_subs next_sub evs)).0 in
      (w.0, w.1, t.0, t.1)
