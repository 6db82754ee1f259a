-- ===== src/Mission/Upload/Valid.antt =====
-- The invariant of lib/mission/mission-upload.js, and that every event keeps it.
use node_red_contrib_mavlink.Common.{
  ℕ, suc, ◌+◌, ◌-◌, ◌*◌, ◌≤◌, ◌<◌, max, ◌≡◌, inl, inr, refl, subst, Bool, true, false, ◌&&◌, Option,
  none, some, List, [], ◌∷◌, ◌++◌, arith, All, All-map, tally, get_elem?-length, Bool-cases, length,
  get_elem?, ltb, leb, ◌==◌, if◌then◌else◌, is_empty, if_cases,
}
use node_red_contrib_mavlink.Workflow.{finish, clear_timeout}
use node_red_contrib_mavlink.Mission.{
  Name, mission_request, mission_request_int, mission_ack, mission_count, mission_item,
  mission_item_int, Payload, Screened, foreign, too_old, ours, screen, Base, State, waiting_request,
  complete, Answer, done, failed_with, Failure, bad_seq, stalled, rejected, requires_mavlink2, fail,
  fire, on_timeout, follow, end_send,
}
use node_red_contrib_mavlink.Mission.Upload.{
  Act, send_count, resend_item, Cont, count_sent, item_sent, item_resent, Msg, count_msg, item_msg,
  Upload, count, or_use_int, resend, max_item_sends, on_request, too_early, on_ack, on_named,
  on_screened, on_message, act, continue, Event, send_ends, timer_fires, arrives, aborts, step, run,
}
use node_red_contrib_mavlink.Mission.Upload.Sent.{
  is_item, IsOurs, LastSent, IsHonest, Open, IsHonest-cons, Open-cons, reached_max,
}

module _ {I : Type 0} (mission : List I) (retry_limit : ℕ) where
  pub record Valid (items : List I) (max_retries sent_to item_sends retries : ℕ) (settled : Bool)
      (answers : List (Answer ℕ)) (sent : List (Msg I)) (subs : List ℕ) : Type 0 where
    pub answered_once : length answers ≡ (if settled then 1 else 0)
    pub no_subs : settled ≡ true → subs ≡ []
    pub same_items : items ≡ mission
    pub same_limit : max_retries ≡ retry_limit
    pub retried : retries ≤ max_retries
    -- How many requests were answered with an item.
    pub answered : ℕ
    pub ceiling : answered ≤ length items * (max_retries + 1)
    pub few : length sent + (max_retries - retries) ≤ (max_retries + 1) * (1 + answered)
    pub ours : All (IsOurs items) sent
    pub honest : All (IsHonest items sent) answers
    pub going_on : settled ≡ false → Open items max_retries sent_to item_sends sent answered

  abbrev pub Inv : Upload I → Type 0
  Inv u =
      Valid u.items u.config.max_retries u.sent_to u.item_sends u.base.retries u.base.settled
        u.base.answers u.base.sent u.base.subs

  finish-Inv :
      (state : State) (a : Answer ℕ) (u : Upload I)
      → (u.base.settled ≡ false → IsHonest u.items u.base.sent a)
      → Inv u
      → Inv (record u { base = finish state a u.base })
  unfolding finish
  finish-Inv state a u h v =
      if_cases {A = Base Act Cont (Msg I) ℕ} (λ b. Inv (record u { base = b })) u.base.settled
        (λ on. v)
        (λ off. record {
          answered_once = ground (arith, v.answered_once);
          no_subs = λ _. refl;
          same_items = v.same_items;
          same_limit = v.same_limit;
          retried = v.retried;
          answered = v.answered;
          ceiling = v.ceiling;
          few = v.few;
          ours = v.ours;
          honest = (h off, v.honest);
          going_on = λ (e : true ≡ false). ground arith;
        })

  pub fail-Inv : (f : Failure) (u : Upload I) → Inv u → Inv (record u { base = fail f u.base })
  fail-Inv f u v = finish-Inv _ (failed_with f) u (λ _. tt) v

  -- A retry that is counted, and one that sends something.
  retry-Inv :
      (u : Upload I)
      → u.base.settled ≡ false
      → u.base.retries < u.config.max_retries
      → Inv u
      → Inv (record u { base = record (u.base) { retries = suc u.base.retries } })
  retry-Inv u off more v = record {
    answered_once = v.answered_once;
    no_subs = v.no_subs;
    same_items = v.same_items;
    same_limit = v.same_limit;
    retried = more;
    answered = v.answered;
    ceiling = v.ceiling;
    few = omega (arith, v.few);
    ours = v.ours;
    honest = v.honest;
    going_on = v.going_on;
  }

  resend-Inv :
      (m : Msg I) (pending : List Cont) (state : State) (u : Upload I)
      → u.base.retries < u.config.max_retries
      → IsOurs u.items m
      → Inv u
      → Inv (record u {
        base = record (u.base) {
          retries = suc u.base.retries;
          sent = m ∷ u.base.sent;
          pending = pending;
          state = state;
        };
      })
  resend-Inv m pending state u more own v = record {
    answered_once = v.answered_once;
    no_subs = v.no_subs;
    same_items = v.same_items;
    same_limit = v.same_limit;
    retried = more;
    answered = v.answered;
    ceiling = v.ceiling;
    few = omega (arith, v.few, more);
    ours = (own, v.ours);
    honest = All-map _ _ (IsHonest-cons u.items u.base.sent m) u.base.answers v.honest;
    going_on =
        λ e. Open-cons u.items _ u.sent_to u.item_sends u.base.sent v.answered m (v.going_on e);
  }

  -- The counters do not matter once the workflow fails.
  fail_counted-Inv :
      (f : Failure) (o : Option Bool) (i k : ℕ) (u : Upload I)
      → u.base.settled ≡ false
      → Inv u
      → Inv (record u { item_use_int = o; sent_to = i; item_sends = k; base = fail f u.base })
  unfolding finish
  fail_counted-Inv f o i k u off v =
      if_cases {A = Base Act Cont (Msg I) ℕ}
        (λ b. Inv (record u { item_use_int = o; sent_to = i; item_sends = k; base = b }))
        u.base.settled (λ on. ground arith)
        (λ off. record {
          answered_once = ground (arith, v.answered_once);
          no_subs = λ _. refl;
          same_items = v.same_items;
          same_limit = v.same_limit;
          retried = v.retried;
          answered = v.answered;
          ceiling = v.ceiling;
          few = v.few;
          ours = v.ours;
          honest = (tt, v.honest);
          going_on = λ (e : true ≡ false). ground arith;
        })

  -- A request that is answered.
  request-Inv :
      (use_int : Bool) (seq : ℕ) (x : I) (u : Upload I)
      → get_elem? u.items seq ≡ some x
      → u.base.settled ≡ false
      → Inv u
      → Inv (on_request use_int seq (some x) u)
  request-Inv use_int seq x u e off v =
      if_cases {A = Upload I} Inv (ltb (max_item_sends u) (suc u.item_sends))
        (λ full.
          fail_counted-Inv stalled (some use_int) (max u.sent_to (suc seq)) (suc u.item_sends) u off
            v)
        (λ room. record {
          answered_once = v.answered_once;
          no_subs = v.no_subs;
          same_items = v.same_items;
          same_limit = v.same_limit;
          retried = omega arith;
          answered = suc v.answered;
          ceiling = ground (arith, (v.going_on off).counted);
          few = omega (arith, v.few, v.retried);
          ours = (e, v.ours);
          honest =
              All-map _ _ (IsHonest-cons u.items u.base.sent (item_msg use_int seq x))
                u.base.answers v.honest;
          going_on = λ _. record {
            counted = omega (arith, (v.going_on off).counted);
            reached = λ _.
                reached_max u.items u.sent_to seq use_int x u.base.sent
                  (get_elem?-length u.items seq x e) (v.going_on off).reached;
          };
        })

  requested-Inv :
      (use_int : Bool) (seq : ℕ) (o : Option I) (u : Upload I)
      → get_elem? u.items seq ≡ o
      → u.base.settled ≡ false
      → Inv u
      → Inv (on_request use_int seq o u)
  requested-Inv use_int seq none u e off v = fail-Inv (bad_seq seq) u v
  requested-Inv use_int seq (some x) u e off v = request-Inv use_int seq x u e off v

  resend_item-Inv :
      (seq : ℕ) (o : Option I) (u : Upload I)
      → get_elem? u.items seq ≡ o
      → u.base.settled ≡ false
      → u.base.retries < u.config.max_retries
      → Inv u
      → Inv (resend seq o (record u { base = record (u.base) { retries = suc u.base.retries } }))
  resend_item-Inv seq none u e off more v = retry-Inv u off more v
  resend_item-Inv seq (some x) u e off more v =
      resend-Inv (item_msg (or_use_int u u.item_use_int) seq x)
        (u.base.pending ++ (item_resent seq ∷ [])) u.base.state u more e v

  last_sent :
      (u : Upload I)
      → too_early u ≡ false
      → (0 < u.sent_to
          → (u.sent_to ≤ length u.items) × (0 < tally (is_item (u.sent_to - 1)) u.base.sent))
      → LastSent u.items u.base.sent
  last_sent u late reached = elim (Bool-cases (ltb 0 (length u.items))) [
    | inl some_item ↦ inr (
        subst (λ n. 0 < tally (is_item (n - 1)) u.base.sent) {x = u.sent_to}
          (ground (arith, (reached (ground arith)).0)) (reached (ground arith)).1)
    | inr no_item ↦ inl (ground arith)
  ]

  ack-Inv : (result : ℕ) (u : Upload I) → u.base.settled ≡ false → Inv u → Inv (on_ack result u)
  ack-Inv result u off v =
      if_cases {A = Upload I} Inv ((result == u.config.mission_accepted) && too_early u)
        (λ early. v)
        (λ late.
          if_cases {A = Upload I} Inv (result == u.config.mission_accepted)
            (λ yes_result.
              finish-Inv complete (done (count u)) (record u { base = clear_timeout u.base })
                (λ _. (refl, last_sent u (ground arith) (v.going_on off).reached)) v)
            (λ other. fail-Inv (rejected result) (record u { base = clear_timeout u.base }) v))

  named-Inv :
      (name : Name) (m : Payload I) (u : Upload I)
      → u.base.settled ≡ false
      → Inv u
      → Inv (on_named name m u)
  named-Inv mission_request m u off v =
      requested-Inv false m.seq (get_elem? u.items m.seq) u refl off v
  named-Inv mission_request_int m u off v =
      requested-Inv true m.seq (get_elem? u.items m.seq) u refl off v
  named-Inv mission_ack m u off v = ack-Inv m.result u off v
  named-Inv mission_count m u off v = v
  named-Inv mission_item m u off v = v
  named-Inv mission_item_int m u off v = v

  screened-Inv :
      (q : Screened) (m : Payload I) (u : Upload I)
      → u.base.settled ≡ false
      → Inv u
      → Inv (on_screened q m u)
  screened-Inv foreign m u off v = v
  screened-Inv too_old m u off v = fail-Inv requires_mavlink2 u v
  screened-Inv ours m u off v = named-Inv m.name m u off v

  -- A message arrives only while there is a subscription, so the workflow is open.
  subscribed_open : (u : Upload I) → Inv u → is_empty u.base.subs ≡ false → u.base.settled ≡ false
  subscribed_open u v h = ground (arith, v.no_subs)

  act-Inv :
      (a : Act) (u : Upload I)
      → u.base.settled ≡ false
      → u.base.retries < u.config.max_retries
      → Inv u
      → Inv (act (some a) (record u { base = record (u.base) { retries = suc u.base.retries } }))
  act-Inv send_count u off more v =
      resend-Inv (count_msg (count u)) (u.base.pending ++ (count_sent ∷ [])) waiting_request u more
        refl v
  act-Inv (resend_item seq) u off more v =
      resend_item-Inv seq (get_elem? u.items seq) u refl off more v

  fire-Inv :
      (o : Option Act) (u : Upload I)
      → Inv u
      → Inv (let (a, b) = fire u.config.max_retries o u.base in act a (record u { base = b }))
  fire-Inv none u v = v
  fire-Inv (some a) u v =
      if_cases {A = Option Act × Base Act Cont (Msg I) ℕ}
        (λ r. Inv (act r.0 (record u { base = r.1 }))) u.base.settled (λ on. v)
        (λ off.
          if_cases {A = Option Act × Base Act Cont (Msg I) ℕ}
            (λ r. Inv (act r.0 (record u { base = r.1 }))) (leb u.config.max_retries u.base.retries)
            (λ spent. fail-Inv _ u v) (λ more. act-Inv a u off (ground arith) v))

  continue-Inv : (k : Cont) (u : Upload I) → Inv u → Inv (continue (some k) u)
  continue-Inv count_sent u v = v
  continue-Inv (item_sent seq) u v = v
  continue-Inv (item_resent seq) u v = v

  follow-Inv :
      (sent_ok : Bool) (o : Option (Cont × List Cont)) (u : Upload I)
      → Inv u
      → Inv (let (k, b) = follow sent_ok o u.base in continue k (record u { base = b }))
  follow-Inv sent_ok none u v = v
  follow-Inv true (some (k, ks)) u v =
      continue-Inv k (record u { base = record (u.base) { pending = ks } }) v
  follow-Inv false (some (k, ks)) u v =
      fail-Inv _ (record u { base = record (u.base) { pending = ks } }) v

  step-Inv : (u : Upload I) (ev : Event I) → Inv u → Inv (step u ev)
  unfolding step on_message on_timeout end_send
  step-Inv u (send_ends n sent_ok) v = follow-Inv sent_ok _ u v
  step-Inv u timer_fires v = fire-Inv u.base.timer (record u { base = clear_timeout u.base }) v
  step-Inv u (arrives m) v =
      if_cases {A = Upload I} Inv (is_empty u.base.subs) (λ e. v)
        (λ e. screened-Inv (screen u.config m) m u (subscribed_open u v e) v)
  step-Inv u aborts v = fail-Inv _ u v

  pub run-Inv : (u : Upload I) (evs : List (Event I)) → Inv u → Inv (run u evs)
  unfolding run
  run-Inv u [] v = v
  run-Inv u (ev ∷ evs) v = run-Inv (step u ev) evs (step-Inv u ev v)
