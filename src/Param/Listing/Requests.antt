-- ===== src/Param/Listing/Requests.antt =====
-- How many messages ParamList (lib/param/param-workflow.js) sends, and that it settles once.
use node_red_contrib_mavlink.Common.{
  ltb, ℕ, suc, ◌+◌, ◌-◌, ◌*◌, ◌≤◌, ◌<◌, ◌≡◌, refl, sym, ◌∙◌, subst, Bool, true, false, not, Option,
  none, some, List, [], ◌∷◌, arith, leb, ◌==◌, length, if◌then◌else◌, if_cases, if-false, is_empty,
  nat_eq,
}
use node_red_contrib_mavlink.JsMap.{has, set, size}
use node_red_contrib_mavlink.JsMap.Laws.{length-set}
use node_red_contrib_mavlink.Workflow.{finish, clear_timeout, follow_or, fire_or}
use node_red_contrib_mavlink.Param.{
  Config, Value, Event, send_ends, timer_fires, arrives, learns, aborts, Floats, Act, again, Cont,
  requested, is_ours, State, complete, failed, Base, Answer, failed_with, fail, timed_out, continue,
  send_failed, aborted, requesting, receiving,
}
use node_red_contrib_mavlink.Param.Listing.{
  Listing, Params, Request, param_index_none, start, step, run, on_value, request_missing, on_stall,
  receive, act, is_full, request, request_list, request_index,
}

module _ {X : Type 0} (fl : Floats X) (limit : ℕ) where
  record Few (max_retries retries received sent answers : ℕ) (settled : Bool) : Type 0 where
    same_limit : max_retries ≡ limit
    retried : retries ≤ max_retries
    bounded : sent + (max_retries - retries) ≤ (max_retries + 1) * (1 + received)
    answered : answers ≡ (if settled then 1 else 0)

  abbrev Inv : Listing X → Type 0
  Inv d =
      Few d.config.max_retries d.base.retries (length d.received) (length d.base.sent)
        (length d.base.answers) d.base.settled

  finish-Inv :
      (state : State) (a : Answer (Params X)) (d : Listing X)
      → Inv d
      → Inv (record d { base = finish state a d.base })
  unfolding finish
  finish-Inv state a d w =
      if_cases {A = Base Request (Params X)} (λ b. Inv (record d { base = b })) d.base.settled
        (λ on. w)
        (λ off. record {
          same_limit = w.same_limit;
          retried = w.retried;
          bounded = w.bounded;
          answered = ground (arith, w.answered);
        })

  -- A retry that is counted, with its message.
  request-Inv :
      (state : State) (q : Request) (d : Listing X)
      → d.base.retries < d.config.max_retries
      → Inv d
      → Inv (request state q (record d { base = record (d.base) { retries = suc d.base.retries } }))
  request-Inv state q d more w = record {
    same_limit = w.same_limit;
    retried = more;
    bounded = omega (arith, w.bounded, more);
    answered = w.answered;
  }

  retry-Inv :
      (d : Listing X)
      → d.base.retries < d.config.max_retries
      → Inv d
      → Inv (record d { base = record (d.base) { retries = suc d.base.retries } })
  retry-Inv d more w = record {
    same_limit = w.same_limit;
    retried = more;
    bounded = omega (arith, w.bounded);
    answered = w.answered;
  }

  request_missing-Inv :
      (o : Option ℕ) (d : Listing X)
      → d.base.retries < d.config.max_retries
      → Inv d
      → Inv (
          request_missing fl o
            (record d { base = record (d.base) { retries = suc d.base.retries } }))
  request_missing-Inv none d more w =
      finish-Inv complete _ (record d { base = record (d.base) { retries = suc d.base.retries } })
        (retry-Inv d more w)
  request_missing-Inv (some i) d more w = request-Inv receiving (request_index i) d more w

  on_stall-Inv :
      (o : Option ℕ) (d : Listing X)
      → d.base.retries < d.config.max_retries
      → Inv d
      → Inv (on_stall fl o (record d { base = record (d.base) { retries = suc d.base.retries } }))
  on_stall-Inv none d more w = request-Inv requesting request_list d more w
  on_stall-Inv (some count) d more w = request_missing-Inv _ d more w

  new_key :
      (m : List (ℕ × Value X)) (v : Value X)
      → has m v.index ≡ false
      → length (set m v.index v) ≡ suc (length m)
  new_key m v e = length-set m v.index v ∙ if-false (has m v.index) _ _ e

  -- A new entry gives all retries back.
  more_room :
      (sent limit retries n k : ℕ)
      → k ≡ suc n
      → retries ≤ limit
      → sent + (limit - retries) ≤ (limit + 1) * (1 + n)
      → sent + (limit - 0) ≤ (limit + 1) * (1 + k)
  more_room sent limit retries n k e r h =
      subst (λ j. sent + (limit - 0) ≤ (limit + 1) * (1 + j)) (sym e) (omega (arith, r, h))

  receive-Inv : (v : Value X) (d : Listing X) → Inv d → Inv (receive v d)
  receive-Inv v d w =
      if_cases Inv (has d.received v.index) (λ e. w)
        (λ e. record {
          same_limit = w.same_limit;
          retried = omega arith;
          bounded =
              more_room (length d.base.sent) d.config.max_retries d.base.retries _ _
                (new_key d.received v e) w.retried w.bounded;
          answered = w.answered;
        })

  value-Inv : (v : Value X) (d : Listing X) → Inv d → Inv (on_value fl v d)
  unfolding on_value
  value-Inv v d w =
      if_cases Inv (not (is_ours d.config v)) (λ e. w)
        (λ e.
          if_cases Inv (v.index == param_index_none) (λ f. w)
            (λ f.
              let x = record d { count = some v.param_count } in
              if_cases Inv (is_full (receive v x).count (size (receive v x).received))
                (λ full. finish-Inv complete _ (receive v x) (receive-Inv v x w))
                (λ more. receive-Inv v x w)))

  follow-Inv :
      (o : Option (Cont × List Cont)) (sent_ok : Bool) (d : Listing X)
      → Inv d
      → Inv (record d { base = continue (follow_or (fail send_failed) sent_ok o d.base) })
  follow-Inv none sent_ok d w = w
  follow-Inv (some (requested, ks)) true d w = w
  follow-Inv (some (k, ks)) false d w =
      finish-Inv failed _ (record d { base = record (d.base) { pending = ks } }) w

  fire-Inv :
      (o : Option Act) (d : Listing X)
      → Inv d
      → Inv (act fl (fire_or (fail timed_out) d.config.max_retries o (clear_timeout d.base)) d)
  fire-Inv none d w = w
  fire-Inv (some again) d w =
      if_cases {A = Option Act × Base Request (Params X)} (λ r. Inv (act fl r d)) d.base.settled
        (λ on. w)
        (λ off.
          if_cases {A = Option Act × Base Request (Params X)} (λ r. Inv (act fl r d))
            (leb d.config.max_retries d.base.retries)
            (λ spent. finish-Inv failed _ (record d { base = clear_timeout d.base }) w)
            (λ more.
              on_stall-Inv d.count (record d { base = clear_timeout d.base }) (ground (arith, more))
                w))

  step-Inv : (d : Listing X) (ev : Event X) → Inv d → Inv (step fl d ev)
  unfolding step
  step-Inv d (send_ends i sent_ok) w = follow-Inv _ sent_ok d w
  step-Inv d timer_fires w = fire-Inv d.base.timer d w
  step-Inv d (arrives v) w = if_cases Inv (is_empty d.base.subs) (λ e. w) (λ e. value-Inv v d w)
  step-Inv d (learns bytewise) w = w
  step-Inv d aborts w = finish-Inv failed (failed_with aborted) d w

  run-Inv : (d : Listing X) (evs : List (Event X)) → Inv d → Inv (run fl d evs)
  unfolding run
  run-Inv d [] w = w
  run-Inv d (ev ∷ evs) w = run-Inv (step fl d ev) evs (step-Inv d ev w)

module _ {X : Type 0} (fl : Floats X) where
  start-Inv :
      (c : Config) (bytewise : Bool) (link_subs : List ℕ) (next_sub : ℕ)
      → Inv fl c.max_retries (start c bytewise link_subs next_sub)
  unfolding start finish
  start-Inv c bytewise link_subs next_sub =
      if_cases (Inv fl c.max_retries) (ltb 255 c.target_system)
        (λ e. record {
          same_limit = refl;
          retried = omega arith;
          bounded = omega arith;
          answered = refl;
        })
        (λ e. record {
          same_limit = refl;
          retried = omega arith;
          bounded = omega arith;
          answered = refl;
        })

  -- After run() and any events: at most one answer, and at most maxRetries + 1 messages for each
  -- index that was received and as many before the first.
  pub requests_bounded :
      (c : Config) (bytewise : Bool) (link_subs : List ℕ) (next_sub : ℕ) (evs : List (Event X))
      → (length (run fl (start c bytewise link_subs next_sub) evs).base.sent
          ≤ (c.max_retries + 1)
            * (1 + length (run fl (start c bytewise link_subs next_sub) evs).received))
        × (length (run fl (start c bytewise link_subs next_sub) evs).base.answers ≤ 1)
  requests_bounded c bytewise link_subs next_sub evs =
      let w =
        run-Inv fl c.max_retries (start c bytewise link_subs next_sub) evs
          (start-Inv c bytewise link_subs next_sub) in
      let d = run fl (start c bytewise link_subs next_sub) evs in
      (
        subst (λ m. length d.base.sent ≤ (m + 1) * (1 + length d.received)) w.same_limit
            (omega (arith, w.bounded)),
        ground (arith, w.answered),
      )
