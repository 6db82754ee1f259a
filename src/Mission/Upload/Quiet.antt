-- ===== src/Mission/Upload/Quiet.antt =====
-- What events do to a settled upload of lib/mission/mission-upload.js.
use node_red_contrib_mavlink.Common.{
  ℕ, ◌≡◌, refl, Bool, true, false, Option, none, some, List, [], ◌∷◌, arith, if_cases, is_empty,
}
use node_red_contrib_mavlink.Workflow.{finish}
use node_red_contrib_mavlink.Mission.{Base, Answer, State, on_timeout, fire, follow, end_send}
use node_red_contrib_mavlink.Mission.Upload.{
  Act, Cont, Msg, Upload, act, continue, count_sent, item_sent, item_resent, Event, send_ends,
  timer_fires, arrives, aborts, step, run,
}
use node_red_contrib_mavlink.Mission.Upload.Valid.{Inv}

module _ {I : Type 0} where
  -- A settled upload: what has been sent and answered stays.
  pub record Quiet (sent : List (Msg I)) (answers : List (Answer ℕ)) (u : Upload I) : Type 0 where
    pub is_settled : u.base.settled ≡ true
    pub no_subs : u.base.subs ≡ []
    pub same_sent : u.base.sent ≡ sent
    pub same_answers : u.base.answers ≡ answers

  finish-Quiet :
      (sent : List (Msg I)) (answers : List (Answer ℕ)) (state : State) (a : Answer ℕ)
      (u : Upload I)
      → Quiet sent answers u
      → Quiet sent answers (record u { base = finish state a u.base })
  unfolding finish
  finish-Quiet sent answers state a u q =
      if_cases {A = Base Act Cont (Msg I) ℕ} (λ b. Quiet sent answers (record u { base = b }))
        u.base.settled (λ on. q) (λ off. ground (arith, q.is_settled))

  rearm-Quiet :
      (sent : List (Msg I)) (answers : List (Answer ℕ)) (state : State) (timer : Option Act)
      (pending : List Cont) (u : Upload I)
      → Quiet sent answers u
      → Quiet sent answers
          (record u { base = record (u.base) { state = state; timer = timer; pending = pending } })
  rearm-Quiet sent answers state timer pending u q = record {
    is_settled = q.is_settled;
    no_subs = q.no_subs;
    same_sent = q.same_sent;
    same_answers = q.same_answers;
  }

  continue-Quiet :
      (sent : List (Msg I)) (answers : List (Answer ℕ)) (k : Cont) (u : Upload I)
      → Quiet sent answers u
      → Quiet sent answers (continue (some k) u)
  continue-Quiet sent answers count_sent u q =
      rearm-Quiet sent answers u.base.state _ u.base.pending u q
  continue-Quiet sent answers (item_sent seq) u q = rearm-Quiet sent answers _ _ u.base.pending u q
  continue-Quiet sent answers (item_resent seq) u q =
      rearm-Quiet sent answers u.base.state _ u.base.pending u q

  follow-Quiet :
      (sent : List (Msg I)) (answers : List (Answer ℕ)) (sent_ok : Bool)
      (o : Option (Cont × List Cont)) (u : Upload I)
      → Quiet sent answers u
      → Quiet sent answers
          (let (k, b) = follow sent_ok o u.base in continue k (record u { base = b }))
  follow-Quiet sent answers sent_ok none u q = q
  follow-Quiet sent answers true (some (k, ks)) u q =
      continue-Quiet sent answers k _ (rearm-Quiet sent answers u.base.state u.base.timer ks u q)
  follow-Quiet sent answers false (some (k, ks)) u q =
      finish-Quiet sent answers _ _ (record u { base = record (u.base) { pending = ks } })
        (rearm-Quiet sent answers u.base.state u.base.timer ks u q)

  fire-Quiet :
      (sent : List (Msg I)) (answers : List (Answer ℕ)) (max_retries : ℕ) (o : Option Act)
      (u : Upload I)
      → Quiet sent answers u
      → Quiet sent answers (let (a, b) = fire max_retries o u.base in act a (record u { base = b }))
  fire-Quiet sent answers max_retries none u q = q
  fire-Quiet sent answers max_retries (some a) u q =
      if_cases {A = Option Act × Base Act Cont (Msg I) ℕ}
        (λ r. Quiet sent answers (act r.0 (record u { base = r.1 }))) u.base.settled (λ on. q)
        (λ off. ground (arith, q.is_settled))

  step-Quiet :
      (sent : List (Msg I)) (answers : List (Answer ℕ)) (u : Upload I) (ev : Event I)
      → Quiet sent answers u
      → Quiet sent answers (step u ev)
  unfolding step on_timeout end_send
  step-Quiet sent answers u (send_ends n sent_ok) q = follow-Quiet sent answers sent_ok _ u q
  step-Quiet sent answers u timer_fires q =
      fire-Quiet sent answers u.config.max_retries u.base.timer _
        (rearm-Quiet sent answers u.base.state none u.base.pending u q)
  step-Quiet sent answers u (arrives m) q =
      if_cases {A = Upload I} (Quiet sent answers) (is_empty u.base.subs) (λ e. q)
        (λ e. ground (arith, q.no_subs))
  step-Quiet sent answers u aborts q = finish-Quiet sent answers _ _ u q

  pub run-Quiet :
      (sent : List (Msg I)) (answers : List (Answer ℕ)) (u : Upload I) (evs : List (Event I))
      → Quiet sent answers u
      → Quiet sent answers (run u evs)
  unfolding run
  run-Quiet sent answers u [] q = q
  run-Quiet sent answers u (ev ∷ evs) q =
      run-Quiet sent answers (step u ev) evs (step-Quiet sent answers u ev q)

  pub Inv-Quiet :
      (items : List I) (limit : ℕ) (u : Upload I)
      → Inv items limit u
      → u.base.settled ≡ true
      → Quiet u.base.sent u.base.answers u
  Inv-Quiet items limit u v h = record {
    is_settled = h;
    no_subs = v.no_subs h;
    same_sent = refl;
    same_answers = refl;
  }
