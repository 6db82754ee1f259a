-- ===== src/Mission/Clear/Accepted.antt =====
-- What a clear of lib/mission/mission-clear.js answers.
use node_red_contrib_mavlink.Common.{
  ℕ, ◌≡◌, ◌⊎◌, inl, inr, refl, sym, ap, ◌∙◌, subst, Bool, true, false, not, ◌||◌, Option, none,
  some, List, [], ◌∷◌, arith, leb, ltb, ◌==◌, All, All-map, if_cases, is_empty,
}
use node_red_contrib_mavlink.Workflow.{new, finish, clear_timeout, take_send}
use node_red_contrib_mavlink.Mission.{
  Config, Name, mission_request, mission_request_int, mission_ack, mission_count, mission_item,
  mission_item_int, idle, Payload, Screened, foreign, too_old, ours, screen, Base, State, complete,
  failed, Answer, done, failed_with, fire, follow, on_timeout, end_send,
}
use node_red_contrib_mavlink.Mission.Sender.{Genuine, screen-Genuine}
use node_red_contrib_mavlink.Mission.Clear.{
  Act, send_clear, Cont, clear_sent, Msg, Clear, Event, send_ends, timer_fires, arrives, aborts,
  start, settle_ack, act, continue, is_ack, on_screened, on_ack, step, run,
}

abbrev pub Arrived : {I : Type 0} → Payload I → List (Event I) → Type 0
Arrived m [] = ⊥
Arrived m (arrives n ∷ evs) = (n ≡ m) ⊎ Arrived m evs
Arrived m (send_ends n sent_ok ∷ evs) = Arrived m evs
Arrived m (timer_fires ∷ evs) = Arrived m evs
Arrived m (aborts ∷ evs) = Arrived m evs

ack_name : (n : Name) → is_ack n ≡ true → n ≡ mission_ack
ack_name mission_ack h = refl
ack_name mission_request h = ground (arith, h)
ack_name mission_request_int h = ground (arith, h)
ack_name mission_count h = ground (arith, h)
ack_name mission_item h = ground (arith, h)
ack_name mission_item_int h = ground (arith, h)

subscribed : (b a : Bool) → (b || not a) ≡ false → a ≡ true
subscribed b a h = ground (arith, h)

same_result : (i j : ℕ) → (i == j) ≡ true → i ≡ j
same_result i j h = ground (arith, h)

module _ {I : Type 0} (c : Config) where
  -- A MISSION_ACK with the accepting code from the vehicle, to us and for our mission type.
  abbrev pub Acceptance : (Payload I → Type 0) → Type 0
  Acceptance P =
      (m : Payload I) × P m × (m.name ≡ mission_ack) × Genuine c m × (m.result ≡ c.mission_accepted)

  module _ (P : Payload I → Type 0) where
    abbrev Heard : Answer ℕ → Type 0
    Heard (done r) = (r ≡ c.mission_accepted) × Acceptance P
    Heard (failed_with f) = Unit

    record Fair (config : Config) (answers : List (Answer ℕ)) : Type 0 where
      same_config : config ≡ c
      heard : All Heard answers

    abbrev Inv : Clear → Type 0
    Inv d = Fair d.config d.base.answers

    finish-Inv :
        (state : State) (a : Answer ℕ) (d : Clear)
        → Heard a
        → Inv d
        → Inv (record d { base = finish state a d.base })
    unfolding finish
    finish-Inv state a d h w =
        if_cases {A = Base Act Cont Msg ℕ} (λ b. Inv (record d { base = b })) d.base.settled
          (λ on. w) (λ off. record { same_config = w.same_config; heard = (h, w.heard) })

    fire-Inv :
        (o : Option Act) (d : Clear)
        → Inv d
        → Inv (act (fire d.config.max_retries o (clear_timeout d.base)) d)
    fire-Inv none d w = w
    fire-Inv (some send_clear) d w =
        if_cases {A = Option Act × Base Act Cont Msg ℕ} (λ r. Inv (act r d)) d.base.settled
          (λ on. w)
          (λ off.
            if_cases {A = Option Act × Base Act Cont Msg ℕ} (λ r. Inv (act r d))
              (leb d.config.max_retries d.base.retries)
              (λ spent. finish-Inv failed _ (record d { base = clear_timeout d.base }) tt w)
              (λ more. w))

    follow-Inv :
        (o : Option (Cont × List Cont)) (sent_ok : Bool) (d : Clear)
        → Inv d
        → Inv (continue (follow sent_ok o d.base) d)
    follow-Inv none sent_ok d w = w
    follow-Inv (some (clear_sent, ks)) true d w = w
    follow-Inv (some (k, ks)) false d w =
        finish-Inv failed _ (record d { base = record (d.base) { pending = ks } }) tt w

    settle-Inv :
        (m : Payload I) (d : Clear)
        → P m
        → m.name ≡ mission_ack
        → screen c m ≡ ours
        → Inv d
        → Inv (settle_ack m.result d)
    settle-Inv m d p n e w =
        if_cases Inv (m.result == d.config.mission_accepted)
          (λ yes_result.
            let same =
              same_result m.result d.config.mission_accepted yes_result
              ∙ ap (λ k. k.mission_accepted) w.same_config in
            finish-Inv complete _ (record d { base = clear_timeout d.base })
              (same, (m, p, n, screen-Genuine c m e, same)) w)
          (λ other. finish-Inv failed _ (record d { base = clear_timeout d.base }) tt w)

    screened-Inv :
        (q : Screened) (m : Payload I) (d : Clear)
        → P m
        → m.name ≡ mission_ack
        → screen d.config m ≡ q
        → Inv d
        → Inv (on_screened q m.result d)
    screened-Inv foreign m d p n e w = w
    screened-Inv too_old m d p n e w = finish-Inv failed _ d tt w
    screened-Inv ours m d p n e w =
        settle-Inv m d p n (ap (λ k. screen k m) (sym w.same_config) ∙ e) w

    abbrev IsFrom : Event I → Type 0
    IsFrom (arrives m) = P m
    IsFrom (send_ends n sent_ok) = Unit
    IsFrom timer_fires = Unit
    IsFrom aborts = Unit

    step-Inv : (d : Clear) (ev : Event I) → IsFrom ev → Inv d → Inv (step d ev)
    unfolding step on_ack on_timeout end_send
    step-Inv d (send_ends n sent_ok) p w = follow-Inv (take_send n d.base.pending) sent_ok d w
    step-Inv d timer_fires p w = fire-Inv d.base.timer d w
    step-Inv d (arrives m) p w =
        if_cases Inv (is_empty d.base.subs || not (is_ack m.name)) (λ e. w)
          (λ e.
            screened-Inv (screen d.config m) m d p
              (ack_name m.name (subscribed (is_empty d.base.subs) (is_ack m.name) e)) refl w)
    step-Inv d aborts p w = finish-Inv failed _ d tt w

    run-Inv : (d : Clear) (evs : List (Event I)) → All IsFrom evs → Inv d → Inv (run d evs)
    unfolding run
    run-Inv d [] h w = w
    run-Inv d (ev ∷ evs) h w = run-Inv (step d ev) evs h.1 (step-Inv d ev h.0 w)

    start-Inv : (link_subs : List ℕ) (next_sub : ℕ) → Inv (start c link_subs next_sub)
    unfolding start
    start-Inv link_subs next_sub =
        if_cases Inv (ltb 255 c.target_system)
          (λ e.
            finish-Inv failed _ (record { config = c; base = new idle link_subs next_sub }) tt
              (record { same_config = refl; heard = tt }))
          (λ e. record { same_config = refl; heard = tt })

  IsFrom-later :
      (ev e : Event I) (evs : List (Event I))
      → IsFrom (λ m. Arrived m evs) e
      → IsFrom (λ m. Arrived m (ev ∷ evs)) e
  IsFrom-later (arrives n) (arrives m) evs h = inr h
  IsFrom-later (send_ends n sent_ok) (arrives m) evs h = h
  IsFrom-later timer_fires (arrives m) evs h = h
  IsFrom-later aborts (arrives m) evs h = h
  IsFrom-later ev (send_ends n sent_ok) evs h = tt
  IsFrom-later ev timer_fires evs h = tt
  IsFrom-later ev aborts evs h = tt

  IsFrom-now : (ev : Event I) (evs : List (Event I)) → IsFrom (λ m. Arrived m (ev ∷ evs)) ev
  IsFrom-now (arrives m) evs = inl refl
  IsFrom-now (send_ends n sent_ok) evs = tt
  IsFrom-now timer_fires evs = tt
  IsFrom-now aborts evs = tt

  all-IsFrom : (evs : List (Event I)) → All (IsFrom (λ m. Arrived m evs)) evs
  all-IsFrom [] = tt
  all-IsFrom (ev ∷ evs) =
      (IsFrom-now ev evs, All-map _ _ (λ e. IsFrom-later ev e evs) evs (all-IsFrom evs))

  -- After run() and any events: a clear that succeeds reports the acceptance of a MISSION_ACK that
  -- arrived from the vehicle's system and, unless it is readable as another, its component; is
  -- not addressed to another station; and is for our mission type.
  pub clear_was_accepted :
      (link_subs : List ℕ) (next_sub : ℕ) (evs : List (Event I)) (r : ℕ)
      → (run (start c link_subs next_sub) evs).base.answers ≡ done r ∷ []
      → (r ≡ c.mission_accepted) × Acceptance (λ m. Arrived m evs)
  clear_was_accepted link_subs next_sub evs r e =
      let P : Payload I → Type 0 = λ m. Arrived m evs in
      let w =
        run-Inv P (start c link_subs next_sub) evs (all-IsFrom evs)
          (start-Inv P link_subs next_sub) in
      (subst (All (Heard P)) e w.heard).0
