-- ===== src/Param/Setting/Sent.antt =====
-- What ParamSet (lib/param/param-workflow.js) puts on the wire.
use node_red_contrib_mavlink.Common.{
  ltb, ℕ, ◌<◌, ◌≡◌, refl, sym, ap, ◌∙◌, subst, Bool, true, false, not, Option, none, some, List, [],
  ◌∷◌, arith, leb, ◌==◌, All, if◌then◌else◌, if_cases, ◌⊎◌, Bool-cases, inl, inr, is_empty,
}
use node_red_contrib_mavlink.Workflow.{
  subscribe, finish, clear_timeout, follow_or, take_send, fire_or,
}
use node_red_contrib_mavlink.Param.{
  Config, Num, whole, other, Value, Event, send_ends, timer_fires, arrives, learns, aborts, Floats,
  Act, again, Cont, requested, is_ours, State, complete, failed, Base, Answer, failed_with, fail,
  continue, send_failed, aborted, out_of_range, Param,
}
use node_red_contrib_mavlink.Param.Setting.Encodings.{Learned, IsKnown, Learned-first, all-IsKnown}
use node_red_contrib_mavlink.Param.Union.{View, union_bits_to_int, union_round_trip}
use node_red_contrib_mavlink.Param.Setting.{
  Setting, Target, Wire, plain, union, Request, Outcome, start, step, run, on_value, act, request,
  give_up, new_setting, policy, fits, set_view_of, wire_value, is_applied,
}

module _ {X : Type 0} (c : Config) (t : Target X) where
  -- The integer type whose bytes a request carries: that of the parameter under the bytewise
  -- encoding, none under the other.
  abbrev pub union_type : Bool → Option View
  union_type true = policy c t.type_num
  union_type false = none

  -- The field has the requested number itself, or 32 bits that are read back under the integer type
  -- as the requested number.
  abbrev pub Carries : Option View → Wire X → Type 0
  Carries none (plain value) = value ≡ t.value
  Carries none (union bits) = ⊥
  Carries (some view) (plain value) = ⊥
  Carries (some view) (union bits) =
      (whole (union_bits_to_int (some view) bits) ≡ t.value) × (bits < 4294967296)

  -- A request under one of the encodings of a predicate.
  abbrev pub Tells : (Bool → Type 0) → Request X → Type 0
  Tells S m =
      (m.id ≡ t.id)
      × (m.type_num ≡ t.type_num)
      × ((bytewise : Bool) × S bytewise × Carries (union_type bytewise) m.value)

  view_lem : (bytewise : Bool) → set_view_of c bytewise t.type_num ≡ union_type bytewise
  view_lem true = refl
  view_lem false = refl

  union_carried :
      (fl : Floats X) (view : View) (value : Num X)
      → value ≡ t.value
      → fits (some view) value ≡ true
      → Carries (some view) (wire_value fl (some view) value)
  union_carried fl view (whole z) v h =
      let trip = union_round_trip view z h in (ap (λ i. whole i) trip.0 ∙ v, trip.1)
  union_carried fl view (other x) v h = ground (arith, h)

  wire-Carries :
      (fl : Floats X) (o : Option View)
      → fits o t.value ≡ true
      → Carries o (wire_value fl o t.value)
  wire-Carries fl none h = refl
  wire-Carries fl (some view) h = union_carried fl view t.value refl h

  union_fits :
      (bytewise : Bool)
      → fits (policy c t.type_num) t.value ≡ true
      → fits (union_type bytewise) t.value ≡ true
  union_fits true h = h
  union_fits false h = refl

module _ {X : Type 0} (fl : Floats X) (c : Config) (t : Target X) (S : Bool → Type 0) where
  abbrev Inv : Setting X → Type 0
  Inv d = (d.config ≡ c) × (d.target ≡ t) × S d.bytewise × All (Tells c t S) d.base.sent

  module _ (fitting : fits (policy c t.type_num) t.value ≡ true) where
    request-Inv : (d : Setting X) → Inv d → Inv (request fl d)
    request-Inv d w = (
      w.0,
      w.1,
      w.2,
      (
        (
          ap (λ x. x.id) w.1,
          ap (λ x. x.type_num) w.1,
          (
            d.bytewise,
            w.2,
            subst
                (λ k.
                  Carries c t (union_type c t d.bytewise)
                    (wire_value fl (set_view_of k d.bytewise d.target.type_num) d.target.value))
                (sym w.0)
                (subst
                  (λ x.
                    Carries c t (union_type c t d.bytewise)
                      (wire_value fl (set_view_of c d.bytewise x.type_num) x.value))
                  (sym w.1)
                  (subst (λ o. Carries c t (union_type c t d.bytewise) (wire_value fl o t.value))
                    (sym (view_lem c t d.bytewise))
                    (wire-Carries c t fl (union_type c t d.bytewise)
                      (union_fits c t d.bytewise fitting)))),
          ),
        ),
        w.3,
      ),
    )

    finish-Inv :
        (state : State) (a : Answer (Outcome X)) (d : Setting X)
        → Inv d
        → Inv (record d { base = finish state a d.base })
    unfolding finish
    finish-Inv state a d w =
        if_cases {A = Base (Request X) (Outcome X)} (λ b. Inv (record d { base = b }))
          d.base.settled (λ on. w) (λ off. w)

    give_up-Inv :
        (o : Option (Param X)) (d : Setting X)
        → Inv d
        → Inv (record d { base = give_up d.target.value o d.base })
    give_up-Inv none d w = finish-Inv failed _ d w
    give_up-Inv (some p) d w = finish-Inv complete _ d w

    fire-Inv :
        (o : Option Act) (d : Setting X)
        → Inv d
        → Inv (
            act fl
              (fire_or
                (give_up d.target.value d.last_echo)
                d.config.max_retries
                o
                (clear_timeout d.base))
              d)
    fire-Inv none d w = w
    fire-Inv (some again) d w =
        if_cases {A = Option Act × Base (Request X) (Outcome X)} (λ r. Inv (act fl r d))
          d.base.settled (λ on. w)
          (λ off.
            if_cases {A = Option Act × Base (Request X) (Outcome X)} (λ r. Inv (act fl r d))
              (leb d.config.max_retries d.base.retries)
              (λ spent. give_up-Inv d.last_echo (record d { base = clear_timeout d.base }) w)
              (λ more. request-Inv (record d { base = clear_timeout d.base }) w))

    follow-Inv :
        (o : Option (Cont × List Cont)) (sent_ok : Bool) (d : Setting X)
        → Inv d
        → Inv (record d { base = continue (follow_or (fail send_failed) sent_ok o d.base) })
    follow-Inv none sent_ok d w = w
    follow-Inv (some (requested, ks)) true d w = w
    follow-Inv (some (k, ks)) false d w =
        finish-Inv failed _ (record d { base = record (d.base) { pending = ks } }) w

    value-Inv : (v : Value X) (d : Setting X) → Inv d → Inv (on_value fl v d)
    unfolding on_value
    value-Inv v d w =
        if_cases Inv (not (is_ours d.config v)) (λ e. w)
          (λ e.
            if_cases Inv (not (v.id == d.target.id)) (λ f. w)
              (λ f.
                if_cases Inv (is_applied fl d.config d.bytewise d.target v)
                  (λ g. finish-Inv complete _ d w) (λ g. w)))

    step-Inv : (d : Setting X) (ev : Event X) → IsKnown S ev → Inv d → Inv (step fl d ev)
    unfolding step
    step-Inv d (send_ends n sent_ok) k w = follow-Inv _ sent_ok d w
    step-Inv d timer_fires k w = fire-Inv d.base.timer d w
    step-Inv d (arrives v) k w = if_cases Inv (is_empty d.base.subs) (λ e. w) (λ e. value-Inv v d w)
    step-Inv d (learns bytewise) k w = (w.0, w.1, k, w.3)
    step-Inv d aborts k w = finish-Inv failed (failed_with aborted) d w

  abbrev pub Refused : Setting X → Type 0
  Refused d =
      (d.base.settled ≡ true)
      × (d.base.subs ≡ [])
      × (d.base.timer ≡ none)
      × (d.base.pending ≡ [])
      × (d.base.sent ≡ [])
      × (d.base.answers ≡ failed_with out_of_range ∷ [])

  -- A request that was refused: nothing is sent, and nothing changes that.
  module _ (no_fit : fits (policy c t.type_num) t.value ≡ false) where
    step-Refused : (d : Setting X) (ev : Event X) → Refused d → Refused (step fl d ev)
    unfolding step finish
    step-Refused d (send_ends n sent_ok) w =
        subst
          (λ ks. Refused (record d {
            base = continue (follow_or (fail send_failed) sent_ok (take_send n ks) d.base);
          }))
          (sym w.3) w
    step-Refused d timer_fires w =
        subst
          (λ o. Refused (
            act fl
              (fire_or (give_up d.target.value d.last_echo) d.config.max_retries o
                (clear_timeout d.base))
              d))
          (sym w.2) (w.0, w.1, refl, w.3, w.4, w.5)
    step-Refused d (arrives v) w =
        subst (λ xs. Refused (if is_empty xs then d else on_value fl v d)) (sym w.1) w
    step-Refused d (learns bytewise) w = w
    step-Refused d aborts w =
        if_cases {A = Base (Request X) (Outcome X)} (λ b. Refused (record d { base = b }))
          d.base.settled (λ on. w) (λ off. ground (arith, w.0, off))

    pub run-Refused : (d : Setting X) (evs : List (Event X)) → Refused d → Refused (run fl d evs)
    unfolding run
    run-Refused d [] w = w
    run-Refused d (ev ∷ evs) w = run-Refused (step fl d ev) evs (step-Refused d ev w)

    pub start-Refused :
        (bytewise : Bool) (link_subs : List ℕ) (next_sub : ℕ)
        → Refused (start fl (new_setting fl c bytewise t link_subs next_sub))
    unfolding start finish
    start-Refused bytewise link_subs next_sub =
        if_cases Refused (fits (policy c t.type_num) t.value) (λ e. ground (arith, e, no_fit))
          (λ e. (refl, refl, refl, refl, refl, refl))

  -- Either the value fits and every request tells it, or nothing is sent.
  abbrev pub Told : Setting X → Type 0
  Told d =
      ((fits (policy c t.type_num) t.value ≡ true) × Inv d)
      ⊎ ((fits (policy c t.type_num) t.value ≡ false) × Refused d)

  pub start-Told :
      (bytewise : Bool) (link_subs : List ℕ) (next_sub : ℕ)
      → S bytewise
      → Told (start fl (new_setting fl c bytewise t link_subs next_sub))
  unfolding start
  start-Told bytewise link_subs next_sub first =
      let d : Setting X = new_setting fl c bytewise t link_subs next_sub in
      elim (Bool-cases (fits (policy c t.type_num) t.value)) [
        | inl e ↦ inl (
          e,
          if_cases Inv (fits (policy c t.type_num) t.value)
              (λ k.
                if_cases Inv (ltb 255 c.target_system)
                  (λ far. finish-Inv e failed _ d (refl, refl, first, tt))
                  (λ near.
                    request-Inv e (record d { base = subscribe d.base }) (refl, refl, first, tt)))
              (λ k. ground (arith, e, k)),
        )
        | inr e ↦ inr (e, start-Refused e bytewise link_subs next_sub)
      ]

  pub step-Told : (d : Setting X) (ev : Event X) → IsKnown S ev → Told d → Told (step fl d ev)
  step-Told d ev k (inl w) = inl (w.0, step-Inv w.0 d ev k w.1)
  step-Told d ev k (inr w) = inr (w.0, step-Refused w.0 d ev w.1)

  pub run-Told :
      (d : Setting X) (evs : List (Event X)) → All (IsKnown S) evs → Told d → Told (run fl d evs)
  unfolding run
  run-Told d [] k w = w
  run-Told d (ev ∷ evs) k w = run-Told (step fl d ev) evs k.1 (step-Told d ev k.0 w)

  pub Told-sent : (d : Setting X) → Told d → All (Tells c t S) d.base.sent
  Told-sent d (inl w) = w.1.3
  Told-sent d (inr w) = subst (All _) (sym w.1.4) tt

module _ {X : Type 0} (fl : Floats X) (c : Config) (t : Target X) where
  -- After run() and any events: every PARAM_SET carries the id, the type and the requested value,
  -- under an encoding that the resolver has answered. Under the bytewise encoding of an integer
  -- type the value is 32 bits that are read back as it; otherwise it is the number itself, as
  -- `send` is given it.
  pub sent-Tells :
      (bytewise : Bool) (link_subs : List ℕ) (next_sub : ℕ) (evs : List (Event X))
      → All
          (Tells c t (λ b. Learned bytewise b evs))
          (run fl (start fl (new_setting fl c bytewise t link_subs next_sub)) evs).base.sent
  sent-Tells bytewise link_subs next_sub evs =
      let S : Bool → Type 0 = λ b. Learned bytewise b evs in
      let d = start fl (new_setting fl c bytewise t link_subs next_sub) in
      Told-sent fl c t S (run fl d evs) (
        run-Told fl c t S d evs (all-IsKnown S bytewise evs (λ b l. l))
          (start-Told fl c t S bytewise link_subs next_sub (Learned-first bytewise evs)))
