-- ===== src/Param/Setting/Confirmed.antt =====
-- What ParamSet (lib/param/param-workflow.js) reports, and what it has heard before.
use node_red_contrib_mavlink.Common.{
  ltb, beq_ℤ_eq, beq_ℤ_refl, ℤ, if◌then◌else◌, ℕ, suc, ◌≤◌, ◌≡◌, refl, sym, ap, ◌∙◌, subst, Bool,
  true, false, not, Option, none, some, List, [], ◌∷◌, arith, leb, ◌==◌, All, if_cases, is_empty,
}
use node_red_contrib_mavlink.Workflow.{finish, clear_timeout, follow_or, fire_or}
use node_red_contrib_mavlink.Param.{
  Num, whole, other, same_num, union_view, project_as, bits_or_float, Config, Value, Param, Event,
  send_ends, timer_fires, arrives, learns, aborts, Floats, Act, again, Cont, requested, is_ours,
  State, complete, failed, Base, Answer, done, failed_with, fail, continue, send_failed, aborted,
  project_param,
}
use node_red_contrib_mavlink.Connection.Sender.{AnswersFor, answers}
use node_red_contrib_mavlink.Param.Union.{View, union_bits_to_int}
use node_red_contrib_mavlink.Param.Heard.{Arrived, IsFrom, all-IsFrom}
use node_red_contrib_mavlink.Param.Setting.{
  same_value, Setting, Target, Request, Outcome, start, step, run, on_value, act, request, give_up,
  is_applied, new_setting, policy, fits,
}

not-false : (b : Bool) → not b ≡ false → b ≡ true
not-false b h = ground (arith, h)

same_id : (i j : ℕ) → not (i == j) ≡ false → i ≡ j
same_id i j h = ground (arith, h)

false-true : false ≡ true → ⊥
false-true h = ground (arith, h)

abbrev IsOther : {X : Type 0} → Num X → Type 0
IsOther (whole z) = ⊥
IsOther (other x) = Unit

module _ {X : Type 0} (fl : Floats X) (c : Config) (t : Target X) where
  from_vehicle :
      (v : Value X)
      → is_ours c v ≡ true
      → (v.sysid ≡ c.target_system) × AnswersFor c.target_component v.compid
  from_vehicle v h = (ground (arith, h), answers c.target_component v.compid (ground (arith, h)))

  -- The integer type whose bytes a value has: its own under the bytewise encoding, none under the
  -- other.
  abbrev pub union_type : Bool → ℕ → Option View
  union_type true type_num = c.view type_num
  union_type false type_num = none

  -- The vehicle's number is the requested one: exactly for an integer in bytes, and rounded to
  -- float32 otherwise.
  abbrev pub Agrees : Option View → Value X → Type 0
  Agrees none v = same_num fl (fl.fround v.value) (fl.fround t.value) ≡ true
  Agrees (some view) v =
      t.value ≡ whole (union_bits_to_int (some view) (bits_or_float fl v.bits v.value))

  abbrev pub Judged : Bool → Option View → Value X → Type 0
  Judged true o v = Agrees o v
  Judged false o v = ¬ Agrees o v

  view_lem : (bytewise : Bool) (n : ℕ) → union_view c bytewise n ≡ union_type bytewise n
  view_lem true n = refl
  view_lem false n = refl

  exact_lem :
      (z : ℤ) (value : Num X) (applied : Bool)
      → same_num fl (whole z) value ≡ applied
      → if applied then value ≡ whole z else ¬ (value ≡ whole z)
  exact_lem z (whole y) true h = ap (λ i. whole i) (sym (beq_ℤ_eq z y h))
  exact_lem z (whole y) false h =
      λ k. false-true (sym h ∙ subst (λ x. same_num fl (whole z) x ≡ true) (sym k) (beq_ℤ_refl z))
  exact_lem z (other x) true h = absurd (false-true h)
  exact_lem z (other x) false h = λ k. subst IsOther k tt

  same_value-Judged :
      (o : Option View) (v : Value X) (applied : Bool)
      → same_value fl o (project_as fl o v).value t.value ≡ applied
      → Judged applied o v
  same_value-Judged none v true h = h
  same_value-Judged none v false h = λ k. false-true (sym h ∙ k)
  same_value-Judged (some view) v true h = exact_lem _ t.value true h
  same_value-Judged (some view) v false h = exact_lem _ t.value false h

  is_applied-Judged :
      (bytewise : Bool) (v : Value X) (applied : Bool)
      → is_applied fl c bytewise t v ≡ applied
      → Judged applied (union_type bytewise v.type_num) v
  unfolding is_applied project_param
  is_applied-Judged bytewise v applied h =
      subst (λ o. Judged applied o v) (view_lem bytewise v.type_num)
        (same_value-Judged (union_view c bytewise v.type_num) v applied h)

  -- A parameter that a value of this vehicle under this id gave, under one of the two encodings.
  abbrev pub Echo : (Value X → Type 0) → Bool → Param X → Type 0
  Echo P applied p =
      (v : Value X) × (bytewise : Bool) × P v
      × (v.sysid ≡ c.target_system)
      × AnswersFor c.target_component v.compid
      × (v.id ≡ t.id)
      × (p ≡ project_param fl c bytewise v)
      × Judged applied (union_type bytewise v.type_num) v

  abbrev pub Heard : (Value X → Type 0) → ℕ → Answer (Outcome X) → Type 0
  Heard P retries (done r) =
      (r.requested_value ≡ t.value)
      × Echo P r.applied r.param
      × (r.applied ≡ false → c.max_retries ≤ retries)
  Heard P retries (failed_with f) = Unit

  module _ (P : Value X → Type 0) where
    abbrev EchoIs : Option (Param X) → Type 0
    EchoIs none = Unit
    EchoIs (some p) = Echo P false p

    record Fair (config : Config) (target : Target X) (last_echo : Option (Param X)) (retries : ℕ)
        (answers : List (Answer (Outcome X))) (settled : Bool) : Type 0 where
      same_config : config ≡ c
      same_target : target ≡ t
      echo : EchoIs last_echo
      heard : All (Heard P retries) answers
      unanswered : settled ≡ false → answers ≡ []

    abbrev Inv : Setting X → Type 0
    Inv d = Fair d.config d.target d.last_echo d.base.retries d.base.answers d.base.settled

    finish-Inv :
        (state : State) (a : Answer (Outcome X)) (d : Setting X)
        → (d.base.settled ≡ false → Heard P d.base.retries a)
        → Inv d
        → Inv (record d { base = finish state a d.base })
    unfolding finish
    finish-Inv state a d h w =
        if_cases {A = Base (Request X) (Outcome X)} (λ b. Inv (record d { base = b }))
          d.base.settled (λ on. w)
          (λ off. record {
            same_config = w.same_config;
            same_target = w.same_target;
            echo = w.echo;
            heard = (h off, w.heard);
            unanswered = λ e. ground (arith, e);
          })

    request-Inv :
        (d : Setting X)
        → d.base.settled ≡ false
        → Inv d
        → Inv (request fl (record d { base = record (d.base) { retries = suc d.base.retries } }))
    request-Inv d off w = record {
      same_config = w.same_config;
      same_target = w.same_target;
      echo = w.echo;
      heard = subst (All _) (sym (w.unanswered off)) tt;
      unanswered = w.unanswered;
    }

    give_up-Inv :
        (o : Option (Param X)) (d : Setting X)
        → d.last_echo ≡ o
        → c.max_retries ≤ d.base.retries
        → Inv d
        → Inv (record d { base = give_up d.target.value o d.base })
    give_up-Inv none d e h w = finish-Inv failed _ d (λ off. tt) w
    give_up-Inv (some p) d e h w =
        finish-Inv complete _ d
          (λ off. (ap (λ x. x.value) w.same_target, subst EchoIs e w.echo, (λ k. h))) w

    fire-Inv :
        (o : Option Act) (d : Setting X)
        → Inv d
        → Inv (
            act fl
              (fire_or
                (give_up d.target.value d.last_echo)
                d.config.max_retries
                o
                (clear_timeout d.base))
              d)
    fire-Inv none d w = w
    fire-Inv (some again) d w =
        if_cases {A = Option Act × Base (Request X) (Outcome X)} (λ r. Inv (act fl r d))
          d.base.settled (λ on. w)
          (λ off.
            if_cases {A = Option Act × Base (Request X) (Outcome X)} (λ r. Inv (act fl r d))
              (leb d.config.max_retries d.base.retries)
              (λ spent.
                give_up-Inv d.last_echo (record d { base = clear_timeout d.base }) refl
                  (subst (λ k. k.max_retries ≤ d.base.retries) w.same_config
                    (ground (arith, spent)))
                  w)
              (λ more. request-Inv (record d { base = clear_timeout d.base }) off w))

    follow-Inv :
        (o : Option (Cont × List Cont)) (sent_ok : Bool) (d : Setting X)
        → Inv d
        → Inv (record d { base = continue (follow_or (fail send_failed) sent_ok o d.base) })
    follow-Inv none sent_ok d w = w
    follow-Inv (some (requested, ks)) true d w = w
    follow-Inv (some (k, ks)) false d w =
        finish-Inv failed _ (record d { base = record (d.base) { pending = ks } }) (λ off. tt) w

    told-Echo :
        (v : Value X) (d : Setting X) (applied : Bool)
        → P v
        → Inv d
        → not (is_ours d.config v) ≡ false
        → not (v.id == d.target.id) ≡ false
        → is_applied fl d.config d.bytewise d.target v ≡ applied
        → Echo P applied (project_param fl d.config d.bytewise v)
    told-Echo v d applied p w e f g = (
      v,
      d.bytewise,
      p,
      (from_vehicle v
          (ap (λ k. is_ours k v) (sym w.same_config) ∙ not-false (is_ours d.config v) e)).0,
      (from_vehicle v
          (ap (λ k. is_ours k v) (sym w.same_config) ∙ not-false (is_ours d.config v) e)).1,
      same_id v.id d.target.id f ∙ ap (λ x. x.id) w.same_target,
      ap (λ k. project_param fl k d.bytewise v) w.same_config,
      is_applied-Judged d.bytewise v applied (
          subst (λ k. is_applied fl k d.bytewise t v ≡ applied) w.same_config
            (subst (λ x. is_applied fl d.config d.bytewise x v ≡ applied) w.same_target g)),
    )

    value-Inv : (v : Value X) (d : Setting X) → P v → Inv d → Inv (on_value fl v d)
    unfolding on_value
    value-Inv v d p w =
        if_cases Inv (not (is_ours d.config v)) (λ e. w)
          (λ e.
            if_cases Inv (not (v.id == d.target.id)) (λ f. w)
              (λ f.
                if_cases Inv (is_applied fl d.config d.bytewise d.target v)
                  (λ g.
                    finish-Inv complete _ d
                      (λ off. (
                        ap (λ x. x.value) w.same_target,
                        told-Echo v d true p w e f g,
                        (λ k. ground (arith, k)),
                      ))
                      w)
                  (λ g. record {
                    same_config = w.same_config;
                    same_target = w.same_target;
                    echo = told-Echo v d false p w e f g;
                    heard = w.heard;
                    unanswered = w.unanswered;
                  })))

    step-Inv : (d : Setting X) (ev : Event X) → IsFrom P ev → Inv d → Inv (step fl d ev)
    unfolding step
    step-Inv d (send_ends n sent_ok) p w = follow-Inv _ sent_ok d w
    step-Inv d timer_fires p w = fire-Inv d.base.timer d w
    step-Inv d (arrives v) p w =
        if_cases Inv (is_empty d.base.subs) (λ e. w) (λ e. value-Inv v d p w)
    step-Inv d (learns bytewise) p w = w
    step-Inv d aborts p w = finish-Inv failed (failed_with aborted) d (λ off. tt) w

    run-Inv :
        (d : Setting X) (evs : List (Event X)) → All (IsFrom P) evs → Inv d → Inv (run fl d evs)
    unfolding run
    run-Inv d [] h w = w
    run-Inv d (ev ∷ evs) h w = run-Inv (step fl d ev) evs h.1 (step-Inv d ev h.0 w)

    start-Inv :
        (bytewise : Bool) (link_subs : List ℕ) (next_sub : ℕ)
        → Inv (start fl (new_setting fl c bytewise t link_subs next_sub))
    unfolding start
    start-Inv bytewise link_subs next_sub =
        let w : Inv (new_setting fl c bytewise t link_subs next_sub) = record {
          same_config = refl;
          same_target = refl;
          echo = tt;
          heard = tt;
          unanswered = λ _. refl;
        } in
        if_cases Inv (fits (policy c t.type_num) t.value)
          (λ e.
            if_cases Inv (ltb 255 c.target_system)
              (λ far.
                finish-Inv failed _ (new_setting fl c bytewise t link_subs next_sub) (λ off. tt) w)
              (λ near. w))
          (λ e. finish-Inv failed _ (new_setting fl c bytewise t link_subs next_sub) (λ off. tt) w)

  -- After run() and any events: an outcome that is reported is for the requested value, and it is
  -- that of a PARAM_VALUE under this id that arrived from the vehicle's system and, unless all are
  -- addressed or it is unreadable, its component, decoded under one of the two encodings. It is
  -- applied only if the number in it is the requested one: exactly if it is an integer in bytes, and
  -- rounded to float32 otherwise; it is not applied only if it is another number and the retries
  -- are used up.
  pub outcome_was_heard :
      (bytewise : Bool) (link_subs : List ℕ) (next_sub : ℕ) (evs : List (Event X)) (r : Outcome X)
      → (run fl (start fl (new_setting fl c bytewise t link_subs next_sub)) evs).base.answers
        ≡ done r ∷ []
      → (r.requested_value ≡ t.value)
        × Echo (λ v. Arrived v evs) r.applied r.param
        × (r.applied ≡ false
            → c.max_retries
              ≤ (run fl
                  (start fl (new_setting fl c bytewise t link_subs next_sub))
                  evs).base.retries)
  outcome_was_heard bytewise link_subs next_sub evs r e =
      let w =
        run-Inv (λ v. Arrived v evs) _ evs (all-IsFrom evs)
          (start-Inv (λ v. Arrived v evs) bytewise link_subs next_sub) in
      (subst (All (Heard (λ v. Arrived v evs) _)) e w.heard).0
