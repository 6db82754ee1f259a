-- ===== src/Param/Reading/Answered.antt =====
-- What ParamRead (lib/param/param-workflow.js) returns and what it asks for.
use node_red_contrib_mavlink.Common.{
  ltb, ℕ, ◌≡◌, refl, sym, ap, ◌∙◌, subst, Bool, true, false, not, Option, none, some, List, [], ◌∷◌,
  arith, leb, All, if_cases, is_empty,
}
use node_red_contrib_mavlink.Workflow.{subscribe, finish, clear_timeout, follow_or, fire_or}
use node_red_contrib_mavlink.Param.{
  Config, Value, Param, Event, send_ends, timer_fires, arrives, learns, aborts, Floats, Act, again,
  Cont, requested, is_ours, State, complete, failed, Base, Answer, done, failed_with, fail,
  timed_out, continue, send_failed, aborted, project_param,
}
use node_red_contrib_mavlink.Param.Heard.{Arrived, IsFrom, all-IsFrom}
use node_red_contrib_mavlink.Param.Reading.{
  Reading, Wanted, new_reading, start, step, run, on_value, act, request, answers_to,
}

not-false : (b : Bool) → not b ≡ false → b ≡ true
not-false b h = ground (arith, h)

module _ {X : Type 0} (fl : Floats X) (c : Config) (wanted : Wanted) where
  -- The projection of a value of this vehicle that answers the request.
  abbrev pub Given : (Value X → Type 0) → Param X → Type 0
  Given P p =
      (v : Value X) × (bytewise : Bool) × P v
      × (is_ours c v ≡ true)
      × (answers_to wanted v ≡ true)
      × (p ≡ project_param fl c bytewise v)

  module _ (P : Value X → Type 0) where
    abbrev pub Heard : Answer (Param X) → Type 0
    Heard (done p) = Given P p
    Heard (failed_with f) = Unit

    pub record Fair (config : Config) (target : Wanted) (answers : List (Answer (Param X)))
        (sent : List Wanted) : Type 0 where
      pub same_config : config ≡ c
      same_wanted : target ≡ wanted
      pub heard : All Heard answers
      asked : All (λ m. m ≡ wanted) sent

    abbrev pub Inv : Reading X → Type 0
    Inv d = Fair d.config d.wanted d.base.answers d.base.sent

    finish-Inv :
        (state : State) (a : Answer (Param X)) (d : Reading X)
        → Heard a
        → Inv d
        → Inv (record d { base = finish state a d.base })
    unfolding finish
    finish-Inv state a d h w =
        if_cases {A = Base Wanted (Param X)} (λ b. Inv (record d { base = b })) d.base.settled
          (λ on. w)
          (λ off. record {
            same_config = w.same_config;
            same_wanted = w.same_wanted;
            heard = (h, w.heard);
            asked = w.asked;
          })

    request-Inv : (d : Reading X) → Inv d → Inv (request d)
    request-Inv d w = record {
      same_config = w.same_config;
      same_wanted = w.same_wanted;
      heard = w.heard;
      asked = (w.same_wanted, w.asked);
    }

    fire-Inv :
        (o : Option Act) (d : Reading X)
        → Inv d
        → Inv (act (fire_or (fail timed_out) d.config.max_retries o (clear_timeout d.base)) d)
    fire-Inv none d w = w
    fire-Inv (some again) d w =
        if_cases {A = Option Act × Base Wanted (Param X)} (λ r. Inv (act r d)) d.base.settled
          (λ on. w)
          (λ off.
            if_cases {A = Option Act × Base Wanted (Param X)} (λ r. Inv (act r d))
              (leb d.config.max_retries d.base.retries)
              (λ spent. finish-Inv failed _ (record d { base = clear_timeout d.base }) tt w)
              (λ more. request-Inv (record d { base = clear_timeout d.base }) w))

    follow-Inv :
        (o : Option (Cont × List Cont)) (sent_ok : Bool) (d : Reading X)
        → Inv d
        → Inv (record d { base = continue (follow_or (fail send_failed) sent_ok o d.base) })
    follow-Inv none sent_ok d w = w
    follow-Inv (some (requested, ks)) true d w = w
    follow-Inv (some (k, ks)) false d w =
        finish-Inv failed _ (record d { base = record (d.base) { pending = ks } }) tt w

    value-Inv : (v : Value X) (d : Reading X) → P v → Inv d → Inv (on_value fl v d)
    unfolding on_value
    value-Inv v d p w =
        if_cases Inv (not (is_ours d.config v)) (λ e. w)
          (λ e.
            if_cases Inv (not (answers_to d.wanted v)) (λ f. w)
              (λ f.
                finish-Inv complete _ d
                  (
                    v,
                    d.bytewise,
                    p,
                    ap (λ k. is_ours k v) (sym w.same_config) ∙ not-false (is_ours d.config v) e,
                    ap (λ k. answers_to k v) (sym w.same_wanted)
                        ∙ not-false (answers_to d.wanted v) f,
                    ap (λ k. project_param fl k d.bytewise v) w.same_config,
                  )
                  w))

    pub step-Inv : (d : Reading X) (ev : Event X) → IsFrom P ev → Inv d → Inv (step fl d ev)
    unfolding step
    step-Inv d (send_ends n sent_ok) p w = follow-Inv _ sent_ok d w
    step-Inv d timer_fires p w = fire-Inv d.base.timer d w
    step-Inv d (arrives v) p w =
        if_cases Inv (is_empty d.base.subs) (λ e. w) (λ e. value-Inv v d p w)
    step-Inv d (learns bytewise) p w = w
    step-Inv d aborts p w = finish-Inv failed (failed_with aborted) d tt w

    run-Inv :
        (d : Reading X) (evs : List (Event X)) → All (IsFrom P) evs → Inv d → Inv (run fl d evs)
    unfolding run
    run-Inv d [] h w = w
    run-Inv d (ev ∷ evs) h w = run-Inv (step fl d ev) evs h.1 (step-Inv d ev h.0 w)

    pub start-Inv :
        (bytewise : Bool) (link_subs : List ℕ) (next_sub : ℕ)
        → Inv (start c bytewise wanted link_subs next_sub)
    unfolding start
    start-Inv bytewise link_subs next_sub =
        let d : Reading X = new_reading c bytewise wanted link_subs next_sub in
        let w : Inv d = record { same_config = refl; same_wanted = refl; heard = tt; asked = tt } in
        if_cases Inv (ltb 255 c.target_system) (λ e. finish-Inv failed _ d tt w)
          (λ e. request-Inv (record d { base = subscribe d.base }) w)

  -- After run() and any events: every message asks for the wanted parameter, and a parameter that
  -- is returned was given by a PARAM_VALUE of this vehicle that arrived and answers the request,
  -- decoded under one of the two encodings.
  pub read_was_heard :
      (bytewise : Bool) (link_subs : List ℕ) (next_sub : ℕ) (evs : List (Event X)) (p : Param X)
      → (run fl (start c bytewise wanted link_subs next_sub) evs).base.answers ≡ done p ∷ []
      → Given (λ v. Arrived v evs) p
        × All (λ m. m ≡ wanted) (run fl (start c bytewise wanted link_subs next_sub) evs).base.sent
  read_was_heard bytewise link_subs next_sub evs p e =
      let w =
        run-Inv (λ v. Arrived v evs) _ evs (all-IsFrom evs)
          (start-Inv (λ v. Arrived v evs) bytewise link_subs next_sub) in
      ((subst (All (Heard (λ v. Arrived v evs))) e w.heard).0, w.asked)
