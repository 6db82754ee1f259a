-- ===== src/Param/SetAuto/Typed.antt =====
-- The type under which ParamSetAuto (lib/param/param-workflow.js) sets a parameter.
use node_red_contrib_mavlink.Param.Union.{View}
use node_red_contrib_mavlink.Param.Reading.Answered.{Given}
use node_red_contrib_mavlink.Common.{
  not, is_empty, ltb, ℕ, ◌≡◌, refl, sym, ap, ◌∙◌, subst, arith, ◌==◌, Bool, true, Option, none,
  some, List, [], ◌∷◌, All, if_cases,
}
use node_red_contrib_mavlink.Param.{
  send_ends, timer_fires, arrives, learns, aborts, Act, again, Base, Config, Num, Value, Param,
  Event, Floats, is_ours, Answer, done, failed_with, project_param, project_as, union_view,
}
use node_red_contrib_mavlink.Param.Heard.{Arrived, IsFrom, all-IsFrom}
use node_red_contrib_mavlink.Param.Reading.{Reading, by_id}
use node_red_contrib_mavlink.Param.Reading
use node_red_contrib_mavlink.Param.Reading.Answered
use node_red_contrib_mavlink.Param.Setting.{Setting, new_setting}
use node_red_contrib_mavlink.Param.Setting
use node_red_contrib_mavlink.Param.Setting.Encodings.{Learned, IsKnown, Learned-first, all-IsKnown}
use node_red_contrib_mavlink.Param.Setting.Sent.{Tells, Told, start-Told, step-Told, Told-sent}
use node_red_contrib_mavlink.Param.SetAuto.{
  SetAuto, AutoEvent, child, resumes, Phase, reading, setting, thrown, start, step, run, events_of,
  target_of, start_setter, after_read, resume, step_child,
}

same_id : (i j : ℕ) → (i == j) ≡ true → i ≡ j
same_id i j h = ground (arith, h)

module _ {X : Type 0} (fl : Floats X) where
  type_num-project_as : (o : Option View) (v : Value X) → (project_as fl o v).type_num ≡ v.type_num
  type_num-project_as none v = refl
  type_num-project_as (some view) v = refl

  type_num-project :
      (c : Config) (bytewise : Bool) (v : Value X)
      → (project_param fl c bytewise v).type_num ≡ v.type_num
  unfolding project_param
  type_num-project c bytewise v = type_num-project_as (union_view c bytewise v.type_num) v

module _ {X : Type 0} (fl : Floats X) (c : Config) (id : ℕ) (value : Num X) where
  -- The type of the setter is that of a value of this parameter.
  abbrev pub TypeRead : (Value X → Type 0) → (Bool → Type 0) → Setting X → Type 0
  TypeRead P S s =
      (v : Value X) × P v
      × (is_ours c v ≡ true)
      × (v.id ≡ id)
      × All (Tells c (target_of id value v.type_num) S) s.base.sent

  module _ (P : Value X → Type 0) (S : Bool → Type 0) where
    abbrev Keeps : Reading X → Type 0
    Keeps r = S r.bytewise

    fired_encoding :
        (o : Option Act × Base Reading.Wanted (Param X)) (r : Reading X)
        → S r.bytewise
        → S (Reading.act o r).bytewise
    fired_encoding (none, b) r h = h
    fired_encoding (some again, b) r h = h

    -- The reader asks for the encoding like the setter.
    read_encoding :
        (r : Reading X) (ev : Event X)
        → IsKnown S ev
        → S r.bytewise
        → S (Reading.step fl r ev).bytewise
    unfolding Reading.step Reading.on_value
    read_encoding r (send_ends n sent_ok) k h = h
    read_encoding r timer_fires k h = fired_encoding _ r h
    read_encoding r (arrives v) k h =
        if_cases Keeps (is_empty r.base.subs) (λ e. h)
          (λ e.
            if_cases Keeps (not (is_ours r.config v)) (λ f. h)
              (λ f. if_cases Keeps (not (Reading.answers_to r.wanted v)) (λ g. h) (λ g. h)))
    read_encoding r (learns b) k h = k
    read_encoding r aborts k h = h

    abbrev PhaseOk : Phase X → Type 0
    PhaseOk (reading r) = Answered.Inv fl c (by_id id) P r × S r.bytewise
    PhaseOk (setting s) =
        (v : Value X) × P v
        × (is_ours c v ≡ true)
        × (v.id ≡ id)
        × Told fl c (target_of id value v.type_num) S s
    PhaseOk (thrown f) = Unit

    abbrev Inv : SetAuto X → Type 0
    Inv d = (d.id ≡ id) × (d.value ≡ value) × PhaseOk d.phase

    step_child-Ok :
        (ph : Phase X) (ev : Event X)
        → IsFrom P ev
        → IsKnown S ev
        → PhaseOk ph
        → PhaseOk (step_child fl ph ev)
    step_child-Ok (reading r) ev p k w =
        (Answered.step-Inv fl c (by_id id) P r ev p w.0, read_encoding r ev k w.1)
    step_child-Ok (setting s) ev p k (v, h, o, i, w) =
        (v, h, o, i, step-Told fl c (target_of id value v.type_num) S s ev k w)
    step_child-Ok (thrown f) ev p k w = tt

    setter-Ok :
        (r : Reading X) (p : Param X) (d : SetAuto X)
        → Given fl c (by_id id) P p
        → Answered.Inv fl c (by_id id) P r
        → S r.bytewise
        → d.id ≡ id
        → d.value ≡ value
        → PhaseOk (start_setter fl r p d)
    setter-Ok r p d (v, bytewise, h, o, i, e) w known ei ev =
        let t = target_of id value v.type_num in
        let same =
          ap (λ x. target_of x d.value p.type_num) ei
          ∙ ap (λ x. target_of id x p.type_num) ev
          ∙ ap (λ x. target_of id value x)
              (ap (λ x. x.type_num) e ∙ type_num-project fl c bytewise v) in
        (
          v,
          h,
          o,
          same_id v.id id i,
          subst
              (λ k. Told fl c t S (
                Setting.start fl (
                  new_setting fl k r.bytewise (target_of d.id d.value p.type_num) r.base.link_subs
                    r.base.next_sub)))
              (sym w.same_config)
              (subst
                (λ x. Told fl c t S (
                  Setting.start fl
                    (new_setting fl c r.bytewise x r.base.link_subs r.base.next_sub)))
                (sym same) (start-Told fl c t S r.bytewise r.base.link_subs r.base.next_sub known)),
        )

    after_read-Ok :
        (xs : List (Answer (Param X))) (r : Reading X) (d : SetAuto X)
        → All (Answered.Heard fl c (by_id id) P) xs
        → Answered.Inv fl c (by_id id) P r
        → S r.bytewise
        → d.id ≡ id
        → d.value ≡ value
        → PhaseOk (after_read fl xs r d)
    after_read-Ok [] r d h w known ei ev = (w, known)
    after_read-Ok (failed_with f ∷ rest) r d h w known ei ev = tt
    after_read-Ok (done p ∷ rest) r d h w known ei ev =
        if_cases PhaseOk d.is_aborted (λ on. tt) (λ off. setter-Ok r p d h.0 w known ei ev)

    resume-Ok :
        (ph : Phase X) (d : SetAuto X)
        → PhaseOk ph
        → d.id ≡ id
        → d.value ≡ value
        → PhaseOk (resume fl ph d)
    resume-Ok (reading r) d w ei ev = after_read-Ok r.base.answers r d w.0.heard w.0 w.1 ei ev
    resume-Ok (setting s) d w ei ev = w
    resume-Ok (thrown f) d w ei ev = tt

    abbrev FromEvent : AutoEvent X → Type 0
    FromEvent (child ev) = IsFrom P ev × IsKnown S ev
    FromEvent resumes = Unit

    all_children :
        (evs : List (AutoEvent X))
        → All (IsFrom P) (events_of evs)
        → All (IsKnown S) (events_of evs)
        → All FromEvent evs
    all_children [] h k = tt
    all_children (child ev ∷ evs) h k = ((h.0, k.0), all_children evs h.1 k.1)
    all_children (resumes ∷ evs) h k = (tt, all_children evs h k)

    step-Inv : (d : SetAuto X) (ev : AutoEvent X) → FromEvent ev → Inv d → Inv (step fl d ev)
    unfolding step
    step-Inv d (child ev) p w = (w.0, w.1, step_child-Ok d.phase ev p.0 p.1 w.2)
    step-Inv d resumes p w = (w.0, w.1, resume-Ok d.phase d w.2 w.0 w.1)

    run-Inv :
        (d : SetAuto X) (evs : List (AutoEvent X)) → All FromEvent evs → Inv d → Inv (run fl d evs)
    unfolding run
    run-Inv d [] h w = w
    run-Inv d (ev ∷ evs) h w = run-Inv (step fl d ev) evs h.1 (step-Inv d ev h.0 w)

    start-Inv :
        (bytewise : Bool) (link_subs : List ℕ) (next_sub : ℕ)
        → S bytewise
        → Inv (start fl c bytewise id value link_subs next_sub)
    unfolding start Reading.start
    start-Inv bytewise link_subs next_sub known = (
      refl,
      refl,
      (
        Answered.start-Inv fl c (by_id id) P bytewise link_subs next_sub,
        if_cases Keeps (ltb 255 c.target_system) (λ far. known) (λ near. known),
      ),
    )

    phase-TypeRead : (s : Setting X) → PhaseOk (setting s) → TypeRead P S s
    phase-TypeRead s (v, h, o, i, w) =
        (v, h, o, i, Told-sent fl c (target_of id value v.type_num) S s w)

  -- After run() and any events, aborts among them: once it is setting, a PARAM_VALUE of this
  -- vehicle under this id has arrived, and every PARAM_SET carries the id, the type that this value
  -- tells and the requested value, under an encoding that the resolver has answered: as 32 bits that
  -- are read back as it for an integer type under the bytewise one, as the number itself otherwise.
  pub auto-TypeRead :
      (bytewise : Bool) (link_subs : List ℕ) (next_sub : ℕ) (evs : List (AutoEvent X))
      (s : Setting X)
      → (run fl (start fl c bytewise id value link_subs next_sub) evs).phase ≡ setting s
      → TypeRead (λ v. Arrived v (events_of evs)) (λ b. Learned bytewise b (events_of evs)) s
  auto-TypeRead bytewise link_subs next_sub evs s e =
      let P = λ (v : Value X). Arrived v (events_of evs) in
      let S = λ (b : Bool). Learned bytewise b (events_of evs) in
      let w =
        run-Inv P S (start fl c bytewise id value link_subs next_sub) evs
          (all_children P S evs (all-IsFrom (events_of evs))
            (all-IsKnown S bytewise (events_of evs) (λ b l. l)))
          (start-Inv P S bytewise link_subs next_sub (Learned-first bytewise (events_of evs))) in
      phase-TypeRead P S s (subst (PhaseOk P S) e w.2)
