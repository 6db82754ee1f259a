-- ===== src/Param/Listing/Complete.antt =====
-- What a parameter list of lib/param/param-workflow.js holds when ParamList finishes.
use node_red_contrib_mavlink.Common.{
  ℕ, suc, ◌≤◌, ◌<◌, ◌≡◌, refl, sym, ap, ◌∙◌, subst, Bool, true, false, not, ◌&&◌, ◌||◌, Option,
  none, some, List, [], ◌∷◌, arith, leb, ltb, ◌==◌, length, All, if_cases, is_empty, nat_eq,
}
use node_red_contrib_mavlink.JsMap.{has, size}
use node_red_contrib_mavlink.JsMap.Laws.{Keyed, set-Keyed}
use node_red_contrib_mavlink.Workflow.{finish, clear_timeout, follow_or, fire_or}
use node_red_contrib_mavlink.Param.{
  Config, Value, Event, send_ends, timer_fires, arrives, learns, aborts, Floats, Act, again, Cont,
  requested, is_ours, Base, Answer, done, failed_with, Failure, fail, timed_out, continue,
  send_failed,
}
use node_red_contrib_mavlink.Param.Listing.{
  Listing, Params, Request, param_index_none, first_missing, new_listing, start, step, run,
  on_value, finish_list, request_missing, on_stall, receive, settle, act, or_size, is_full,
}
use node_red_contrib_mavlink.Param.Listing.Ascending.{InOrder}
use node_red_contrib_mavlink.Param.Listing.Finished.{
  IsEntry, set-IsEntry, covers-size, first_missing-none, finished,
}

module _ {X : Type 0} where
  -- A vehicle with `n` parameters: a value that the listing reads tells their count, and its index
  -- is below it.
  abbrev pub agrees : Config → ℕ → Event X → Bool
  agrees c n (arrives v) =
      not (is_ours c v) || (v.index == param_index_none || (v.param_count == n && ltb v.index n))
  agrees c n _ = true

  abbrev pub all_agree : Config → ℕ → List (Event X) → Bool
  all_agree c n [] = true
  all_agree c n (ev ∷ evs) = agrees c n ev && all_agree c n evs

  abbrev pub IsWhole : ℕ → Answer (Params X) → Type 0
  IsWhole n (done r) = (r.count ≡ n) × InOrder 0 r.params × (length r.params ≡ n)
  IsWhole n (failed_with f) = Unit

module _ {X : Type 0} (fl : Floats X) (c : Config) (n : ℕ) where
  abbrev CountIs : Option ℕ → Type 0
  CountIs none = Unit
  CountIs (some k) = k ≡ n

  record Whole (d : Listing X) : Type 0 where
    same_config : d.config ≡ c
    counted : CountIs d.count
    keyed : Keyed d.received
    entries : All (IsEntry n) d.received
    answers : All (IsWhole n) d.base.answers

  -- Only the base changes, and it gets no answer but a failure.
  base-Whole :
      (d : Listing X) (b : Base Request (Params X))
      → All (IsWhole n) b.answers
      → Whole d
      → Whole (record d { base = b })
  base-Whole d b h w = record {
    same_config = w.same_config;
    counted = w.counted;
    keyed = w.keyed;
    entries = w.entries;
    answers = h;
  }

  fail-answers :
      (f : Failure) (b : Base Request (Params X))
      → All (IsWhole n) b.answers
      → All (IsWhole n) (fail f b).answers
  unfolding finish
  fail-answers f b h =
      if_cases {A = Base Request (Params X)} (λ x. All (IsWhole n) x.answers) b.settled (λ e. h)
        (λ e. (tt, h))

  finish-Whole :
      (count : ℕ) (d : Listing X)
      → d.count ≡ some count
      → count ≤ length d.received
      → Whole d
      → Whole (finish_list fl d)
  unfolding finish
  finish-Whole count d e h w =
      let total = subst CountIs e w.counted in
      let (order, long) =
        finished fl d.config d.bytewise n d.received w.keyed w.entries (omega (arith, h, total)) in
      base-Whole d _
        (if_cases {A = Base Request (Params X)} (λ b. All (IsWhole n) b.answers) d.base.settled
          (λ on. w.answers)
          (λ off. ((ap (λ o. or_size o (length d.received)) e ∙ total, order, long), w.answers)))
        w

  request_missing-Whole :
      (o : Option ℕ) (count : ℕ) (d : Listing X)
      → d.count ≡ some count
      → first_missing d.received 0 count ≡ o
      → Whole d
      → Whole (request_missing fl o d)
  request_missing-Whole none count d e h w =
      finish-Whole count d e
        (covers-size count d.received
          (λ j k. first_missing-none d.received 0 count h j (omega arith) (omega (arith, k))))
        w
  request_missing-Whole (some i) count d e h w = base-Whole d _ w.answers w

  on_stall-Whole : (o : Option ℕ) (d : Listing X) → d.count ≡ o → Whole d → Whole (on_stall fl o d)
  on_stall-Whole none d e w = base-Whole d _ w.answers w
  on_stall-Whole (some count) d e w = request_missing-Whole _ count d e refl w

  receive-Whole : (v : Value X) (d : Listing X) → v.index < n → Whole d → Whole (receive v d)
  receive-Whole v d h w =
      if_cases Whole (has d.received v.index) (λ e. w)
        (λ e. record {
          same_config = w.same_config;
          counted = w.counted;
          keyed = set-Keyed d.received v.index v w.keyed;
          entries = set-IsEntry n d.received v h w.entries;
          answers = w.answers;
        })

  settle-Whole : (o : Option ℕ) (d : Listing X) → d.count ≡ o → Whole d → Whole (settle fl d)
  settle-Whole none d e w =
      if_cases Whole (is_full d.count (size d.received)) (λ h. ground (arith, e, h))
        (λ h. base-Whole d _ w.answers w)
  settle-Whole (some count) d e w =
      if_cases Whole (is_full d.count (size d.received))
        (λ h. finish-Whole count d e (ground (arith, e, h)) w) (λ h. base-Whole d _ w.answers w)

  not-false : (b : Bool) → not b ≡ false → b ≡ true
  not-false b h = ground (arith, h)

  value_told :
      (v : Value X)
      → agrees c n (arrives v) ≡ true
      → is_ours c v ≡ true
      → (v.index == param_index_none) ≡ false
      → (v.param_count ≡ n) × (v.index < n)
  value_told v h e f = ground (arith, h, e, f)

  value-Whole :
      (v : Value X) (d : Listing X)
      → agrees c n (arrives v) ≡ true
      → Whole d
      → Whole (on_value fl v d)
  unfolding on_value
  value-Whole v d h w =
      if_cases Whole (not (is_ours d.config v)) (λ e. w)
        (λ e.
          if_cases Whole (v.index == param_index_none) (λ f. w)
            (λ f.
              let told =
                value_told v h
                  (ap (λ k. is_ours k v) (sym w.same_config) ∙ not-false (is_ours d.config v) e)
                  f in
              settle-Whole _ (receive v (record d { count = some v.param_count })) refl (
                receive-Whole v (record d { count = some v.param_count }) told.1
                  (record {
                    same_config = w.same_config;
                    counted = told.0;
                    keyed = w.keyed;
                    entries = w.entries;
                    answers = w.answers;
                  }))))

  follow-answers :
      (o : Option (Cont × List Cont)) (sent_ok : Bool) (b : Base Request (Params X))
      → All (IsWhole n) b.answers
      → All (IsWhole n) (continue (follow_or (fail send_failed) sent_ok o b)).answers
  follow-answers none sent_ok b h = h
  follow-answers (some (requested, ks)) true b h = h
  follow-answers (some (k, ks)) false b h = fail-answers send_failed (record b { pending = ks }) h

  fire-Whole :
      (o : Option Act) (d : Listing X)
      → Whole d
      → Whole (act fl (fire_or (fail timed_out) d.config.max_retries o (clear_timeout d.base)) d)
  fire-Whole none d w = base-Whole d _ w.answers w
  fire-Whole (some again) d w =
      if_cases {A = Option Act × Base Request (Params X)} (λ r. Whole (act fl r d)) d.base.settled
        (λ on. base-Whole d _ w.answers w)
        (λ off.
          if_cases {A = Option Act × Base Request (Params X)} (λ r. Whole (act fl r d))
            (leb d.config.max_retries d.base.retries)
            (λ spent. base-Whole d _ (fail-answers timed_out (clear_timeout d.base) w.answers) w)
            (λ more.
              on_stall-Whole d.count
                (record d { base = record (clear_timeout d.base) { retries = suc d.base.retries } })
                refl (base-Whole d _ w.answers w)))

  step-Whole :
      (d : Listing X) (ev : Event X) → agrees c n ev ≡ true → Whole d → Whole (step fl d ev)
  unfolding step
  step-Whole d (send_ends i sent_ok) h w =
      base-Whole d _ (follow-answers _ sent_ok d.base w.answers) w
  step-Whole d timer_fires h w = fire-Whole d.base.timer d w
  step-Whole d (arrives v) h w =
      if_cases Whole (is_empty d.base.subs) (λ e. w) (λ e. value-Whole v d h w)
  step-Whole d (learns bytewise) h w = record {
    same_config = w.same_config;
    counted = w.counted;
    keyed = w.keyed;
    entries = w.entries;
    answers = w.answers;
  }
  step-Whole d aborts h w = base-Whole d _ (fail-answers _ d.base w.answers) w

  run-Whole :
      (d : Listing X) (evs : List (Event X))
      → all_agree c n evs ≡ true
      → Whole d
      → Whole (run fl d evs)
  unfolding run
  run-Whole d [] h w = w
  run-Whole d (ev ∷ evs) h w =
      run-Whole (step fl d ev) evs (ground (arith, h)) (step-Whole d ev (ground (arith, h)) w)

  start-Whole :
      (bytewise : Bool) (link_subs : List ℕ) (next_sub : ℕ)
      → Whole (start c bytewise link_subs next_sub)
  unfolding start finish
  start-Whole bytewise link_subs next_sub =
      let d : Listing X = new_listing c bytewise link_subs next_sub in
      let w : Whole d = record {
        same_config = refl;
        counted = tt;
        keyed = tt;
        entries = tt;
        answers = tt;
      } in
      if_cases Whole (ltb 255 c.target_system) (λ e. base-Whole d _ (tt, tt) w)
        (λ e. base-Whole d _ tt w)

  -- The vehicle has `n` parameters and tells so: every value that the listing reads counts `n`, and
  -- has an index below `n` or none. Then after run() and any events, a list that is returned has
  -- exactly the indices 0, 1, ..., n - 1, each once and in order.
  pub list_complete :
      (bytewise : Bool) (link_subs : List ℕ) (next_sub : ℕ) (evs : List (Event X)) (r : Params X)
      → all_agree c n evs ≡ true
      → (run fl (start c bytewise link_subs next_sub) evs).base.answers ≡ done r ∷ []
      → (r.count ≡ n) × InOrder 0 r.params × (length r.params ≡ n)
  list_complete bytewise link_subs next_sub evs r h e =
      let w = run-Whole _ evs h (start-Whole bytewise link_subs next_sub) in
      (subst (All (IsWhole n)) e w.answers).0
