-- ===== src/Param/Heard.antt =====
-- The values that a parameter workflow of lib/param/param-workflow.js has been given.
use node_red_contrib_mavlink.Common.{◌≡◌, ◌⊎◌, inl, inr, refl, List, [], ◌∷◌, All, All-map}
use node_red_contrib_mavlink.Param.{Value, Event, send_ends, timer_fires, arrives, learns, aborts}

module _ {X : Type 0} where
  abbrev pub Arrived : Value X → List (Event X) → Type 0
  Arrived v [] = ⊥
  Arrived v (arrives w ∷ evs) = (w ≡ v) ⊎ Arrived v evs
  Arrived v (send_ends n sent_ok ∷ evs) = Arrived v evs
  Arrived v (timer_fires ∷ evs) = Arrived v evs
  Arrived v (learns bytewise ∷ evs) = Arrived v evs
  Arrived v (aborts ∷ evs) = Arrived v evs

  -- An event that brings only values with a property.
  abbrev pub IsFrom : (Value X → Type 0) → Event X → Type 0
  IsFrom P (arrives v) = P v
  IsFrom P (send_ends n sent_ok) = Unit
  IsFrom P timer_fires = Unit
  IsFrom P (learns bytewise) = Unit
  IsFrom P aborts = Unit

  Arrived-later :
      (ev : Event X) (v : Value X) (evs : List (Event X)) → Arrived v evs → Arrived v (ev ∷ evs)
  Arrived-later (arrives w) v evs h = inr h
  Arrived-later (send_ends n sent_ok) v evs h = h
  Arrived-later timer_fires v evs h = h
  Arrived-later (learns bytewise) v evs h = h
  Arrived-later aborts v evs h = h

  IsFrom-later :
      (ev e : Event X) (evs : List (Event X))
      → IsFrom (λ v. Arrived v evs) e
      → IsFrom (λ v. Arrived v (ev ∷ evs)) e
  IsFrom-later ev (arrives v) evs h = Arrived-later ev v evs h
  IsFrom-later ev (send_ends n sent_ok) evs h = tt
  IsFrom-later ev timer_fires evs h = tt
  IsFrom-later ev (learns bytewise) evs h = tt
  IsFrom-later ev aborts evs h = tt

  IsFrom-now : (ev : Event X) (evs : List (Event X)) → IsFrom (λ v. Arrived v (ev ∷ evs)) ev
  IsFrom-now (arrives v) evs = inl refl
  IsFrom-now (send_ends n sent_ok) evs = tt
  IsFrom-now timer_fires evs = tt
  IsFrom-now (learns bytewise) evs = tt
  IsFrom-now aborts evs = tt

  pub all-IsFrom : (evs : List (Event X)) → All (IsFrom (λ v. Arrived v evs)) evs
  all-IsFrom [] = tt
  all-IsFrom (ev ∷ evs) =
      (IsFrom-now ev evs, All-map _ _ (λ e. IsFrom-later ev e evs) evs (all-IsFrom evs))
