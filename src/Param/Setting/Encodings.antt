-- ===== src/Param/Setting/Encodings.antt =====
-- The answers of the resolver of the integer encoding that a ParamSet (lib/param/param-workflow.js) gets.
use node_red_contrib_mavlink.Common.{◌≡◌, refl, ◌⊎◌, inl, inr, Bool, List, [], ◌∷◌, All}
use node_red_contrib_mavlink.Param.{Event, send_ends, timer_fires, arrives, learns, aborts}

module _ {X : Type 0} where
  -- The resolver of the integer encoding gave this answer, at the start or later.
  abbrev pub Learned : Bool → Bool → List (Event X) → Type 0
  Learned first b [] = b ≡ first
  Learned first b (learns x ∷ evs) = (b ≡ first) ⊎ Learned x b evs
  Learned first b (send_ends n sent_ok ∷ evs) = Learned first b evs
  Learned first b (timer_fires ∷ evs) = Learned first b evs
  Learned first b (arrives v ∷ evs) = Learned first b evs
  Learned first b (aborts ∷ evs) = Learned first b evs

  -- An event after which the answers are among those of a predicate.
  abbrev pub IsKnown : (Bool → Type 0) → Event X → Type 0
  IsKnown S (learns b) = S b
  IsKnown S _ = Unit

  pub Learned-first : (b : Bool) (evs : List (Event X)) → Learned b b evs
  Learned-first b [] = refl
  Learned-first b (learns x ∷ evs) = inl refl
  Learned-first b (send_ends n sent_ok ∷ evs) = Learned-first b evs
  Learned-first b (timer_fires ∷ evs) = Learned-first b evs
  Learned-first b (arrives v ∷ evs) = Learned-first b evs
  Learned-first b (aborts ∷ evs) = Learned-first b evs

  pub all-IsKnown :
      (S : Bool → Type 0) (first : Bool) (evs : List (Event X))
      → ((b : Bool) → Learned first b evs → S b)
      → All (IsKnown S) evs
  all-IsKnown S first [] f = tt
  all-IsKnown S first (learns x ∷ evs) f =
      (f x (inr (Learned-first x evs)), all-IsKnown S x evs (λ b l. f b (inr l)))
  all-IsKnown S first (send_ends n sent_ok ∷ evs) f = (tt, all-IsKnown S first evs f)
  all-IsKnown S first (timer_fires ∷ evs) f = (tt, all-IsKnown S first evs f)
  all-IsKnown S first (arrives v ∷ evs) f = (tt, all-IsKnown S first evs f)
  all-IsKnown S first (aborts ∷ evs) f = (tt, all-IsKnown S first evs f)
