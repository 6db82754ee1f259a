-- ===== src/Mission/Download/Heard.antt =====
-- The messages that a download of lib/mission/mission-download.js was given, and those that its count
-- and its items come from.
use node_red_contrib_mavlink.Common.{ℕ, ◌≡◌, ◌⊎◌, inl, inr, refl, List, [], ◌∷◌, All, All-map}
use node_red_contrib_mavlink.Mission.{
  Config, Name, mission_count, mission_item, mission_item_int, Payload, Answer, done, failed_with,
}
use node_red_contrib_mavlink.Mission.Sender.{Genuine}
use node_red_contrib_mavlink.Mission.Download.{
  Item, Mission, Event, send_ends, timer_fires, arrives, aborts,
}

abbrev pub IsItem : Name → Type 0
IsItem mission_item = Unit
IsItem mission_item_int = Unit
IsItem _ = ⊥

module _ {I : Type 0} where
  abbrev pub Arrived : Payload I → List (Event I) → Type 0
  Arrived m [] = ⊥
  Arrived m (arrives n ∷ evs) = (n ≡ m) ⊎ Arrived m evs
  Arrived m (send_ends n sent_ok ∷ evs) = Arrived m evs
  Arrived m (timer_fires ∷ evs) = Arrived m evs
  Arrived m (aborts ∷ evs) = Arrived m evs

  module _ (c : Config) where
    -- The vehicle announced that many items.
    abbrev pub Announced : (Payload I → Type 0) → ℕ → Type 0
    Announced P n = (m : Payload I) × P m × (m.name ≡ mission_count) × Genuine c m × (m.count ≡ n)

    -- The vehicle sent this item.
    abbrev pub Delivered : (Payload I → Type 0) → Item I → Type 0
    Delivered P x =
        (m : Payload I) × P m
        × IsItem m.name
        × Genuine c m
        × (m.seq ≡ x.seq)
        × (m.content ≡ x.content)
        × (m.name ≡ x.wire_message)

    -- A finished download tells what was announced and delivered.
    abbrev pub Told : (Payload I → Type 0) → Answer (Mission I) → Type 0
    Told P (done r) = Announced P r.count × All (Delivered P) r.items
    Told P (failed_with f) = Unit

  abbrev pub IsFrom : (Payload I → Type 0) → Event I → Type 0
  IsFrom P (arrives m) = P m
  IsFrom P (send_ends n sent_ok) = Unit
  IsFrom P timer_fires = Unit
  IsFrom P aborts = Unit

  IsFrom-later :
      (ev e : Event I) (evs : List (Event I))
      → IsFrom (λ m. Arrived m evs) e
      → IsFrom (λ m. Arrived m (ev ∷ evs)) e
  IsFrom-later (arrives n) (arrives m) evs h = inr h
  IsFrom-later (send_ends n sent_ok) (arrives m) evs h = h
  IsFrom-later timer_fires (arrives m) evs h = h
  IsFrom-later aborts (arrives m) evs h = h
  IsFrom-later ev (send_ends n sent_ok) evs h = tt
  IsFrom-later ev timer_fires evs h = tt
  IsFrom-later ev aborts evs h = tt

  IsFrom-now : (ev : Event I) (evs : List (Event I)) → IsFrom (λ m. Arrived m (ev ∷ evs)) ev
  IsFrom-now (arrives m) evs = inl refl
  IsFrom-now (send_ends n sent_ok) evs = tt
  IsFrom-now timer_fires evs = tt
  IsFrom-now aborts evs = tt

  pub all-IsFrom : (evs : List (Event I)) → All (IsFrom (λ m. Arrived m evs)) evs
  all-IsFrom [] = tt
  all-IsFrom (ev ∷ evs) =
      (IsFrom-now ev evs, All-map _ _ (λ e. IsFrom-later ev e evs) evs (all-IsFrom evs))
