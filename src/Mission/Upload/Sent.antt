-- ===== src/Mission/Upload/Sent.antt =====
-- The messages of lib/mission/mission-upload.js and what its counters say of them.
use node_red_contrib_mavlink.Common.{
  ℕ, suc, ◌-◌, ◌≤◌, ◌<◌, max, ◌≡◌, ◌⊎◌, inl, inr, subst, Bool, false, some, List, ◌∷◌, arith, tally,
  Bool-cases, length, get_elem?, ltb, ◌==◌,
}
use node_red_contrib_mavlink.Mission.{Answer, done, failed_with}
use node_red_contrib_mavlink.Mission.Upload.{Msg, count_msg, item_msg}

module _ {I : Type 0} where
  abbrev pub is_item : ℕ → Msg I → Bool
  is_item i (count_msg n) = false
  is_item i (item_msg b seq x) = seq == i

  -- A message of this mission: its count, or an item under its own index.
  abbrev pub IsOurs : List I → Msg I → Type 0
  IsOurs items (count_msg n) = n ≡ length items
  IsOurs items (item_msg b seq x) = get_elem? items seq ≡ some x

  -- The last item was sent, or there is none.
  abbrev pub LastSent : List I → List (Msg I) → Type 0
  LastSent items sent = (length items ≡ 0) ⊎ (0 < tally (is_item (length items - 1)) sent)

  abbrev pub IsHonest : List I → List (Msg I) → Answer ℕ → Type 0
  IsHonest items sent (done n) = (n ≡ length items) × LastSent items sent
  IsHonest items sent (failed_with f) = Unit

  -- The part of the invariant that the settlement ends: what the counters say.
  pub record Open (items : List I) (max_retries sent_to item_sends : ℕ) (sent : List (Msg I))
      (answered : ℕ) : Type 0 where
    pub counted : item_sends ≡ answered
    pub reached : 0 < sent_to → (sent_to ≤ length items) × (0 < tally (is_item (sent_to - 1)) sent)

  pub LastSent-cons :
      (items : List I) (sent : List (Msg I)) (m : Msg I)
      → LastSent items sent
      → LastSent items (m ∷ sent)
  LastSent-cons items sent m (inl e) = inl e
  LastSent-cons items sent m (inr h) = inr (ground arith)

  pub IsHonest-cons :
      (items : List I) (sent : List (Msg I)) (m : Msg I) (a : Answer ℕ)
      → IsHonest items sent a
      → IsHonest items (m ∷ sent) a
  IsHonest-cons items sent m (done n) h = (h.0, LastSent-cons items sent m h.1)
  IsHonest-cons items sent m (failed_with f) h = tt

  pub Open-cons :
      (items : List I) (max_retries sent_to item_sends : ℕ) (sent : List (Msg I)) (answered : ℕ)
      (m : Msg I)
      → Open items max_retries sent_to item_sends sent answered
      → Open items max_retries sent_to item_sends (m ∷ sent) answered
  Open-cons items max_retries sent_to item_sends sent answered m o = record {
    counted = o.counted;
    reached = λ h. ((o.reached h).0, ground (arith, (o.reached h).1));
  }

  -- The item of the highest index that was asked for was sent.
  pub reached_max :
      (items : List I) (sent_to seq : ℕ) (use_int : Bool) (x : I) (sent : List (Msg I))
      → seq < length items
      → (0 < sent_to → (sent_to ≤ length items) × (0 < tally (is_item (sent_to - 1)) sent))
      → (max sent_to (suc seq) ≤ length items)
        × (0 < tally (is_item (max sent_to (suc seq) - 1)) (item_msg use_int seq x ∷ sent))
  reached_max items sent_to seq use_int x sent h k =
      let P : ℕ → Type 0 =
        λ n. (n ≤ length items) × (0 < tally (is_item (n - 1)) (item_msg use_int seq x ∷ sent)) in
      elim (Bool-cases (ltb (suc seq) sent_to)) [
        | inl e ↦
            let (low, hit) = k (ground arith) in
            subst P {x = sent_to} (ground arith) (low, ground arith)
        | inr e ↦ subst P {x = suc seq} (ground arith) (h, ground arith)
      ]
