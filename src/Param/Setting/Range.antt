-- ===== src/Param/Setting/Range.antt =====
-- The range test of ParamSet (lib/param/param-workflow.js) against the widths of the integer types.
use node_red_contrib_mavlink.Common.{
  ℕ, ◌-◌, ◌^◌, ◌≡◌, refl, ap, ◌∙◌, Bool, true, false, some, List, [], ◌∷◌, arith, ltb, ℤ, pos,
  negsuc,
}
use node_red_contrib_mavlink.Param.{
  Config, Num, whole, other, Event, Floats, failed_with, out_of_range,
}
use node_red_contrib_mavlink.Param.Union.{View, uint8, int8, uint16, int16, uint32, int32, in_range}
use node_red_contrib_mavlink.Param.Setting.{Target, start, run, new_setting, policy, fits}
use node_red_contrib_mavlink.Param.Setting.Sent.{start-Refused, run-Refused}

-- The bits of a type, and whether one of them is the sign.
abbrev pub width : View → ℕ
width uint8 = 8
width int8 = 8
width uint16 = 16
width int16 = 16
width uint32 = 32
width int32 = 32

abbrev pub is_signed : View → Bool
is_signed uint8 = false
is_signed int8 = true
is_signed uint16 = false
is_signed int16 = true
is_signed uint32 = false
is_signed int32 = true

-- The integers of `bits` bits, in two's complement if they are signed.
abbrev pub holds : ℕ → Bool → ℤ → Bool
holds bits false (pos n) = ltb n (2 ^ bits)
holds bits false (negsuc n) = false
holds bits true (pos n) = ltb n (2 ^ (bits - 1))
holds bits true (negsuc n) = ltb n (2 ^ (bits - 1))

abbrev pub holds_num : {X : Type 0} → View → Num X → Bool
holds_num view (whole z) = holds (width view) (is_signed view) z
holds_num view (other x) = false

in_range-holds : (view : View) (z : ℤ) → in_range view z ≡ holds (width view) (is_signed view) z
in_range-holds uint8 (pos n) = ground arith
in_range-holds uint8 (negsuc n) = ground arith
in_range-holds int8 (pos n) = ground arith
in_range-holds int8 (negsuc n) = ground arith
in_range-holds uint16 (pos n) = ground arith
in_range-holds uint16 (negsuc n) = ground arith
in_range-holds int16 (pos n) = ground arith
in_range-holds int16 (negsuc n) = ground arith
in_range-holds uint32 (pos n) = ground arith
in_range-holds uint32 (negsuc n) = ground arith
in_range-holds int32 (pos n) = ground arith
in_range-holds int32 (negsuc n) = ground arith

fits-holds :
    {X : Type 0} (view : View) (value : Num X) → fits (some view) value ≡ holds_num view value
fits-holds view (whole z) = in_range-holds view z
fits-holds view (other x) = refl

module _ {X : Type 0} (fl : Floats X) (c : Config) (t : Target X) where
  -- A value that is no integer of as many bits as its integer type has, signed or not as that is,
  -- is refused: whatever happens then, nothing is sent, and the only answer is the range error.
  pub misfit_is_refused :
      (view : View) (bytewise : Bool) (link_subs : List ℕ) (next_sub : ℕ) (evs : List (Event X))
      → policy c t.type_num ≡ some view
      → holds_num view t.value ≡ false
      → ((run fl (start fl (new_setting fl c bytewise t link_subs next_sub)) evs).base.sent ≡ [])
        × ((run fl (start fl (new_setting fl c bytewise t link_subs next_sub)) evs).base.answers
            ≡ failed_with out_of_range ∷ [])
  misfit_is_refused view bytewise link_subs next_sub evs e h =
      let no_fit : fits (policy c t.type_num) t.value ≡ false =
        ap (λ o. fits o t.value) e ∙ fits-holds view t.value ∙ h in
      let S : Bool → Type 0 = λ b. Unit in
      let w =
        run-Refused fl c t S no_fit _ evs
          (start-Refused fl c t S no_fit bytewise link_subs next_sub) in
      (w.4, w.5)
