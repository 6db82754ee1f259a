-- ===== src/Param/Union.antt =====
-- lib/param/param-workflow.js: the integer parameter types and their bytes in the 4-byte union.
use node_red_contrib_mavlink.Common.{
  ℕ, suc, ◌+◌, ◌-◌, ◌%◌, ◌<◌, ◌≡◌, Bool, true, ◌&&◌, Option, none, some, arith, ltb, if◌then◌else◌,
  ℤ, pos, negsuc, leb_ℤ,
}

-- The keys of INTEGER_PARAM_POLICY, each naming its DataView accessors.
pub data View : Type 0 where
  uint8 int8 uint16 int16 uint32 int32 : View

-- How many values a view has.
abbrev pub modulus : View → ℕ
modulus uint8 = 256
modulus int8 = 256
modulus uint16 = 65536
modulus int16 = 65536
modulus uint32 = 4294967296
modulus int32 = 4294967296

abbrev pub range : View → ℤ × ℤ
range uint8 = (pos 0, pos 255)
range int8 = (negsuc 127, pos 127)
range uint16 = (pos 0, pos 65535)
range int16 = (negsuc 32767, pos 32767)
range uint32 = (pos 0, pos 4294967295)
range int32 = (negsuc 2147483647, pos 2147483647)

abbrev pub in_range : View → ℤ → Bool
in_range v z = let (low, high) = range v in leb_ℤ low z && leb_ℤ z high

-- What a DataView setter leaves of an integer: its residue.
abbrev pub wrap : ℕ → ℤ → ℕ
wrap m (pos n) = n % m
wrap m (negsuc n) = m - suc (n % m)

-- What a signed getter reads, with `half` the first negative value.
abbrev pub signed : ℕ → ℕ → ℤ
signed half n = if ltb n half then pos n else negsuc (half + half - suc n)

-- The setter of a view, on zeroed bytes, and then `getUint32`.
unfoldable pub set_view : View → ℤ → ℕ
set_view v z = wrap (modulus v) z

-- The getter of a view, on the bytes of `setUint32`.
unfoldable pub get_view : View → ℕ → ℤ
get_view uint8 n = pos (n % 256)
get_view int8 n = signed 128 (n % 256)
get_view uint16 n = pos (n % 65536)
get_view int16 n = signed 32768 (n % 65536)
get_view uint32 n = pos (n % 4294967296)
get_view int32 n = signed 2147483648 (n % 4294967296)

-- `unionIntToBits`; without a view it is `>>> 0`.
unfoldable pub union_int_to_bits : Option View → ℤ → ℕ
union_int_to_bits none z = wrap 4294967296 z
union_int_to_bits (some v) z = set_view v z

-- `unionBitsToInt`
unfoldable pub union_bits_to_int : Option View → ℕ → ℤ
union_bits_to_int none n = pos n
union_bits_to_int (some v) n = get_view v n

-- Every integer that the range check lets through is read back from its bits, which are 32.
get_view-set_view :
    (v : View) (z : ℤ)
    → in_range v z ≡ true
    → (get_view v (set_view v z) ≡ z) × (set_view v z < 4294967296)
unfolding get_view set_view
get_view-set_view uint8 (pos n) h = ground arith
get_view-set_view uint8 (negsuc n) h = ground arith
get_view-set_view int8 (pos n) h = ground arith
get_view-set_view int8 (negsuc n) h = ground arith
get_view-set_view uint16 (pos n) h = ground arith
get_view-set_view uint16 (negsuc n) h = ground arith
get_view-set_view int16 (pos n) h = ground arith
get_view-set_view int16 (negsuc n) h = ground arith
get_view-set_view uint32 (pos n) h = ground arith
get_view-set_view uint32 (negsuc n) h = ground arith
get_view-set_view int32 (pos n) h = ground arith
get_view-set_view int32 (negsuc n) h = ground arith

-- An integer in the range of its type is read back unchanged from the bits of its union, which
-- are at most 32.
pub union_round_trip :
    (v : View) (z : ℤ)
    → in_range v z ≡ true
    → (union_bits_to_int (some v) (union_int_to_bits (some v) z) ≡ z)
      × (union_int_to_bits (some v) z < 4294967296)
unfolding union_int_to_bits union_bits_to_int
union_round_trip v z h = get_view-set_view v z h
