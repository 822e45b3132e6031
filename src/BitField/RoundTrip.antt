-- ===== src/BitField/RoundTrip.antt =====
-- Packed bit fields are read back: `decode_packed_bit_field_u64` after
-- `encode_packed_bit_field_bytes`.
use aitest.Prelude.{
  ℕ, zero, suc, ◌+◌, ◌-◌, ◌*◌, ◌/◌, ◌%◌, ◌^◌, ◌≤◌, ◌<◌, ◌≡◌, refl, ap, ◌∙◌, arith, bit_and, Bool,
  true, false, List, [], ◌∷◌, ltb, leb, ◌==◌, if◌then◌else◌, Bool-cases, inl, inr,
}
use aitest.Schema.{
  BitOrder, most_significant_bit_first, least_significant_bit_first, ByteOrder, big_endian,
  little_endian,
}
use aitest.Bits.{bit_and_mask}
use aitest.Bits.Byte.{all_below, all_below-at}
use aitest.Cursor.Bytes.{div_ceil_8}
use aitest.BitField.{
  bit_mask, fill_rounds, shl_byte, shr_byte, place_fragment, take_fragment, swap_bytes, pad_value,
  unpad_value, encode_packed_bit_field_bytes, decode_packed_bit_field_u64, join_bytes,
}
use aitest.BitField.Bytes.{pow_byte, fill_rounds-first, join_bytes-fill_rounds}
use aitest.Bits.Word.{pow_mono}
use native.Mathlib.Nat.{
  pow-suc, pow-le-pow_right, one-le-pow, mul-div_cancel, mul_comm, div-lt_iff_lt-mul, mod-eq_of_lt,
  mod-mod, mod-lt,
}
use mathlib.Core.List.{reverse-reverse}

pub bit_mask_lem : (v w : ℕ) → w ≤ 64 → bit_and v (bit_mask w) ≡ v % 2 ^ w
unfolding bit_mask
bit_mask_lem v w h = elim (Bool-cases (leb 64 w)) [
  | inl full ↦ let e : w ≡ 64 = ground arith in rw e (bit_and_mask 64 v)
  | inr part ↦ rw part (bit_and_mask w v)
]

-- `j` whole bytes and `f` bits.
pow_bits : (j f : ℕ) → 2 ^ (j * 8 + f) ≡ 256 ^ j * 2 ^ f
pow_bits j zero = let e : j * 8 + 0 ≡ j * 8 = omega arith in rw (e, pow_byte j) (omega arith)
pow_bits j (suc f) =
    let e : j * 8 + suc f ≡ suc (j * 8 + f) = omega arith in
    rw (e, pow-suc) (omega (arith, pow_bits j f, ap (λ (t : ℕ). 256 ^ j * t) (pow-suc 2 f)))

shift_back : ℕ → ℕ → Bool
shift_back f x = if ltb x (2 ^ f) then shr_byte (8 - f) (shl_byte (8 - f) x) == x else true

shift_back_table : all_below 9 (λ f. all_below 256 (shift_back f)) ≡ true
unfolding all_below shift_back
shift_back_table = refl

shift_back_lem : (f x : ℕ) → f ≤ 8 → x < 256 → x < 2 ^ f → shr_byte (8 - f) (shl_byte (8 - f) x) ≡ x
unfolding shift_back
shift_back_lem f x hf hx h =
    ground (arith, all_below-at 256 _ x (all_below-at 9 _ f shift_back_table (omega arith)) hx)

pow_pair_table : all_below 9 (λ f. 2 ^ f * 2 ^ (8 - f) == 256) ≡ true
unfolding all_below
pow_pair_table = refl

pow_pair : (f : ℕ) → f ≤ 8 → 2 ^ f * 2 ^ (8 - f) ≡ 256
pow_pair f h =
    ground (arith, all_below-at 9 (λ f. 2 ^ f * 2 ^ (8 - f) == 256) f pow_pair_table (omega arith))

swap_twice :
    (w : ℕ) (order : ByteOrder) (b : List ℕ) → swap_bytes w order (swap_bytes w order b) ≡ b
unfolding swap_bytes
swap_twice w big_endian b = refl
swap_twice w little_endian b = ground (arith, reverse-reverse b)

mul_lt : (a b p : ℕ) → a < b → 1 ≤ p → a * p < b * p
mul_lt a b p h hp = grind arith

-- A field of `j` whole bytes and a fragment of `f` bits, in `j + 1` bytes.
module _ (j f m : ℕ) (hj : j < 8) (hf : f < 8) (fits : m < 2 ^ (j * 8 + f)) where
  fits_bytes : m < 256 ^ j * 2 ^ f
  fits_bytes = rw (pow_bits j f) at fits

  within : m % 256 ^ suc j ≡ m
  within =
      let byte : 2 ^ f ≤ 2 ^ 8 = pow_mono f 8 (omega arith) in
      let room : 256 ^ j * 2 ^ f ≤ 256 ^ j * 256 = grind arith in
      mod-eq_of_lt (omega (arith, fits_bytes, pow-suc 256 j))

  first_byte-lt : m / 256 ^ j % 256 < 2 ^ f
  first_byte-lt =
      let high : m / 256 ^ j < 2 ^ f =
        (div-lt_iff_lt-mul (one-le-pow j 256 (omega arith))).1
          (rw (mul_comm (2 ^ f) (256 ^ j)) fits_bytes) in
      omega arith

  fragment_first :
      take_fragment little_endian most_significant_bit_first f
        (place_fragment little_endian most_significant_bit_first f (fill_rounds (suc j) m []))
      ≡ fill_rounds (suc j) m []
  unfolding take_fragment place_fragment
  fragment_first = rw (fill_rounds-first j m []) (
      ap (λ b. b ∷ fill_rounds j m [])
        (shift_back_lem f (m / 256 ^ j % 256) (omega arith) (omega arith) first_byte-lt))

  padded : m * 2 ^ (8 - f) < 256 ^ suc j
  padded =
      let whole : 256 ^ j * (2 ^ f * 2 ^ (8 - f)) ≡ 256 ^ j * 256 =
        ap (λ (t : ℕ). 256 ^ j * t) (pow_pair f (omega arith)) in
      let some_shift : 1 ≤ 2 ^ (8 - f) = one-le-pow (8 - f) 2 (omega arith) in
      let less : m * 2 ^ (8 - f) < 256 ^ j * 2 ^ f * 2 ^ (8 - f) =
        mul_lt m (256 ^ j * 2 ^ f) (2 ^ (8 - f)) fits_bytes some_shift in
      omega (arith, pow-suc 256 j)

  fragment_back :
      (byte_order : ByteOrder) (bit_order : BitOrder)
      → (byte_order ≡ big_endian → bit_order ≡ least_significant_bit_first → f ≡ 0)
      → 0 < f
      → unpad_value byte_order bit_order f (
          join_bytes 0 (
            take_fragment byte_order bit_order f (
              place_fragment byte_order bit_order f
                (fill_rounds (suc j) (pad_value byte_order bit_order f m) []))))
        ≡ m
  fragment_back big_endian most_significant_bit_first ok hp =
      let top : 256 ^ suc j ≤ 256 ^ 8 = pow-le-pow_right (omega arith) hj in
      let word : m * 2 ^ (8 - f) % 2 ^ 64 ≡ m * 2 ^ (8 - f) = omega (arith, padded) in
      let bytes : m * 2 ^ (8 - f) % 256 ^ suc j ≡ m * 2 ^ (8 - f) = mod-eq_of_lt padded in
      unfold pad_value unpad_value take_fragment place_fragment in
      rw (word, join_bytes-fill_rounds (m * 2 ^ (8 - f)) (suc j) hj, bytes)
        (mul-div_cancel m (one-le-pow (8 - f) 2 (omega arith)))
  fragment_back big_endian least_significant_bit_first ok hp = absurd (omega (arith, ok refl refl))
  fragment_back little_endian most_significant_bit_first ok hp =
      unfold pad_value unpad_value in
      rw fragment_first (join_bytes-fill_rounds m (suc j) hj ∙ within)
  fragment_back little_endian least_significant_bit_first ok hp =
      unfold pad_value unpad_value take_fragment place_fragment in
      join_bytes-fill_rounds m (suc j) hj ∙ within

-- The width splits into whole bytes and a fragment.
plain_back :
    (value w : ℕ) (byte_order : ByteOrder) (bit_order : BitOrder)
    → 0 < w
    → w ≤ 64
    → (w % 8 == 0) ≡ true
    → decode_packed_bit_field_u64
        (encode_packed_bit_field_bytes value w byte_order bit_order)
        w
        byte_order
        bit_order
      ≡ value % 2 ^ w
unfolding encode_packed_bit_field_bytes decode_packed_bit_field_u64
plain_back value w byte_order bit_order hp hw whole =
    let some_bits : (w == 0) ≡ false = ground arith in
    let whole_bytes : div_ceil_8 w ≡ w / 8 = ground arith in
    let split : w / 8 * 8 ≡ w = ground arith in
    rw
      (
        some_bits,
        whole,
        swap_twice,
        bit_mask_lem value w hw,
        whole_bytes,
        join_bytes-fill_rounds _ (w / 8) (omega arith),
        ← pow_byte (w / 8),
        split,
        bit_mask_lem _ w hw,
      )
      (rw (mod-mod, mod-mod))

fragment_in :
    (value w : ℕ) (byte_order : ByteOrder) (bit_order : BitOrder)
    → 0 < w
    → w ≤ 64
    → (w % 8 == 0) ≡ false
    → (byte_order ≡ big_endian → bit_order ≡ least_significant_bit_first → w % 8 ≡ 0)
    → decode_packed_bit_field_u64
        (encode_packed_bit_field_bytes value w byte_order bit_order)
        w
        byte_order
        bit_order
      ≡ value % 2 ^ w
unfolding encode_packed_bit_field_bytes decode_packed_bit_field_u64
fragment_in value w byte_order bit_order hp hw part allowed =
    let some_bits : (w == 0) ≡ false = ground arith in
    let bytes : div_ceil_8 w ≡ suc (w / 8) = ground arith in
    let split : w / 8 * 8 + w % 8 ≡ w = omega arith in
    let inside : value % 2 ^ w < 2 ^ (w / 8 * 8 + w % 8) =
      rw split (mod-lt value (one-le-pow w 2 (omega arith))) in
    rw
      (
        some_bits,
        part,
        swap_twice,
        bit_mask_lem value w hw,
        bytes,
        fragment_back (w / 8) (w % 8) (value % 2 ^ w) (ground arith) (omega arith) inside byte_order
            bit_order allowed (ground arith),
        bit_mask_lem _ w hw,
      )
      (rw mod-mod)

-- A field that fits its bytes is read back, in every byte order and bit order but big-endian bytes
-- with the least significant bit first, where the width must be a number of whole bytes: the
-- result is the low `bit_width` bits of the value, for every width up to 64.
pub decode-encode :
    (value bit_width : ℕ) (byte_order : ByteOrder) (bit_order : BitOrder)
    → bit_width ≤ 64
    → (byte_order ≡ big_endian → bit_order ≡ least_significant_bit_first → bit_width % 8 ≡ 0)
    → decode_packed_bit_field_u64
        (encode_packed_bit_field_bytes value bit_width byte_order bit_order)
        bit_width
        byte_order
        bit_order
      ≡ value % 2 ^ bit_width
decode-encode value bit_width byte_order bit_order fits ok = elim (Bool-cases (bit_width == 0)) [
  | inl none_at_all ↦
      let e : bit_width ≡ 0 = ground arith in
      rw e (unfold decode_packed_bit_field_u64 in omega arith)
  | inr some_bits ↦ elim (Bool-cases (bit_width % 8 == 0)) [
    | inl whole ↦ plain_back value bit_width byte_order bit_order (ground arith) fits whole
    | inr part ↦ fragment_in value bit_width byte_order bit_order (ground arith) fits part ok
  ]
]
