-- ===== src/Packed/Ibm4690.antt =====
-- IBM 4690 numbers are read back: `ibm4690_to_digit_string` after `encode_ibm4690_magnitude` of
-- dfdl-vm/src/vm/packed_decimal.rs.
use aitest.Prelude.{
  ℕ, suc, ◌+◌, ◌-◌, ◌*◌, ◌^◌, ◌≤◌, ◌<◌, ◌≡◌, refl, ap, arith, Bool, true, false, ◌||◌, List, [],
  ◌++◌, length, length-append, length-replicate, replicate, ltb,
}
use aitest.Error.{ok, ◌>>=◌}
use aitest.Text.{fit_width, u64_to_string}
use aitest.Text.Decimal.{padded, replicate-padded, u64_to_string-IsPrint}
use aitest.Packed.{Scan, order_bytes, ibm4690_to_digit_string}
use aitest.Packed.Encode.{nibble_bytes, encode_ibm4690_magnitude}
use aitest.Packed.Pairs.{order_bytes_twice}
use native.Mathlib.Nat.{le_trans, pow-le-pow_right}
use aitest.Packed.Nibbles.{
  Reads, Reads-fill, digit_nibbles-padded, length-digits_of, scan_bytes-steps, sign_width,
  sign_width-le, signed_nibbles,
}

length-signed_nibbles :
    (negative : Bool) (k n : ℕ) → length (signed_nibbles negative k n) ≡ sign_width negative + k
unfolding signed_nibbles sign_width
length-signed_nibbles false k n = omega (arith, length-digits_of k n)
length-signed_nibbles true k n = omega (arith, length-digits_of k n)

sign_width-zeros :
    (negative : Bool) (k n : ℕ)
    → n < 10 ^ k
    → replicate (sign_width negative) b'0' ++ padded k n ≡ padded (sign_width negative + k) n
sign_width-zeros negative k n h = replicate-padded (sign_width negative) k n h

-- The nibbles that are written: filled up, the sign, and the digits.
filled : ℕ → Bool → ℕ → ℕ → List ℕ
filled width negative k n =
    replicate (width - (sign_width negative + k)) 0x0f ++ signed_nibbles negative k n

length-filled :
    (width : ℕ) (negative : Bool) (k n : ℕ)
    → sign_width negative + k ≤ width
    → length (filled width negative k n) ≡ width
unfolding filled
length-filled width negative k n h =
    rw (length-append, length-replicate, length-signed_nibbles) (omega arith)

fit_width-filled :
    (width : ℕ) (negative : Bool) (k n : ℕ)
    → sign_width negative + k ≤ width
    → fit_width 0x0f width (signed_nibbles negative k n) ≡ filled width negative k n
unfolding fit_width filled
fit_width-filled width negative k n h =
    let t : ltb width (sign_width negative + k) ≡ false = ground arith in
    rw (length-signed_nibbles, t) refl

encode :
    (magnitude : ℕ) (negative : Bool) (w : ℕ) (le : Bool) (k : ℕ)
    → u64_to_string magnitude ≡ padded k magnitude
    → sign_width negative + k ≤ suc w * 2
    → encode_ibm4690_magnitude magnitude negative (suc w) le
      ≡ ok (order_bytes (nibble_bytes (filled (suc w * 2) negative k magnitude)) le)
unfolding encode_ibm4690_magnitude
encode magnitude negative w le k print h =
    rw (print, digit_nibbles-padded)
      (ap (λ ns. ok (order_bytes (nibble_bytes ns) le))
        (unfold signed_nibbles in fit_width-filled (suc w * 2) negative k magnitude h))

abbrev begin : Scan
begin = record { negative = false; in_digits = false; out = [] }

or_false : (b : Bool) → (b || false) ≡ b
or_false true = refl
or_false false = refl

Reads-filled :
    (width : ℕ) (negative : Bool) (k n : ℕ)
    → n < 10 ^ k
    → sign_width negative + k ≤ width
    → Reads (filled width negative k n) begin negative (padded width n)
unfolding filled
Reads-filled width negative k n room h =
    let more : n < 10 ^ (sign_width negative + k) =
      le_trans room (pow-le-pow_right (omega arith) (omega arith)) in
    let whole : width - (sign_width negative + k) + (sign_width negative + k) ≡ width =
      omega arith in
    rw
      (
        or_false negative,
        sign_width-zeros negative k n room,
        replicate-padded (width - (sign_width negative + k)) (sign_width negative + k) n more,
        whole,
      )
      at (Reads-fill (width - (sign_width negative + k)) negative k n begin refl)

decode :
    (magnitude : ℕ) (negative : Bool) (w : ℕ) (le : Bool) (k : ℕ)
    → magnitude < 10 ^ k
    → sign_width negative + k ≤ suc w * 2
    → ibm4690_to_digit_string
        (order_bytes (nibble_bytes (filled (suc w * 2) negative k magnitude)) le)
        le
      ≡ ok (negative, padded (suc w * 2) magnitude)
unfolding ibm4690_to_digit_string
decode magnitude negative w le k room h =
    let r = Reads-filled (suc w * 2) negative k magnitude room h in
    rw
      (
        order_bytes_twice,
        scan_bytes-steps (suc w) _ begin (length-filled (suc w * 2) negative k magnitude h)
            r.allowed,
        r.sign,
        r.digits,
      )
      refl

-- IBM 4690 numbers of any width but 0 are read back, from a `u64` magnitude whose digits and sign fit
-- the width, in either byte order: the sign, and the digits of the magnitude with zeros in front.
pub ibm4690_to_digit_string-encode_ibm4690_magnitude :
    (magnitude : ℕ) (negative : Bool) (w : ℕ) (le : Bool)
    → magnitude < 2 ^ 64
    → magnitude < 10 ^ (suc w * 2 - sign_width negative)
    → (encode_ibm4690_magnitude magnitude negative (suc w) le >>= λ bytes.
        ibm4690_to_digit_string bytes le)
      ≡ ok (negative, padded (suc w * 2) magnitude)
ibm4690_to_digit_string-encode_ibm4690_magnitude magnitude negative w le h fits =
    let print = u64_to_string-IsPrint magnitude h in
    let one : sign_width negative ≤ 1 = sign_width-le negative in
    let least = print.least (suc w * 2 - sign_width negative) (omega arith) fits in
    let wide : sign_width negative + print.count ≤ suc w * 2 = omega arith in
    rw (encode magnitude negative w le print.count print.same wide)
      (decode magnitude negative w le print.count print.room wide)
