-- ===== src/Bits/Field.antt =====
-- The number that a sequence of bits stands for, in either order.
use aitest.Prelude.{
  ℕ, zero, suc, ◌+◌, ◌-◌, ◌*◌, ◌/◌, ◌%◌, ◌^◌, ◌≤◌, ◌<◌, ◌≡◌, refl, ap, arith, bit_or,
}
use aitest.Bits.{bit_or-above, bit_or-below}
use aitest.Bits.Word.{shift_again, next_bit_down, next_bit_low, pow_mono}
use aitest.Schema.{BitOrder, most_significant_bit_first, least_significant_bit_first}
use native.Mathlib.Nat.{pow-suc}

-- Bits `f 0` to `f (n - 1)`, the first one the highest or the lowest.
unfoldable pub field_value : BitOrder → (ℕ → ℕ) → ℕ → ℕ
field_value order f zero = 0
field_value most_significant_bit_first f (suc n) =
    field_value most_significant_bit_first f n * 2 + f n
field_value least_significant_bit_first f (suc n) =
    field_value least_significant_bit_first f n + f n * 2 ^ n

-- The bit that stands for number `t` of a field of `n` bits that holds `value`.
unfoldable pub bit_of_field : BitOrder → ℕ → ℕ → ℕ → ℕ
bit_of_field most_significant_bit_first value n t = value / 2 ^ (n - 1 - t) % 2
bit_of_field least_significant_bit_first value n t = value / 2 ^ t % 2

pub bit_of_field-lt : (order : BitOrder) (value n t : ℕ) → bit_of_field order value n t < 2
unfolding bit_of_field
bit_of_field-lt most_significant_bit_first value n t = omega arith
bit_of_field-lt least_significant_bit_first value n t = omega arith

pub field_value_ext :
    (order : BitOrder) (f g : ℕ → ℕ) (n : ℕ)
    → ((t : ℕ) → t < n → f t ≡ g t)
    → field_value order f n ≡ field_value order g n
unfolding field_value
field_value_ext order f g zero h = refl
field_value_ext most_significant_bit_first f g (suc n) h = ground (
  arith,
  h n (omega arith),
  field_value_ext most_significant_bit_first f g n (λ t lt. h t (omega arith)),
)
field_value_ext least_significant_bit_first f g (suc n) h = ground (
  arith,
  ap (λ (b : ℕ). b * 2 ^ n) (h n (omega arith)),
  field_value_ext least_significant_bit_first f g n (λ t lt. h t (omega arith)),
)

pub field_value-lt :
    (order : BitOrder) (f : ℕ → ℕ) (n : ℕ) → ((t : ℕ) → f t < 2) → field_value order f n < 2 ^ n
unfolding field_value
field_value-lt order f zero h = omega arith
field_value-lt most_significant_bit_first f (suc n) h =
    omega (arith, h n, pow-suc 2 n, field_value-lt most_significant_bit_first f n h)
field_value-lt least_significant_bit_first f (suc n) h =
    grind (arith, h n, pow-suc 2 n, field_value-lt least_significant_bit_first f n h)

msb_prefix :
    (v n i : ℕ)
    → i ≤ n
    → field_value most_significant_bit_first (bit_of_field most_significant_bit_first v n) i
      ≡ v / 2 ^ (n - i) % 2 ^ i
unfolding field_value bit_of_field
msb_prefix v n zero h = omega arith
msb_prefix v n (suc i) h =
    let e : n - i ≡ suc (n - suc i) = omega arith in
    let e' : n - 1 - i ≡ n - suc i = omega arith in
    rw (msb_prefix v n i (omega arith), e, e', ← shift_again v (n - suc i))
      (next_bit_low (v / 2 ^ (n - suc i)) i)

lsb_prefix :
    (v n i : ℕ)
    → field_value least_significant_bit_first (bit_of_field least_significant_bit_first v n) i
      ≡ v % 2 ^ i
unfolding field_value bit_of_field
lsb_prefix v n zero = omega arith
lsb_prefix v n (suc i) = omega (arith, lsb_prefix v n i, next_bit_down v i)

-- Taking a number apart and putting it together gives its `n` low bits, in either order.
pub field_value-bit_of_field :
    (order : BitOrder) (v n : ℕ) → field_value order (bit_of_field order v n) n ≡ v % 2 ^ n
field_value-bit_of_field most_significant_bit_first v n =
    let e : n - n ≡ 0 = omega arith in
    let whole : v / 1 ≡ v = omega arith in
    rw (msb_prefix v n n (omega arith), e) (ap (λ (t : ℕ). t % 2 ^ n) whole)
field_value-bit_of_field least_significant_bit_first v n = lsb_prefix v n n

-- What the reader's `(value << 1) | bit` and `value | (bit << i)` compute.
pub join_above :
    (value bit : ℕ) → value < 2 ^ 63 → bit < 2 → bit_or (value * 2 % 2 ^ 64) bit ≡ value * 2 + bit
join_above value bit hv hb =
    let e : value * 2 % 2 ^ 64 ≡ value * 2 ^ 1 = omega arith in
    rw e (omega (arith, bit_or-above 1 value bit hb))

pub join_below :
    (value bit i : ℕ)
    → i < 64
    → value < 2 ^ i
    → bit < 2
    → bit_or value (bit * 2 ^ i % 2 ^ 64) ≡ value + bit * 2 ^ i
join_below value bit i hi hv hb =
    let p : 2 ^ i ≤ 2 ^ 63 = pow_mono i 63 (omega arith) in
    let small : bit * 2 ^ i ≤ 2 ^ i = grind arith in
    let e : bit * 2 ^ i % 2 ^ 64 ≡ bit * 2 ^ i = omega arith in rw e (bit_or-below i bit value hv)
