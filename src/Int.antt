-- ===== src/Int.antt =====
-- Signed integers: the integers over the native numbers, with the ranges and the wrap-around of
-- `i32` and `i64`.
pub mod Wrap
use aitest.Prelude.{
  ℕ, suc, ◌+◌, ◌-◌, ◌*◌, ◌/◌, ◌%◌, ◌^◌, ◌≤◌, ◌<◌, ◌≡◌, arith, Bool, true, false, ◌&&◌, Option, none,
  some, [], ◌∷◌, ltb, leb, ◌==◌, if◌then◌else◌,
}
use aitest.Text.{Text, u64_to_string, is_ascii_digit}
use Prim.Native.Nat.{compare, Ordering}

-- `negsuc n` is -(n + 1).
pub data ℤ : Type 0 where
  pos : ℕ → ℤ
  negsuc : ℕ → ℤ

abbrev pub pos_part : ℤ → ℕ
pos_part (pos n) = n
pos_part (negsuc n) = 0

abbrev pub neg_part : ℤ → ℕ
neg_part (pos n) = 0
neg_part (negsuc n) = suc n

abbrev pub magnitude : ℤ → ℕ
magnitude (pos n) = n
magnitude (negsuc n) = suc n

abbrev pub is_negative : ℤ → Bool
is_negative (pos n) = false
is_negative (negsuc n) = true

abbrev pub sub_ℕ : ℕ → ℕ → ℤ
sub_ℕ a b = if leb b a then pos (a - b) else negsuc (b - a - 1)

infixl 65 ◌+ℤ◌ ◌-ℤ◌
infixl 70 ◌*ℤ◌
unfoldable pub ◌+ℤ◌ : ℤ → ℤ → ℤ
a +ℤ b = sub_ℕ (pos_part a + pos_part b) (neg_part a + neg_part b)

unfoldable pub ◌-ℤ◌ : ℤ → ℤ → ℤ
a -ℤ b = sub_ℕ (pos_part a + neg_part b) (neg_part a + pos_part b)

-- A magnitude with a sign: minus, if the two signs differ.
abbrev pub with_sign : Bool → Bool → ℕ → ℤ
with_sign true true n = pos n
with_sign false false n = pos n
with_sign true false n = sub_ℕ 0 n
with_sign false true n = sub_ℕ 0 n

unfoldable pub ◌*ℤ◌ : ℤ → ℤ → ℤ
a *ℤ b = with_sign (is_negative a) (is_negative b) (magnitude a * magnitude b)

-- Division towards zero, for a divisor other than 0.
unfoldable pub quot : ℤ → ℤ → ℤ
quot a b = with_sign (is_negative a) (is_negative b) (magnitude a / magnitude b)

-- The remainder has the sign of the dividend.
unfoldable pub rem : ℤ → ℤ → ℤ
rem a b = with_sign (is_negative a) false (magnitude a % magnitude b)

unfoldable pub cmp : ℤ → ℤ → Ordering
cmp a b = compare (pos_part a + neg_part b) (pos_part b + neg_part a)

infix 50 ◌≤ℤ◌
abbrev pub ◌≤ℤ◌ : ℤ → ℤ → Type 0
a ≤ℤ b = pos_part a + neg_part b ≤ pos_part b + neg_part a

abbrev pub leb_ℤ : ℤ → ℤ → Bool
leb_ℤ a b = leb (pos_part a + neg_part b) (pos_part b + neg_part a)

-- `Ord::max` and `Ord::min`
abbrev pub max_ℤ : ℤ → ℤ → ℤ
max_ℤ a b = if leb_ℤ a b then b else a

abbrev pub min_ℤ : ℤ → ℤ → ℤ
min_ℤ a b = if leb_ℤ a b then a else b

abbrev pub is_zero : ℤ → Bool
is_zero a = magnitude a == 0

-- The values of a signed type that has the least value `-half`.
abbrev pub IsSigned : ℕ → ℤ → Type 0
IsSigned half a = (pos_part a < half) × (neg_part a ≤ half)

abbrev pub is_signed : ℕ → ℤ → Bool
is_signed half a = ltb (pos_part a) half && leb (neg_part a) half

abbrev pub half_i32 : ℕ
half_i32 = 2147483648

abbrev pub half_i64 : ℕ
half_i64 = 9223372036854775808

-- The remainder of a division by `m` that is not negative.
unfoldable pub residue : ℕ → ℤ → ℕ
residue m (pos n) = n % m
residue m (negsuc n) = m - 1 - n % m

-- `as`, to a signed type with the least value `-half`.
unfoldable pub wrap : ℕ → ℤ → ℤ
unfolding residue
wrap half a =
    let u = residue (half + half) a in if ltb u half then pos u else negsuc (half + half - u - 1)

abbrev pub as_i32 : ℤ → ℤ
as_i32 = wrap half_i32

-- `to_string`
unfoldable pub to_string : ℤ → Text
unfolding u64_to_string
to_string (pos n) = u64_to_string n
to_string (negsuc n) = b'-' ∷ u64_to_string (suc n)

-- The digits behind the number `n`.
unfoldable pub parse_digits : Text → ℕ → Option ℕ
parse_digits [] n = some n
parse_digits (c ∷ s) n =
    let rest = parse_digits s (n * 10 + (c - b'0')) in if is_ascii_digit c then rest else none

unfoldable pub some_digits : Text → Option ℕ
unfolding parse_digits
some_digits [] = none
some_digits (c ∷ s) = parse_digits (c ∷ s) 0

unfoldable pub in_range : ℕ → Option ℤ → Option ℤ
in_range half none = none
in_range half (some a) = if is_signed half a then some a else none

abbrev pub signed_digits : Bool → Option ℕ → Option ℤ
signed_digits negative none = none
signed_digits false (some n) = some (pos n)
signed_digits true (some n) = some (sub_ℕ 0 n)

-- `parse`: a sign or none, digits, and a number in the range of the type.
unfoldable pub parse_signed : ℕ → Text → Option ℤ
unfolding in_range some_digits
parse_signed half [] = none
parse_signed half (c ∷ s) =
    let number =
      if c == b'-'
      then signed_digits true (some_digits s)
      else if c == b'+'
      then signed_digits false (some_digits s)
      else signed_digits false (some_digits (c ∷ s)) in
    in_range half number
