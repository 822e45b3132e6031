-- ===== src/Int/Wrap.antt =====
-- The wrap-around of signed integers, and the ranges of sums, products and quotients.
use aitest.Prelude.{ℕ, ◌+◌, ◌*◌, ◌/◌, ◌%◌, ◌≤◌, ◌<◌, ◌≡◌, arith, Bool, true, false}
use native.Mathlib.Nat.{mul-le-mul, div-le_self, mod-le}
use aitest.Int.{
  ℤ, pos, negsuc, magnitude, is_negative, ◌+ℤ◌, ◌-ℤ◌, ◌*ℤ◌, with_sign, quot, rem, IsSigned, residue,
  wrap, half_i32, half_i64,
}

pub wrap-IsSigned : (a : ℤ) → IsSigned half_i32 (wrap half_i32 a)
unfolding wrap residue
wrap-IsSigned (pos n) = ground arith
wrap-IsSigned (negsuc n) = ground arith

pub residue-wrap :
    (a : ℤ) → residue (half_i32 + half_i32) (wrap half_i32 a) ≡ residue (half_i32 + half_i32) a
unfolding wrap residue
residue-wrap (pos n) = ground arith
residue-wrap (negsuc n) = ground arith

pub +ℤ-IsSigned : (a b : ℤ) → IsSigned half_i32 a → IsSigned half_i32 b → IsSigned half_i64 (a +ℤ b)
unfolding ◌+ℤ◌
+ℤ-IsSigned a b ha hb = ground arith

pub -ℤ-IsSigned : (a b : ℤ) → IsSigned half_i32 a → IsSigned half_i32 b → IsSigned half_i64 (a -ℤ b)
unfolding ◌-ℤ◌
-ℤ-IsSigned a b ha hb = ground arith

with_sign-IsSigned : (s t : Bool) (n : ℕ) → n < half_i64 → IsSigned half_i64 (with_sign s t n)
with_sign-IsSigned true true n h = ground arith
with_sign-IsSigned false false n h = ground arith
with_sign-IsSigned true false n h = ground arith
with_sign-IsSigned false true n h = ground arith

magnitude-le : (a : ℤ) → IsSigned half_i32 a → magnitude a ≤ half_i32
magnitude-le (pos n) h = omega (arith, h.0)
magnitude-le (negsuc n) h = omega (arith, h.1)

pub *ℤ-IsSigned : (a b : ℤ) → IsSigned half_i32 a → IsSigned half_i32 b → IsSigned half_i64 (a *ℤ b)
unfolding ◌*ℤ◌
*ℤ-IsSigned a b ha hb =
    let bound : magnitude a * magnitude b ≤ half_i32 * half_i32 =
      mul-le-mul (magnitude-le a ha) (magnitude-le b hb) in
    with_sign-IsSigned (is_negative a) (is_negative b) (magnitude a * magnitude b) (omega arith)

pub quot-IsSigned : (a b : ℤ) → IsSigned half_i32 a → IsSigned half_i64 (quot a b)
unfolding quot
quot-IsSigned a b ha =
    with_sign-IsSigned (is_negative a) (is_negative b) (magnitude a / magnitude b)
      (omega (arith, magnitude-le a ha, div-le_self (magnitude a) (magnitude b)))

pub rem-IsSigned : (a b : ℤ) → IsSigned half_i32 a → IsSigned half_i64 (rem a b)
unfolding rem
rem-IsSigned a b ha =
    with_sign-IsSigned (is_negative a) false (magnitude a % magnitude b)
      (omega (arith, magnitude-le a ha, mod-le (magnitude a) (magnitude b)))
