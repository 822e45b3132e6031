-- ===== src/Magnitude/Value.antt =====
-- What the loops over digits compute: the value of their results.
use aitest.Prelude.{
  ℕ, zero, suc, ◌+◌, ◌*◌, ◌/◌, ◌^◌, ◌≤◌, ◌<◌, ◌≡◌, refl, sym, ap, ◌∙◌, arith, List, [], ◌∷◌, ◌++◌,
  length, reverse, length-append, length-reverse, All, All-append, ltb, ◌==◌, Bool-cases, inl, inr,
}
use aitest.Magnitude.{
  value, strip, or_zero, carry_rounds, add_rounds, add_mag, double_rounds, double_mag, sub_digit,
  sub_rounds, sub_mag,
}
use native.Mathlib.Nat.{pow-suc}
use mathlib.Core.List.{reverse-append, reverse-reverse}

abbrev pub IsDigit : ℕ → Type 0
IsDigit d = d < 10

-- The value of digits from the last to the first.
unfoldable pub low_value : List ℕ → ℕ
low_value [] = 0
low_value (d ∷ ds) = d + 10 * low_value ds

pub value-snoc : (ds : List ℕ) (d : ℕ) → value (ds ++ d ∷ []) ≡ value ds * 10 + d
unfolding value
value-snoc [] d = omega arith
value-snoc (e ∷ ds) d =
    let n : length (ds ++ d ∷ []) ≡ suc (length ds) = length-append ds (d ∷ []) ∙ omega arith in
    rw (n, value-snoc ds d) (omega (arith, ap (λ (t : ℕ). e * t) (pow-suc 10 (length ds))))

pub value-reverse : (ds : List ℕ) → value (reverse ds) ≡ low_value ds
unfolding low_value
value-reverse [] = unfold value in refl
value-reverse (d ∷ ds) =
    rw (reverse-append (d ∷ []) ds, value-snoc) (omega (arith, value-reverse ds))

pub low_value-reverse : (ds : List ℕ) → low_value (reverse ds) ≡ value ds
low_value-reverse ds = sym (value-reverse (reverse ds)) ∙ ap value (reverse-reverse ds)

pub value-strip : (ds : List ℕ) → value (strip ds) ≡ value ds
unfolding value strip
value-strip [] = refl
value-strip (d ∷ []) = refl
value-strip (d ∷ e ∷ ds) = elim (Bool-cases (d == 0)) [
  | inl z ↦ rw z (
      value-strip (e ∷ ds)
      ∙ let d0 : d ≡ 0 = ground arith in omega (arith, ap (λ (t : ℕ). t * 10 ^ suc (length ds)) d0))
  | inr n ↦ rw n refl
]

pub value-or_zero : (ds : List ℕ) → value (or_zero ds) ≡ value ds
unfolding or_zero
value-or_zero [] = unfold value in refl
value-or_zero (d ∷ ds) = refl

low_value-carry_rounds :
    (fuel carry : ℕ) → carry < 10 ^ fuel → low_value (carry_rounds fuel carry) ≡ carry
unfolding carry_rounds low_value
low_value-carry_rounds zero carry h = omega arith
low_value-carry_rounds (suc fuel) carry h = elim (Bool-cases (carry == 0)) [
  | inl z ↦ rw z (ground arith)
  | inr n ↦
      rw (n, low_value-carry_rounds fuel (carry / 10) (omega (arith, pow-suc 10 fuel)))
        (omega arith)
]

low_value-add_rounds :
    (a b : List ℕ) (carry : ℕ)
    → All IsDigit a
    → All IsDigit b
    → carry < 10
    → low_value (add_rounds a b carry) ≡ low_value a + low_value b + carry
unfolding add_rounds low_value
low_value-add_rounds [] [] carry ha hb h =
    low_value-carry_rounds 5 carry (omega arith) ∙ omega arith
low_value-add_rounds [] (b ∷ ys) carry ha (hb, hys) h =
    omega (arith, low_value-add_rounds [] ys ((b + carry) / 10) tt hys (omega arith))
low_value-add_rounds (a ∷ xs) [] carry (ha, hxs) hb h =
    omega (arith, low_value-add_rounds xs [] ((a + carry) / 10) hxs tt (omega arith))
low_value-add_rounds (a ∷ xs) (b ∷ ys) carry (ha, hxs) (hb, hys) h =
    omega (arith, low_value-add_rounds xs ys ((a + b + carry) / 10) hxs hys (omega arith))

low_value-double_rounds :
    (ds : List ℕ) (carry : ℕ) → low_value (double_rounds ds carry) ≡ 2 * low_value ds + carry
unfolding double_rounds low_value
low_value-double_rounds [] carry = ground arith
low_value-double_rounds (d ∷ ds) carry =
    omega (arith, low_value-double_rounds ds ((d * 2 + carry) / 10))

pub All-reverse : (ds : List ℕ) → All IsDigit ds → All IsDigit (reverse ds)
All-reverse [] h = tt
All-reverse (d ∷ ds) (hd, h) =
    rw (reverse-append (d ∷ []) ds)
      (All-append IsDigit (reverse ds) (d ∷ []) (All-reverse ds h) (hd, tt))

low_value-sub_rounds :
    (a b : List ℕ) (borrow : ℕ)
    → All IsDigit a
    → All IsDigit b
    → borrow ≤ 1
    → length b ≤ length a
    → low_value b + borrow ≤ low_value a
    → low_value (sub_rounds a b borrow) + low_value b + borrow ≡ low_value a
unfolding sub_rounds sub_digit low_value
low_value-sub_rounds [] [] borrow ha hb h short le = omega arith
low_value-sub_rounds [] (b ∷ ys) borrow ha hb h short le = absurd (omega arith)
low_value-sub_rounds (a ∷ xs) [] borrow (ha, hxs) hb h short le =
    elim (Bool-cases (ltb a (0 + borrow))) [
      | inl under ↦
          let e : a < 0 + borrow = ground arith in
          rw under (
            omega (
              arith,
              low_value-sub_rounds xs [] 1 hxs tt (omega arith) (omega arith)
                  (omega (arith, le, e)),
            ))
      | inr over ↦
          let e : 0 + borrow ≤ a = ground arith in
          rw over (
            omega (
              arith,
              low_value-sub_rounds xs [] 0 hxs tt (omega arith) (omega arith) (omega arith),
            ))
    ]
low_value-sub_rounds (a ∷ xs) (b ∷ ys) borrow (ha, hxs) (hb, hys) h short le =
    elim (Bool-cases (ltb a (b + borrow))) [
      | inl under ↦
          let e : a < b + borrow = ground arith in
          rw under (
            omega (
              arith,
              low_value-sub_rounds xs ys 1 hxs hys (omega arith) (omega arith)
                  (omega (arith, le, e)),
            ))
      | inr over ↦
          let e : b + borrow ≤ a = ground arith in
          rw over (
            omega (
              arith,
              low_value-sub_rounds xs ys 0 hxs hys (omega arith) (omega arith)
                  (omega (arith, le, e, ha)),
            ))
    ]

-- Sums of decimal digits have the value of the sum.
pub add_mag-value :
    (a b : List ℕ) → All IsDigit a → All IsDigit b → value (add_mag a b) ≡ value a + value b
unfolding add_mag
add_mag-value a b ha hb =
    rw
      (
        value-or_zero,
        value-strip,
        value-reverse,
        low_value-add_rounds (reverse a) (reverse b) 0 (All-reverse a ha) (All-reverse b hb)
            (omega arith),
        low_value-reverse a,
        low_value-reverse b,
      )
      (omega arith)

-- Twice a magnitude, whatever its digits.
pub double_mag-value : (ds : List ℕ) → value (double_mag ds) ≡ 2 * value ds
unfolding double_mag
double_mag-value ds =
    rw (value-strip, value-reverse, low_value-double_rounds, low_value-reverse ds) (omega arith)

-- Differences of decimal digits have the value of the difference, where the subtrahend is no longer
-- and no larger.
pub sub_mag-value :
    (a b : List ℕ)
    → All IsDigit a
    → All IsDigit b
    → length b ≤ length a
    → value b ≤ value a
    → value (sub_mag a b) + value b ≡ value a
unfolding sub_mag
sub_mag-value a b ha hb short le =
    let same : low_value (sub_rounds (reverse a) (reverse b) 0) + low_value (reverse b) + 0
        ≡ low_value (reverse a) =
      low_value-sub_rounds (reverse a) (reverse b) 0 (All-reverse a ha) (All-reverse b hb)
        (omega arith) (rw (length-reverse a, length-reverse b) short)
        (rw (low_value-reverse a, low_value-reverse b) (omega arith)) in
    rw (value-strip, value-reverse) (omega (arith, same, low_value-reverse a, low_value-reverse b))
