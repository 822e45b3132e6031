-- ===== src/Decimal/Value.antt =====
-- What the operations on a decimal number keep of its value.
use aitest.Prelude.{
  ℕ, zero, suc, ◌+◌, ◌-◌, ◌*◌, ◌/◌, ◌^◌, ◌≤◌, ◌≡◌, refl, sym, ap, ◌∙◌, arith, List, [], ◌∷◌, length,
  reverse, take, drop, All, ◌==◌, if◌then◌else◌, Bool-cases, inl, inr,
}
use aitest.Magnitude.{value, strip, or_zero}
use aitest.Magnitude.Value.{
  IsDigit, low_value, value-reverse, low_value-reverse, value-strip, value-or_zero,
}
use aitest.Decimal.{Decimal, pop_zeros, trim_trailing_zeros}
use aitest.Decimal.Rounding.{carry_digits}
use native.Mathlib.Nat.{pow-suc}

zero-low_value :
    (d : ℕ) (ds : List ℕ) (x p : ℕ)
    → d ≡ 0
    → low_value ds ≡ x * p
    → low_value (d ∷ ds) ≡ x * (p * 10)
unfolding low_value
zero-low_value d ds x p h same = omega (arith, same, h)

-- The first loop drops factors of ten.
pop_zeros-low_value :
    (ds : List ℕ) (s : ℕ)
    → ((pop_zeros ds s).1 ≤ s)
      × (low_value ds ≡ low_value ((pop_zeros ds s).0) * 10 ^ (s - (pop_zeros ds s).1))
unfolding pop_zeros
pop_zeros-low_value [] s = (omega arith, let e : s - s ≡ 0 = omega arith in rw e (omega arith))
pop_zeros-low_value (d ∷ ds) zero = (omega arith, omega arith)
pop_zeros-low_value (d ∷ ds) (suc s) = elim (Bool-cases (d == 0)) [
  | inl z ↦
      let (le, same) = pop_zeros-low_value ds s in
      let d0 : d ≡ 0 = ground arith in
      let step : suc s - (pop_zeros ds s).1 ≡ suc (s - (pop_zeros ds s).1) = omega (arith, le) in
      rw z (omega (arith, le), rw (step, pow-suc) (zero-low_value d ds _ _ d0 same))
  | inr n ↦ rw n (omega arith, let e : suc s - suc s ≡ 0 = omega arith in rw e (omega arith))
]

-- The same number, written with no more digits behind the point.
pub record IsReduced (d r : Decimal) : Type 0 where
  pub sign : r.negative ≡ d.negative
  pub scale : r.scale ≤ d.scale
  pub number : value d.digits ≡ value r.digits * 10 ^ (d.scale - r.scale)

-- The trimmed number is the same number.
pub trim_trailing_zeros-IsReduced : (d : Decimal) → IsReduced d (trim_trailing_zeros d)
unfolding trim_trailing_zeros
trim_trailing_zeros-IsReduced d =
    let popped = pop_zeros (reverse d.digits) d.scale in
    let (le, same) = pop_zeros-low_value (reverse d.digits) d.scale in
    let kept : value
          (or_zero (if popped.1 == 0 then strip (reverse (popped.0)) else reverse (popped.0)))
        ≡ low_value (popped.0) =
      value-or_zero _ ∙ elim (Bool-cases (popped.1 == 0)) [
        | inl z ↦ rw z (value-strip (reverse (popped.0)) ∙ value-reverse (popped.0))
        | inr n ↦ rw n (value-reverse (popped.0))
      ] in
    record { sign = refl; scale = le; number = rw kept (sym (low_value-reverse d.digits) ∙ same) }

-- One more in the last place.
low_value-carry_digits :
    (ds : List ℕ) (carry : ℕ)
    → All IsDigit ds
    → carry ≤ 1
    → low_value (carry_digits ds carry) ≡ low_value ds + carry
unfolding carry_digits low_value
low_value-carry_digits [] carry h hc = ground arith
low_value-carry_digits (d ∷ ds) carry (hd, h) hc = elim (Bool-cases ((d + carry) / 10 == 0)) [
  | inl stop ↦ rw stop (ground arith)
  | inr more ↦
      rw (more, low_value-carry_digits ds ((d + carry) / 10) h (omega (arith, hd, hc)))
        (omega arith)
]

pub carry_digits-value :
    (ds : List ℕ)
    → All IsDigit (reverse ds)
    → value (reverse (carry_digits (reverse ds) 1)) ≡ value ds + 1
carry_digits-value ds h =
    value-reverse _
    ∙ low_value-carry_digits (reverse ds) 1 h (omega arith)
    ∙ ap (λ (t : ℕ). t + 1) (low_value-reverse ds)

pub length-take : (k : ℕ) (ds : List ℕ) → k ≤ length ds → length (take k ds) ≡ k
length-take zero ds h = refl
length-take (suc k) [] h = absurd (omega arith)
length-take (suc k) (d ∷ ds) h = ap suc (length-take k ds (omega arith))

pub take-IsDigit : (k : ℕ) (ds : List ℕ) → All IsDigit ds → All IsDigit (take k ds)
take-IsDigit zero ds h = tt
take-IsDigit (suc k) [] h = tt
take-IsDigit (suc k) (d ∷ ds) (hd, h) = (hd, take-IsDigit k ds h)

pub drop-IsDigit : (k : ℕ) (ds : List ℕ) → All IsDigit ds → All IsDigit (drop k ds)
drop-IsDigit zero ds h = h
drop-IsDigit (suc k) [] h = tt
drop-IsDigit (suc k) (d ∷ ds) (hd, h) = drop-IsDigit k ds h

pub pow_add : (k r : ℕ) → 10 ^ (k + r) ≡ 10 ^ k * 10 ^ r
pow_add zero r = let e : 0 + r ≡ r = omega arith in rw e (omega arith)
pow_add (suc k) r =
    let e : suc k + r ≡ suc (k + r) = omega arith in
    rw (e, pow-suc) (omega (arith, pow_add k r, ap (λ (t : ℕ). t * 10 ^ r) (pow-suc 10 k)))

-- A number is cut in two at a digit.
pub value-split :
    (k r : ℕ) (ds : List ℕ)
    → length ds ≡ k + r
    → value ds ≡ value (take k ds) * 10 ^ r + value (drop k ds)
unfolding value
value-split zero r ds h = omega arith
value-split (suc k) r [] h = absurd (omega arith)
value-split (suc k) r (d ∷ ds) h =
    let n : length ds ≡ k + r = omega arith in
    rw (n, length-take k ds (omega (arith, n)), value-split k r ds n)
      (omega (arith, ap (λ (t : ℕ). d * t) (pow_add k r)))
