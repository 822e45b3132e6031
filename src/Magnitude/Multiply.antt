-- ===== src/Magnitude/Multiply.antt =====
-- Products of magnitudes: exact or saturated where both fit a `u128`, and what the loop of additions
-- computes elsewhere.
use aitest.Prelude.{
  ℕ, zero, suc, ◌+◌, ◌-◌, ◌*◌, ◌^◌, ◌≤◌, ◌<◌, min, ◌≡◌, refl, ap, ◌∙◌, arith, Bool, true, false,
  List, [], ◌∷◌, length, All, ltb, ◌&&◌, if◌then◌else◌, Bool-cases, inl, inr, Option, none, some,
}
use aitest.Magnitude.{value, all_zero, add_mag, add_times, mul_rounds, multiply, mul_mags}
use aitest.Magnitude.Value.{IsDigit, add_mag-value}
use aitest.Magnitude.Compare.{add_mag-IsTrimmed}
use aitest.Magnitude.Divide.{value-one_digit}
use aitest.Magnitude.Word.{some-ReadAs, ReadAs, digits_to_u128-ReadAs, value-u128_to_digits}

pub digit_sum : List ℕ → ℕ
digit_sum [] = 0
digit_sum (d ∷ ds) = d + digit_sum ds

-- Both factors fit a `u128`.
pub both_fit : ℕ → ℕ → Bool
both_fit x y = ltb x (2 ^ 128) && ltb y (2 ^ 128)

-- What `mul_mags` computes.
pub product : ℕ → ℕ → List ℕ → ℕ
product x y b = if both_fit x y then min (x * y) (2 ^ 128 - 1) else x * digit_sum b

all_zero-nothing : (ds : List ℕ) → all_zero ds ≡ true → (value ds ≡ 0) × (digit_sum ds ≡ 0)
unfolding all_zero value digit_sum
all_zero-nothing [] h = (refl, refl)
all_zero-nothing (d ∷ ds) h =
    let e : d ≡ 0 = ground arith in
    let (v, s) = all_zero-nothing ds (ground arith) in
    (omega (arith, v, ap (λ (t : ℕ). t * 10 ^ length ds) e), omega (arith, e, s))

none-ReadAs : (v : ℕ) → ReadAs v none → 2 ^ 128 ≤ v
none-ReadAs v (inl (e, h)) = absurd (grind (arith, e))
none-ReadAs v (inr (e, h)) = h

over-product : (x y : ℕ) (b : List ℕ) → both_fit x y ≡ false → x * digit_sum b ≡ product x y b
unfolding product
over-product x y b h = rw h refl

zero-product : (x y : ℕ) (b : List ℕ) → x * y ≡ 0 → x * digit_sum b ≡ 0 → 0 ≡ product x y b
unfolding product
zero-product x y b h k = elim (Bool-cases (both_fit x y)) [
  | inl fit ↦ rw (fit, h) refl
  | inr over ↦ rw (over, k) refl
]

module _ (a : List ℕ) (ha : All IsDigit a) where
  value-add_times :
      (n : ℕ) (acc : List ℕ) → All IsDigit acc → value (add_times n acc a) ≡ value acc + n * value a
  unfolding add_times
  value-add_times zero acc h = omega arith
  value-add_times (suc n) acc h =
      value-add_times n (add_mag acc a) ((add_mag-IsTrimmed acc a).digits)
      ∙ omega (arith, add_mag-value acc a h ha)

  add_times-IsDigit : (n : ℕ) (acc : List ℕ) → All IsDigit acc → All IsDigit (add_times n acc a)
  unfolding add_times
  add_times-IsDigit zero acc h = h
  add_times-IsDigit (suc n) acc h =
      add_times-IsDigit n (add_mag acc a) ((add_mag-IsTrimmed acc a).digits)

  value-mul_rounds :
      (b acc : List ℕ)
      → All IsDigit acc
      → value (mul_rounds b acc a) ≡ value acc + value a * digit_sum b
  unfolding mul_rounds digit_sum
  value-mul_rounds [] acc h = omega arith
  value-mul_rounds (d ∷ b) acc h =
      value-mul_rounds b (add_times d acc a) (add_times-IsDigit d acc h)
      ∙ omega (arith, value-add_times d acc h)

  slow : (b : List ℕ) → value (mul_rounds b (0 ∷ []) a) ≡ value a * digit_sum b
  slow b = value-mul_rounds b (0 ∷ []) (omega arith, tt) ∙ omega (arith, value-one_digit 0)

  multiply-product :
      (b : List ℕ) (x y : Option ℕ)
      → ReadAs (value a) x
      → ReadAs (value b) y
      → value (multiply a b x y) ≡ product (value a) (value b) b
  unfolding multiply product both_fit
  multiply-product b none y hx hy =
      slow b
      ∙ over-product (value a) (value b) b
          (unfold both_fit in ground (arith, none-ReadAs (value a) hx))
  multiply-product b (some p) none hx hy =
      slow b
      ∙ over-product (value a) (value b) b
          (unfold both_fit in ground (arith, none-ReadAs (value b) hy))
  multiply-product b (some p) (some q) hx hy =
      let (ep, hp) = some-ReadAs (value a) p hx in
      let (eq, hq) = some-ReadAs (value b) q hy in
      let fit : both_fit (value a) (value b) ≡ true = ground arith in
      rw (ep, eq, fit) (value-u128_to_digits _ (ground arith))

  -- A product, where the first factor has decimal digits: where both factors fit a `u128`, it is
  -- exact up to the largest `u128`, and that number beyond. Elsewhere it is the first factor times
  -- the sum of the digits of the second.
  pub mul_mags-product : (b : List ℕ) → value (mul_mags a b) ≡ product (value a) (value b) b
  unfolding mul_mags
  mul_mags-product b = elim (Bool-cases (all_zero a)) [
    | inl za ↦
        let (v, _) = all_zero-nothing a za in
        rw (za, value-one_digit 0)
          (zero-product (value a) (value b) b (rw v (omega arith)) (rw v (omega arith)))
    | inr na ↦ elim (Bool-cases (all_zero b)) [
      | inl zb ↦
          let (v, s) = all_zero-nothing b zb in
          rw (na, zb, value-one_digit 0)
            (zero-product (value a) (value b) b (rw v (omega arith)) (rw s (omega arith)))
      | inr nb ↦
          rw (na, nb) (multiply-product b _ _ (digits_to_u128-ReadAs a) (digits_to_u128-ReadAs b))
    ]
  ]

-- A product that fits is exact.
pub exact_product :
    (x y : ℕ) (b : List ℕ) → 1 ≤ y → y < 2 ^ 128 → x * y < 2 ^ 128 → product x y b ≡ x * y
unfolding product both_fit
exact_product x y b hy fits room =
    let factor : x ≤ x * y = grind arith in
    let both : both_fit x y ≡ true = ground arith in rw both (ground arith)
