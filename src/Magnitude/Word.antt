-- ===== src/Magnitude/Word.antt =====
-- Magnitudes as `u128` numbers and back: `digits_to_u128` and `u128_to_digits` of
-- dfdl-vm/src/vm/text_number_format/decimal.rs.
use aitest.Prelude.{
  ℕ, zero, suc, ◌+◌, ◌-◌, ◌*◌, ◌/◌, ◌%◌, ◌^◌, ◌≤◌, ◌<◌, ◌≡◌, refl, ap, ◌∙◌, arith, true, false,
  List, [], ◌∷◌, length, All, ltb, ◌==◌, ◌&&◌, Bool-cases, ◌⊎◌, inl, inr, Option, none, some,
}
use aitest.Magnitude.{
  value, is_less, cmp_mag, u128_rounds, digits_to_u128, u128_digit_rounds, u128_to_digits,
}
use aitest.Magnitude.Value.{IsDigit}
use aitest.Magnitude.Compare.{IsTrimmed, cmp_mag-compare, leading_digit}
use native.Mathlib.Nat.{pow-suc, one-le-pow}
use Prim.Native.Nat.{compare}

is_less-compare : (a b : ℕ) → is_less (compare a b) ≡ ltb a b
unfolding is_less
is_less-compare a b = ground arith

pub is_less-cmp_mag :
    (a b : List ℕ) → IsTrimmed a → IsTrimmed b → is_less (cmp_mag a b) ≡ ltb (value a) (value b)
is_less-cmp_mag a b ha hb =
    ap is_less (cmp_mag-compare a b ha hb) ∙ is_less-compare (value a) (value b)

-- What the digits are as a `u128`.
abbrev pub ReadAs : ℕ → Option ℕ → Type 0
ReadAs v o = (o ≡ some v) × (v < 2 ^ 128) ⊎ (o ≡ none) × (2 ^ 128 ≤ v)

le-mul_power : (x k : ℕ) → x ≤ x * 10 ^ k
le-mul_power x k = let one : 1 ≤ 10 ^ k = one-le-pow k 10 (omega arith) in grind arith

u128_rounds-ReadAs :
    (ds : List ℕ) (acc : ℕ)
    → acc < 2 ^ 128
    → ReadAs (acc * 10 ^ length ds + value ds) (u128_rounds ds acc)
unfolding u128_rounds value
u128_rounds-ReadAs [] acc h = inl (ap some (omega arith), omega arith)
u128_rounds-ReadAs (d ∷ ds) acc h =
    let e : acc * 10 ^ suc (length ds) + (d * 10 ^ length ds + value ds)
        ≡ (acc * 10 + d) * 10 ^ length ds + value ds =
      omega (arith, ap (λ (t : ℕ). acc * t) (pow-suc 10 (length ds))) in
    elim (Bool-cases (ltb (acc * 10 + d) (2 ^ 128))) [
      | inl fits ↦
          let both : (ltb (acc * 10) (2 ^ 128) && ltb (acc * 10 + d) (2 ^ 128)) ≡ true =
            ground arith in
          rw (both, e) (u128_rounds-ReadAs ds (acc * 10 + d) (ground arith))
      | inr over ↦
          let both : (ltb (acc * 10) (2 ^ 128) && ltb (acc * 10 + d) (2 ^ 128)) ≡ false =
            ground arith in
          let top : acc * 10 + d ≤ (acc * 10 + d) * 10 ^ length ds =
            le-mul_power (acc * 10 + d) (length ds) in
          rw (both, e) (inr (refl, ground arith))
    ]

pub digits_to_u128-ReadAs : (ds : List ℕ) → ReadAs (value ds) (digits_to_u128 ds)
unfolding digits_to_u128
digits_to_u128-ReadAs ds =
    let e : 0 * 10 ^ length ds + value ds ≡ value ds = omega arith in
    rw e at (u128_rounds-ReadAs ds 0 (omega arith))

value-u128_digit_rounds :
    (fuel n : ℕ) (out : List ℕ)
    → n < 10 ^ fuel
    → value (u128_digit_rounds fuel n out) ≡ n * 10 ^ length out + value out
unfolding u128_digit_rounds
value-u128_digit_rounds zero n out h = let e : n ≡ 0 = omega arith in rw e (omega arith)
value-u128_digit_rounds (suc fuel) n out h = elim (Bool-cases (n == 0)) [
  | inl z ↦ let e : n ≡ 0 = ground arith in rw e (omega arith)
  | inr more ↦
      let split : n ≡ n / 10 * 10 + n % 10 = omega arith in
      rw
        (
          more,
          value-u128_digit_rounds fuel (n / 10) (n % 10 ∷ out) (omega (arith, pow-suc 10 fuel)),
        )
        (unfold value in
          omega (
            arith,
            ap (λ (t : ℕ). t * 10 ^ length out) split,
            ap (λ (t : ℕ). n / 10 * t) (pow-suc 10 (length out)),
          ))
]

abbrev IsLed : List ℕ → Type 0
IsLed ds = All IsDigit ds × (1 ≤ length ds) × (10 ^ (length ds - 1) ≤ value ds)

u128_digit_rounds-IsLed :
    (fuel n : ℕ) (out : List ℕ)
    → n < 10 ^ fuel
    → All IsDigit out
    → (n ≡ 0 → IsLed out)
    → IsLed (u128_digit_rounds fuel n out)
unfolding u128_digit_rounds
u128_digit_rounds-IsLed zero n out h digits led = led (omega arith)
u128_digit_rounds-IsLed (suc fuel) n out h digits led = elim (Bool-cases (n == 0)) [
  | inl z ↦ rw z (led (ground arith))
  | inr more ↦
      let some_digit : 1 ≤ n = ground arith in
      rw more (
        u128_digit_rounds-IsLed fuel (n / 10) (n % 10 ∷ out) (omega (arith, pow-suc 10 fuel))
          (omega arith, digits)
          (λ z. (
            (omega arith, digits),
            omega arith,
            leading_digit (n % 10) out (omega (arith, z, some_digit)),
          )))
]

pub value-u128_to_digits : (n : ℕ) → n < 2 ^ 128 → value (u128_to_digits n) ≡ n
unfolding u128_to_digits
value-u128_to_digits n h = elim (Bool-cases (n == 0)) [
  | inl z ↦ rw z (unfold value in ground arith)
  | inr more ↦
      rw (more, value-u128_digit_rounds 39 n [] (omega arith)) (unfold value in omega arith)
]

pub u128_to_digits-IsTrimmed : (n : ℕ) → n < 2 ^ 128 → IsTrimmed (u128_to_digits n)
unfolding u128_to_digits
u128_to_digits-IsTrimmed n h = elim (Bool-cases (n == 0)) [
  | inl z ↦ rw z (record {
    digits = (omega arith, tt);
    some_digit = omega arith;
    leading = λ two. absurd (omega (arith, two));
  })
  | inr more ↦
      let some_digit : 1 ≤ n = ground arith in
      let (digits, n1, led) =
        u128_digit_rounds-IsLed 39 n [] (omega arith) tt
          (λ z. absurd (omega (arith, z, some_digit))) in
      rw more (record { digits = digits; some_digit = n1; leading = λ two. led })
]

pub some-ReadAs : (v p : ℕ) → ReadAs v (some p) → (p ≡ v) × (v < 2 ^ 128)
some-ReadAs v p (inl (e, h)) = (grind (arith, e), h)
some-ReadAs v p (inr (e, h)) = absurd (grind (arith, e))
