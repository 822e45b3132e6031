-- ===== src/Magnitude/Divide.antt =====
-- Division of magnitudes, on `u128` where both fit and by subtraction elsewhere.
use aitest.Prelude.{
  ℕ, zero, suc, ◌+◌, ◌*◌, ◌/◌, ◌%◌, ◌^◌, ◌≤◌, ◌<◌, ◌≡◌, refl, ap, ◌∙◌, arith, true, false, List, [],
  ◌∷◌, length, ltb, ◌==◌, Bool-cases, inl, inr, Option, none, some,
}
use aitest.Magnitude.{
  value, all_zero, is_less, cmp_mag, sub_mag, add_mag, u128_to_digits, div_rounds, divide,
  div_mod_mag,
}
use aitest.Magnitude.Value.{add_mag-value, sub_mag-value}
use aitest.Magnitude.Compare.{IsTrimmed, longer, add_mag-IsTrimmed, sub_mag-IsTrimmed}
use native.Mathlib.Nat.{div-add-mod, mod-lt, mod-le, div-le_self}
use aitest.Magnitude.Word.{
  some-ReadAs, ReadAs, digits_to_u128-ReadAs, is_less-cmp_mag, u128_to_digits-IsTrimmed,
  value-u128_to_digits,
}

-- A quotient and a remainder of the number `n`.
pub record IsDivision (n : ℕ) (d : List ℕ) (result : List ℕ × List ℕ) : Type 0 where
  pub whole : value result.0 * value d + value result.1 ≡ n
  pub below : value result.1 < value d
  pub quotient : IsTrimmed result.0
  pub remainder : IsTrimmed result.1

pub value-one_digit : (d : ℕ) → value (d ∷ []) ≡ d
unfolding value
value-one_digit d = omega arith

pub one_digit-IsTrimmed : (d : ℕ) → d < 10 → IsTrimmed (d ∷ [])
one_digit-IsTrimmed d h = record {
  digits = (h, tt);
  some_digit = omega arith;
  leading = λ two. absurd (omega (arith, two));
}

module _ (d : List ℕ) (hd : IsTrimmed d) (positive : 1 ≤ value d) where
  div_rounds_lem :
      (fuel : ℕ) (rem quotient : List ℕ)
      → IsTrimmed rem
      → IsTrimmed quotient
      → value rem < fuel
      → IsDivision (value quotient * value d + value rem) d (div_rounds fuel rem quotient d)
  unfolding div_rounds
  div_rounds_lem zero rem quotient hr hq h = absurd (omega arith)
  div_rounds_lem (suc fuel) rem quotient hr hq h = elim (Bool-cases (ltb (value rem) (value d))) [
    | inl less ↦
        let test : is_less (cmp_mag rem d) ≡ true = is_less-cmp_mag rem d hr hd ∙ less in
        rw (div_rounds, test)
          (record { whole = refl; below = ground arith; quotient = hq; remainder = hr })
    | inr more ↦
        let test : is_less (cmp_mag rem d) ≡ false = is_less-cmp_mag rem d hr hd ∙ more in
        let le : value d ≤ value rem = ground arith in
        let short : length d ≤ length rem = ground (arith, longer rem d hr hd) in
        let rest : value (sub_mag rem d) + value d ≡ value rem =
          sub_mag-value rem d hr.digits hd.digits short le in
        let next : value (add_mag quotient (1 ∷ [])) ≡ value quotient + 1 =
          add_mag-value quotient (1 ∷ []) hq.digits (omega arith, tt)
          ∙ ap (λ (t : ℕ). value quotient + t) (value-one_digit 1) in
        let same : value (add_mag quotient (1 ∷ [])) * value d + value (sub_mag rem d)
            ≡ value quotient * value d + value rem =
          omega (arith, rest, ap (λ (t : ℕ). t * value d) next) in
        rw (div_rounds, test)
          (rw same at (
            div_rounds_lem fuel (sub_mag rem d) (add_mag quotient (1 ∷ []))
              (sub_mag-IsTrimmed rem d hr.digits hd.digits hr.some_digit)
              (add_mag-IsTrimmed quotient (1 ∷ [])) (omega (arith, rest, positive))))
  ]

all_zero-value : (ds : List ℕ) → 1 ≤ value ds → all_zero ds ≡ false
unfolding all_zero value
all_zero-value [] h = absurd (omega arith)
all_zero-value (d ∷ ds) h = elim (Bool-cases (d == 0)) [
  | inl z ↦
      let e : d ≡ 0 = ground arith in
      rw z (all_zero-value ds (omega (arith, h, ap (λ (t : ℕ). t * 10 ^ length ds) e)))
  | inr n ↦ rw n refl
]

fast :
    (p q : ℕ) (d : List ℕ)
    → p < 2 ^ 128
    → q ≡ value d
    → 1 ≤ q
    → IsDivision p d (u128_to_digits (p / q), u128_to_digits (p % q))
fast p q d hp hq positive =
    let back = div-add-mod p q in
    let small : p % q < q = mod-lt p positive in
    let low : p % q ≤ p = mod-le p q in
    let high : p / q ≤ p = div-le_self p q in
    let quotient : value (u128_to_digits (p / q)) ≡ p / q =
      value-u128_to_digits (p / q) (omega (arith, hp, high)) in
    let remainder : value (u128_to_digits (p % q)) ≡ p % q =
      value-u128_to_digits (p % q) (omega (arith, hp, low)) in
    record {
      whole = rw (quotient, remainder, ← hq) (omega (arith, back));
      below = rw (remainder, ← hq) small;
      quotient = u128_to_digits-IsTrimmed (p / q) (omega (arith, hp, high));
      remainder = u128_to_digits-IsTrimmed (p % q) (omega (arith, hp, low));
    }

module _ (a d : List ℕ) (ha : IsTrimmed a) (hd : IsTrimmed d) (positive : 1 ≤ value d) where
  slow : IsDivision (value a) d (div_rounds (suc (value a)) a (0 ∷ []) d)
  slow =
      let same : value (0 ∷ []) * value d + value a ≡ value a =
        omega (arith, ap (λ (t : ℕ). t * value d) (value-one_digit 0)) in
      rw same at (
        div_rounds_lem d hd positive (suc (value a)) a (0 ∷ []) ha
          (one_digit-IsTrimmed 0 (omega arith)) (omega arith))

  divide-IsDivision :
      (x y : Option ℕ)
      → ReadAs (value a) x
      → ReadAs (value d) y
      → IsDivision (value a) d (divide a d x y)
  unfolding divide
  divide-IsDivision none none hx hy = slow
  divide-IsDivision none (some q) hx hy = slow
  divide-IsDivision (some p) none hx hy = slow
  divide-IsDivision (some p) (some q) hx hy =
      let (ep, fits) = some-ReadAs (value a) p hx in
      let (eq, _) = some-ReadAs (value d) q hy in
      rw (← ep) (fast p q d (omega (arith, ep, fits)) eq (omega (arith, eq, positive)))

-- Division of magnitudes without leading zeros by one that is not zero: a quotient and a remainder,
-- again without leading zeros, at any size. The subtraction loop ends within its fuel.
pub div_mod_mag-IsDivision :
    (a d : List ℕ)
    → IsTrimmed a
    → IsTrimmed d
    → 1 ≤ value d
    → IsDivision (value a) d (div_mod_mag a d)
unfolding div_mod_mag
div_mod_mag-IsDivision a d ha hd positive = elim (Bool-cases (ltb (value a) (value d))) [
  | inl less ↦
      let test : is_less (cmp_mag a d) ≡ true = is_less-cmp_mag a d ha hd ∙ less in
      let nothing : value (0 ∷ []) * value d + value a ≡ value a =
        omega (arith, ap (λ (t : ℕ). t * value d) (value-one_digit 0)) in
      rw (all_zero-value d positive, test)
        (record {
          whole = nothing;
          below = ground arith;
          quotient = one_digit-IsTrimmed 0 (omega arith);
          remainder = ha;
        })
  | inr more ↦
      let test : is_less (cmp_mag a d) ≡ false = is_less-cmp_mag a d ha hd ∙ more in
      rw (all_zero-value d positive, test)
        (divide-IsDivision a d ha hd positive _ _ (digits_to_u128-ReadAs a)
          (digits_to_u128-ReadAs d))
]
