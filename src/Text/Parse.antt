-- ===== src/Text/Parse.antt =====
-- `parse::<u64>` of printed digits.
use aitest.Prelude.{
  ℕ, zero, suc, ◌+◌, ◌-◌, ◌*◌, ◌/◌, ◌%◌, ◌^◌, ◌≤◌, ◌<◌, ◌≡◌, refl, sym, ap, ◌∙◌, arith, true, false,
  [], ◌∷◌, length, All, ltb, ◌==◌, if◌then◌else◌, some, Bool-cases, inl, inr,
}
use aitest.Text.{
  Text, trim_start_zeros, is_ascii_digit, parse_rounds, parse_u64_digits, parse_u64_text,
}
use aitest.Text.Decimal.{padded}
use native.Mathlib.Nat.{pow-suc, div-div-eq-div-mul, div-add-mod, one-le-pow}

-- One more digit at the high end.
next_digit : (k n : ℕ) → n % 10 ^ suc k ≡ n / 10 ^ k % 10 * 10 ^ k + n % 10 ^ k
next_digit k n =
    let q : n / 10 ^ k / 10 ≡ n / 10 ^ suc k =
      div-div-eq-div-mul n (10 ^ k) 10 ∙ ap (λ (t : ℕ). n / t) (sym (pow-suc 10 k)) in
    let digits : n / 10 ^ k ≡ 10 * (n / 10 ^ suc k) + n / 10 ^ k % 10 = omega (arith, q) in
    omega (
      arith,
      div-add-mod n (10 ^ suc k),
      div-add-mod n (10 ^ k),
      ap (λ (t : ℕ). 10 ^ k * t) digits,
      ap (λ (t : ℕ). t * (n / 10 ^ suc k)) (pow-suc 10 k),
    )

parse_rounds-padded :
    (k n acc : ℕ)
    → acc * 10 ^ k + n % 10 ^ k < 2 ^ 64
    → parse_rounds (padded k n) acc ≡ some (acc * 10 ^ k + n % 10 ^ k)
unfolding parse_rounds padded
parse_rounds-padded zero n acc h = let e : acc ≡ acc * 1 + n % 1 = omega arith in ap some e
parse_rounds-padded (suc k) n acc h =
    let d : b'0' + n / 10 ^ k % 10 - b'0' ≡ n / 10 ^ k % 10 = omega arith in
    let digit : is_ascii_digit (b'0' + n / 10 ^ k % 10) ≡ true = ground arith in
    let whole : (acc * 10 + n / 10 ^ k % 10) * 10 ^ k + n % 10 ^ k
        ≡ acc * 10 ^ suc k + n % 10 ^ suc k =
      omega (arith, next_digit k n, pow-suc 10 k, ap (λ (t : ℕ). acc * t) (pow-suc 10 k)) in
    let some_power : 1 ≤ 10 ^ k = one-le-pow k 10 (omega arith) in
    let more : acc * 10 + n / 10 ^ k % 10 ≤ (acc * 10 + n / 10 ^ k % 10) * 10 ^ k = grind arith in
    let room : ltb (acc * 10 + n / 10 ^ k % 10) (2 ^ 64) ≡ true = ground arith in
    rw (d, digit, room)
      (parse_rounds-padded k n (acc * 10 + n / 10 ^ k % 10) (omega (arith, whole, h))
        ∙ ap some whole)

abbrev pub IsDigit : ℕ → Type 0
IsDigit c = (b'0' ≤ c) × (c < 58)

pub padded-IsDigit : (k n : ℕ) → All IsDigit (padded k n)
unfolding padded
padded-IsDigit zero n = tt
padded-IsDigit (suc k) n = ((omega arith, omega arith), padded-IsDigit k n)

-- Leading zeros do not count.
parse_rounds-trim_start_zeros : (s : Text) → parse_rounds (trim_start_zeros s) 0 ≡ parse_rounds s 0
unfolding trim_start_zeros parse_rounds
parse_rounds-trim_start_zeros [] = refl
parse_rounds-trim_start_zeros (c ∷ s) = elim (Bool-cases (c == b'0')) [
  | inl same ↦
      let d : 0 * 10 + (c - b'0') ≡ 0 = ground arith in
      let digit : is_ascii_digit c ≡ true = ground arith in
      rw (same, d, digit) (parse_rounds-trim_start_zeros s)
  | inr other ↦ rw other refl
]

trim_start_zeros-IsDigit : (s : Text) → All IsDigit s → All IsDigit (trim_start_zeros s)
unfolding trim_start_zeros
trim_start_zeros-IsDigit [] h = tt
trim_start_zeros-IsDigit (c ∷ s) (hc, h) = elim (Bool-cases (c == b'0')) [
  | inl same ↦ rw same (trim_start_zeros-IsDigit s h)
  | inr other ↦ rw other (hc, h)
]

-- `if trimmed.is_empty() { "0" } else { trimmed }` is parsed as the digits are.
trimmed : Text → Text
trimmed s = if length s == 0 then b'0' ∷ [] else s

parse_u64_text-trimmed : (s : Text) → All IsDigit s → parse_u64_text (trimmed s) ≡ parse_rounds s 0
unfolding parse_u64_text parse_u64_digits parse_rounds trimmed
parse_u64_text-trimmed [] h = refl
parse_u64_text-trimmed (c ∷ s) ((low, high), h) =
    let sign : (c == b'+') ≡ false = ground arith in
    let e : (suc (length s) == 0) ≡ false = ground arith in rw (e, sign) refl

pub parse_u64_text-padded :
    (k n : ℕ)
    → n % 10 ^ k < 2 ^ 64
    → parse_u64_text (
        if length (trim_start_zeros (padded k n)) == 0
        then b'0' ∷ []
        else trim_start_zeros (padded k n))
      ≡ some (n % 10 ^ k)
unfolding trimmed
parse_u64_text-padded k n h =
    let e : 0 * 10 ^ k + n % 10 ^ k ≡ n % 10 ^ k = omega arith in
    parse_u64_text-trimmed (trim_start_zeros (padded k n))
      (trim_start_zeros-IsDigit (padded k n) (padded-IsDigit k n))
    ∙ parse_rounds-trim_start_zeros (padded k n)
    ∙ parse_rounds-padded k n 0 (rw e h)
    ∙ ap some e
