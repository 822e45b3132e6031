-- ===== src/Text/Decimal.antt =====
-- Decimal digits: what `to_string` prints, how a print fits a width, and what is parsed back.
use aitest.Prelude.{
  ℕ, zero, suc, ◌+◌, ◌-◌, ◌/◌, ◌%◌, ◌^◌, ◌≤◌, ◌<◌, ◌≡◌, refl, sym, ap, ◌∙◌, arith, [], ◌∷◌, ◌++◌,
  append_assoc, append-nil, length, drop, replicate, ltb, if◌then◌else◌, Bool-cases, inl, inr,
}
use aitest.Text.{Text, digit_rounds, u64_to_string, fit_width}
use native.Mathlib.Nat.{
  pow-suc, div-div-eq-div-mul, mul_comm, pow-le-pow_right, div-eq_of_lt, le_trans,
}

-- The `k` last decimal digits of `n`.
unfoldable pub padded : ℕ → ℕ → Text
padded zero n = []
padded (suc k) n = (b'0' + n / 10 ^ k % 10) ∷ padded k n

pub div_digit : (w k : ℕ) → w / 10 / 10 ^ k ≡ w / 10 ^ suc k
div_digit w k =
    div-div-eq-div-mul w 10 (10 ^ k)
    ∙ ap (λ (t : ℕ). w / t) (mul_comm 10 (10 ^ k) ∙ sym (pow-suc 10 k))

pub padded-snoc : (k n : ℕ) → padded (suc k) n ≡ padded k (n / 10) ++ (b'0' + n % 10) ∷ []
unfolding padded
padded-snoc zero n = let e : n / 1 ≡ n = omega arith in rw e
padded-snoc (suc k) n =
    rw (div_digit n k) (ap (λ s. (b'0' + n / 10 ^ suc k % 10) ∷ s) (padded-snoc k n))

-- The number of digits that `to_string` prints.
digit_count : ℕ → ℕ → ℕ
digit_count zero n = 0
digit_count (suc fuel) n =
    let more = suc (digit_count fuel (n / 10)) in if ltb n 10 then 1 else more

digit_rounds-padded :
    (fuel n : ℕ) (out : Text)
    → n < 10 ^ fuel
    → (digit_rounds fuel n out ≡ padded (digit_count fuel n) n ++ out)
      × (n < 10 ^ digit_count fuel n)
unfolding digit_rounds digit_count padded
digit_rounds-padded zero n out h = (refl, h)
digit_rounds-padded (suc fuel) n out h = elim (Bool-cases (ltb n 10)) [
  | inl small ↦
      let e : n / 1 % 10 ≡ n = ground arith in
      rw small (ap (λ (d : ℕ). (b'0' + d) ∷ out) (sym e), ground arith)
  | inr more ↦
      let (same, room) =
        digit_rounds-padded fuel (n / 10) ((b'0' + n % 10) ∷ out)
          (omega (arith, pow-suc 10 fuel)) in
      rw more (
        same
            ∙ sym (
                ap (λ s. s ++ out) (padded-snoc (digit_count fuel (n / 10)) n)
                ∙ append_assoc (padded (digit_count fuel (n / 10)) (n / 10)) ((b'0' + n % 10) ∷ [])
                    out),
        omega (arith, room, pow-suc 10 (digit_count fuel (n / 10))),
      )
]

-- No leading zeros: the print is no longer than any width that holds the number.
digit_count-least : (fuel n k : ℕ) → 1 ≤ k → n < 10 ^ k → digit_count fuel n ≤ k
unfolding digit_count
digit_count-least zero n k hk h = omega arith
digit_count-least (suc fuel) n zero hk h = absurd (omega arith)
digit_count-least (suc fuel) n (suc k) hk h = elim (Bool-cases (ltb n 10)) [
  | inl small ↦ rw small (omega arith)
  | inr more ↦
      elim k
          as (λ j.
            n < 10 ^ suc j → (if ltb n 10 then 1 else suc (digit_count fuel (n / 10))) ≤ suc j) [
              | zero ↦ λ h'. absurd (ground (arith, h'))
              | suc j ↦ λ h'. rw more (
                  omega (
                    arith,
                    digit_count-least fuel (n / 10) (suc j) (omega arith)
                        (omega (arith, h', pow-suc 10 (suc j))),
                  ))
            ]
        h
]

-- A print of `n`, and its length: enough for the number, and no more.
pub record IsPrint (n : ℕ) (s : Text) : Type 0 where
  pub count : ℕ
  pub same : s ≡ padded count n
  pub room : n < 10 ^ count
  pub least : (k : ℕ) → 1 ≤ k → n < 10 ^ k → count ≤ k

pub u64_to_string-IsPrint : (n : ℕ) → n < 2 ^ 64 → IsPrint n (u64_to_string n)
unfolding u64_to_string
u64_to_string-IsPrint n h =
    let (same, room) = digit_rounds-padded 20 n [] (omega arith) in
    record {
      count = digit_count 20 n;
      same = same ∙ append-nil _;
      room = room;
      least = digit_count-least 20 n;
    }

pub length-padded : (k n : ℕ) → length (padded k n) ≡ k
unfolding padded
length-padded zero n = refl
length-padded (suc k) n = ap suc (length-padded k n)

drop-padded : (d k n : ℕ) → drop d (padded (d + k) n) ≡ padded k n
unfolding padded
drop-padded zero k n = let e : 0 + k ≡ k = omega arith in rw e
drop-padded (suc d) k n = let e : suc d + k ≡ suc (d + k) = omega arith in rw e (drop-padded d k n)

pub replicate-padded : (d k n : ℕ) → n < 10 ^ k → replicate d b'0' ++ padded k n ≡ padded (d + k) n
unfolding padded
replicate-padded zero k n h = let e : 0 + k ≡ k = omega arith in rw e
replicate-padded (suc d) k n h =
    let e : suc d + k ≡ suc (d + k) = omega arith in
    let below : n < 10 ^ (d + k) = le_trans h (pow-le-pow_right (omega arith) (omega arith)) in
    rw (e, div-eq_of_lt below) (ap (λ s. b'0' ∷ s) (replicate-padded d k n h))

-- Padding with zeros and cutting from the left both give the last digits.
pub fit_width-padded : (k l n : ℕ) → n < 10 ^ l → fit_width b'0' k (padded l n) ≡ padded k n
unfolding fit_width
fit_width-padded k l n h = elim (Bool-cases (ltb k l)) [
  | inl cut ↦
      let e : l - k + k ≡ l = ground arith in
      rw (length-padded, cut) (rw e at (drop-padded (l - k) k n))
  | inr pad ↦
      let e : k - l + l ≡ k = ground arith in
      rw (length-padded, pad) (rw e at (replicate-padded (k - l) l n h))
]

-- A `u64` printed at a width: its last digits.
pub fit_width-u64_to_string :
    (k n : ℕ) → n < 2 ^ 64 → fit_width b'0' k (u64_to_string n) ≡ padded k n
unfolding u64_to_string
fit_width-u64_to_string k n h =
    let (same, room) = digit_rounds-padded 20 n [] (omega arith) in
    rw (same, append-nil) (fit_width-padded k _ n room)
