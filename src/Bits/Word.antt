-- ===== src/Bits/Word.antt =====
-- Shifting and splitting numbers by powers of two.
use aitest.Prelude.{ℕ, suc, ◌+◌, ◌*◌, ◌/◌, ◌%◌, ◌^◌, ◌≤◌, ◌≡◌, ◌∙◌, sym, ap, arith}
use native.Mathlib.Nat.{pow-suc, div-div-eq-div-mul, div-add-mod, mul_comm, pow-le-pow_right}

-- `(v >> k) >> 1` is `v >> (k + 1)`.
pub shift_again : (v k : ℕ) → v / 2 ^ k / 2 ≡ v / 2 ^ suc k
shift_again v k = div-div-eq-div-mul v (2 ^ k) 2 ∙ ap (λ (t : ℕ). v / t) (sym (pow-suc 2 k))

-- A shift by one more gives back the higher bits; the bit shifted out is the last one.
pub next_bit_up : (v k : ℕ) → v / 2 ^ suc k * 2 + v / 2 ^ k % 2 ≡ v / 2 ^ k
next_bit_up v k = omega (arith, shift_again v k)

-- One more low bit.
pub next_bit_down : (v k : ℕ) → v % 2 ^ k + v / 2 ^ k % 2 * 2 ^ k ≡ v % 2 ^ suc k
next_bit_down v k = omega (
  arith,
  div-add-mod v (2 ^ k),
  div-add-mod v (2 ^ suc k),
  ap (λ (t : ℕ). t * (v / 2 ^ suc k)) (pow-suc 2 k),
  ap (λ (t : ℕ). 2 ^ k * t) (next_bit_up v k),
)

-- One more high bit.
pub next_bit_low : (w k : ℕ) → w / 2 % 2 ^ k * 2 + w % 2 ≡ w % 2 ^ suc k
next_bit_low w k = omega (
  arith,
  div-add-mod w (2 ^ suc k),
  div-add-mod (w / 2) (2 ^ k),
  div-div-eq-div-mul w 2 (2 ^ k),
  pow-suc 2 k,
  ap (λ (t : ℕ). w / t) (mul_comm 2 (2 ^ k) ∙ sym (pow-suc 2 k)),
  ap (λ (t : ℕ). t * (w / 2 ^ suc k)) (pow-suc 2 k),
  ap (λ (t : ℕ). 2 ^ k * t)
      (div-div-eq-div-mul w 2 (2 ^ k)
        ∙ ap (λ (t : ℕ). w / t) (mul_comm 2 (2 ^ k) ∙ sym (pow-suc 2 k))),
)

pub pow_mono : (j k : ℕ) → j ≤ k → 2 ^ j ≤ 2 ^ k
pow_mono j k h = pow-le-pow_right (omega arith) h
