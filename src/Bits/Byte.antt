-- ===== src/Bits/Byte.antt =====
-- One bit of a byte: its value, and what setting it does. A byte has 256 values, so these facts are
-- checked by evaluation.
use aitest.Prelude.{
  ℕ, zero, suc, ◌*◌, ◌/◌, ◌%◌, ◌^◌, ◌<◌, bit_and, bit_or, ◌≡◌, refl, arith, Bool, true, ◌&&◌, ltb,
  ◌==◌, if◌then◌else◌,
}
use aitest.Bits.Digit.{zero-bit_and}
use native.Mathlib.Nat.{zero-div}

unfoldable pub all_below : ℕ → (ℕ → Bool) → Bool
all_below zero p = true
all_below (suc n) p = p n && all_below n p

pub all_below-at : (n : ℕ) (p : ℕ → Bool) (x : ℕ) → all_below n p ≡ true → x < n → p x ≡ true
unfolding all_below
all_below-at zero p x h lt = absurd (omega arith)
all_below-at (suc n) p x h lt = ground (arith, all_below-at n p x)

-- `(byte >> s) & 1`, and `byte | ((bit & 1) << s)` on a byte.
abbrev pub bit_from : ℕ → ℕ → ℕ
bit_from byte s = bit_and (byte / 2 ^ s) 1

abbrev pub or_bit : ℕ → ℕ → ℕ → ℕ
or_bit byte s bit = bit_or byte (bit_and bit 1 * 2 ^ s % 2 ^ 8)

pub zero-bit_from : (s : ℕ) → bit_from 0 s ≡ 0
zero-bit_from s = rw zero-div (zero-bit_and 1)

-- Setting a clear bit of a byte stores the bit, keeps the others, and gives a byte.
stores : ℕ → ℕ → ℕ → ℕ → Bool
stores x s b t =
    if bit_from x s == 0
    then ltb (or_bit x s b) 256
      && (bit_from (or_bit x s b) t == (if t == s then b else bit_from x t))
    else true

store_table :
    all_below 256 (λ x. all_below 8 (λ s. all_below 2 (λ b. all_below 8 (stores x s b)))) ≡ true
unfolding all_below stores
store_table = refl

stores_at : (x s b t : ℕ) → x < 256 → s < 8 → b < 2 → t < 8 → stores x s b t ≡ true
stores_at x s b t hx hs hb ht =
    all_below-at 8 _ t
      (all_below-at 2 _ b (all_below-at 8 _ s (all_below-at 256 _ x store_table hx) hs) hb) ht

pub or_bit_lem :
    (x s b t : ℕ)
    → x < 256
    → s < 8
    → b < 2
    → t < 8
    → bit_from x s ≡ 0
    → (or_bit x s b < 256) × (bit_from (or_bit x s b) t ≡ (if t == s then b else bit_from x t))
unfolding stores
or_bit_lem x s b t hx hs hb ht clear = ground (arith, stores_at x s b t hx hs hb ht)
