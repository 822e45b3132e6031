-- ===== src/Packed/Pairs.antt =====
-- Two decimal digits in a byte: the loops of dfdl-vm/src/vm/packed_decimal.rs and of
-- `u64_to_bcd_bytes` write them, and the decoders read them.
use aitest.Prelude.{
  ℕ, zero, suc, ◌+◌, ◌-◌, ◌*◌, ◌/◌, ◌%◌, ◌^◌, ◌<◌, ◌≡◌, refl, ◌∙◌, arith, bit_and, bit_or, Bool,
  true, false, List, [], ◌∷◌, ◌++◌, some,
}
use aitest.Bits.{bit_and_mask, bit_or-above}
use aitest.Error.{ok, VmError, invalid_value, invalid_packed_bcd_digit}
use aitest.Text.{Text}
use aitest.Text.Decimal.{padded}
use aitest.Packed.{order_bytes, byte_digits, bytes_digits, split_last}
use aitest.Packed.Encode.{digit_of, pair_byte, pack_rounds, chunk_bytes}
use mathlib.Core.List.{reverse-reverse}

-- The `2 * w` last digits of `n`, two in a byte.
pub bcd_bytes : ℕ → ℕ → List ℕ
bcd_bytes zero n = []
bcd_bytes (suc w) n = (n / 10 ^ suc (w * 2) % 10 * 16 + n / 10 ^ (w * 2) % 10) ∷ bcd_bytes w n

pub digit_byte : (d : ℕ) → d < 10 → d * 2 ^ 4 % 2 ^ 8 ≡ d * 2 ^ 4
digit_byte d h = omega arith

pub pair_byte_lem :
    (e : VmError) (hi lo : ℕ) → hi < 10 → lo < 10 → pair_byte e hi lo ≡ ok (hi * 16 + lo)
unfolding pair_byte
pair_byte_lem e hi lo hh hl =
    let s : bit_or (hi * 2 ^ 4 % 2 ^ 8) lo ≡ hi * 16 + lo =
      rw (digit_byte hi hh) (bit_or-above 4 hi lo (omega arith)) in
    rw s (ground arith)

pub digit_of_lem : (d : ℕ) → digit_of (b'0' + d) ≡ ok d
unfolding digit_of
digit_of_lem d = let e : b'0' + d - b'0' ≡ d = omega arith in rw e (ground arith)

byte_digits_lem :
    (hi lo : ℕ)
    → hi < 10
    → lo < 10
    → byte_digits (hi * 16 + lo) ≡ ok ((b'0' + hi) ∷ (b'0' + lo) ∷ [])
unfolding byte_digits
byte_digits_lem hi lo hh hl =
    let e : (hi * 16 + lo) / 2 ^ 4 ≡ hi = omega arith in
    let s : bit_and (hi * 16 + lo) 0x0f ≡ lo = bit_and_mask 4 (hi * 16 + lo) ∙ omega arith in
    rw (e, s) (ground arith)

-- The decoders' loop reads the digits back.
pub bytes_digits-bcd_bytes : (w n : ℕ) → bytes_digits (bcd_bytes w n) ≡ ok (padded (w * 2) n)
unfolding bytes_digits bcd_bytes padded
bytes_digits-bcd_bytes zero n = refl
bytes_digits-bcd_bytes (suc w) n =
    let e : suc w * 2 ≡ suc (suc (w * 2)) = omega arith in
    rw
      (
        e,
        byte_digits_lem (n / 10 ^ suc (w * 2) % 10) (n / 10 ^ (w * 2) % 10) (omega arith)
            (omega arith),
        bytes_digits-bcd_bytes w n,
      )
      refl

-- The packed encoder's loop writes the digits, and leaves what is behind them.
pub pack_rounds-padded :
    (w n : ℕ) (rest : Text) → pack_rounds w (padded (w * 2) n ++ rest) ≡ ok (bcd_bytes w n, rest)
unfolding pack_rounds bcd_bytes padded
pack_rounds-padded zero n rest = refl
pack_rounds-padded (suc w) n rest =
    let e : suc w * 2 ≡ suc (suc (w * 2)) = omega arith in
    rw
      (
        e,
        digit_of_lem,
        digit_of_lem,
        pair_byte_lem (invalid_value invalid_packed_bcd_digit) (n / 10 ^ suc (w * 2) % 10)
            (n / 10 ^ (w * 2) % 10) (omega arith) (omega arith),
        pack_rounds-padded w n rest,
      )
      refl

-- The BCD encoder's loop writes the same bytes.
pub chunk_bytes-padded : (w n : ℕ) → chunk_bytes (padded (w * 2) n) ≡ ok (bcd_bytes w n)
unfolding chunk_bytes bcd_bytes padded
chunk_bytes-padded zero n = refl
chunk_bytes-padded (suc w) n =
    let e : suc w * 2 ≡ suc (suc (w * 2)) = omega arith in
    let hi : (b'0' + n / 10 ^ suc (w * 2) % 10 + 2 ^ 8 - b'0') % 2 ^ 8 ≡ n / 10 ^ suc (w * 2) % 10 =
      omega arith in
    let lo : (b'0' + n / 10 ^ (w * 2) % 10 + 2 ^ 8 - b'0') % 2 ^ 8 ≡ n / 10 ^ (w * 2) % 10 =
      omega arith in
    rw
      (
        e,
        hi,
        lo,
        pair_byte_lem _ (n / 10 ^ suc (w * 2) % 10) (n / 10 ^ (w * 2) % 10) (omega arith)
            (omega arith),
        chunk_bytes-padded w n,
      )
      refl

pub order_bytes_twice : (le : Bool) (b : List ℕ) → order_bytes (order_bytes b le) le ≡ b
unfolding order_bytes
order_bytes_twice true b = reverse-reverse b
order_bytes_twice false b = refl

pub split_last-snoc : (b : List ℕ) (x : ℕ) → split_last (b ++ x ∷ []) ≡ some (b, x)
unfolding split_last
split_last-snoc [] x = refl
split_last-snoc (a ∷ []) x = refl
split_last-snoc (a ∷ c ∷ b) x = rw (split_last-snoc (c ∷ b) x) refl
