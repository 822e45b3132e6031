-- ===== src/Cursor.antt =====
-- The bit reader of dfdl-vm/src/vm/runtime/cursor.rs. A method that takes `&mut self` is a step on
-- a `Cursor`. The field `data` is `bytes` here. A `usize` is a number without a bound, since the
-- data lie in memory; the saturating operations name the bound.
pub mod Read
pub mod Bytes
pub mod Move
use aitest.Prelude.{
  ℕ, zero, suc, ◌+◌, ◌-◌, ◌*◌, ◌/◌, ◌%◌, ◌^◌, min, bit_and, bit_or, Bool, true, false, ◌&&◌, Option,
  none, some, List, [], ◌∷◌, ◌++◌, length, get_or, take, drop, replicate, ltb, leb, ◌==◌,
  if◌then◌else◌,
}
use aitest.Schema.{BitOrder, most_significant_bit_first, least_significant_bit_first}
use aitest.Bits.Byte.{bit_from}
use aitest.Stream.{Regions, order_in_regions, bit_in_order, usize_max}
use aitest.Error.{
  VmError, invalid_value, unexpected_eof, Message, insufficient_bits, too_many_stream_bits,
  rewind_past_start, hex_code_unit, Result, ok, err, Step, finish, map_err,
}

pub record Cursor : Type 0 where
  pub bytes : List ℕ
  pub pos : ℕ
  pub bit_buffer : ℕ
  pub bit_count : ℕ
  pub frame_bit_limit : Option ℕ
  pub transmission_bit_order : BitOrder
  pub tdml_bit_order_regions : Option Regions

abbrev pub Reader : Type 0 → Type 0
Reader A = Step Cursor A

infixl 5 ◌>>=◌ ◌>>◌
abbrev pub ◌>>=◌ : {A B : Type 0} → Reader A → (A → Reader B) → Reader B
◌>>=◌ m f c = finish (m c) f

abbrev pub ◌>>◌ : {B : Type 0} → Reader (Unit {0}) → Reader B → Reader B
m >> k = m >>= λ _. k

abbrev pub pure : {A : Type 0} → A → Reader A
pure a c = (ok a, c)

abbrev pub fail : {A : Type 0} → VmError → Reader A
fail e c = (err e, c)

-- `map_err` with a closure that reads `self` after the step.
abbrev pub map_err_with : {A : Type 0} → (Cursor → VmError → VmError) → Reader A → Reader A
map_err_with f m c = let (r, c') = m c in (map_err (f c') r, c')

unfoldable pub new : List ℕ → Cursor
new bytes = record {
  bytes = bytes;
  pos = 0;
  bit_buffer = 0;
  bit_count = 0;
  frame_bit_limit = none;
  transmission_bit_order = most_significant_bit_first;
  tdml_bit_order_regions = none;
}

unfoldable pub with_frame_bits : List ℕ → ℕ → Cursor
with_frame_bits bytes frame_bits = record {
  bytes = bytes;
  pos = 0;
  bit_buffer = 0;
  bit_count = 0;
  frame_bit_limit = some frame_bits;
  transmission_bit_order = most_significant_bit_first;
  tdml_bit_order_regions = none;
}

unfoldable pub with_frame_bits_and_transmission : List ℕ → ℕ → BitOrder → Cursor
with_frame_bits_and_transmission bytes frame_bits order = record {
  bytes = bytes;
  pos = 0;
  bit_buffer = 0;
  bit_count = 0;
  frame_bit_limit = some frame_bits;
  transmission_bit_order = order;
  tdml_bit_order_regions = none;
}

unfoldable pub tdml_bit_order_at : Cursor → ℕ → BitOrder
unfolding order_in_regions
tdml_bit_order_at c bit_idx = elim c.tdml_bit_order_regions [
  | none ↦ c.transmission_bit_order
  | some regions ↦ order_in_regions regions bit_idx c.transmission_bit_order 0
]

unfoldable pub absolute_bit_index : Cursor → ℕ
absolute_bit_index c = c.pos * 8 + c.bit_count

unfoldable pub effective_field_bit_order : Cursor → BitOrder → BitOrder
unfolding tdml_bit_order_at absolute_bit_index
effective_field_bit_order c schema_order = elim c.tdml_bit_order_regions [
  | none ↦ schema_order
  | some _ ↦ tdml_bit_order_at c (absolute_bit_index c)
]

unfoldable pub remaining : Cursor → ℕ
remaining c = length c.bytes - c.pos

unfoldable pub is_frame_consumed : Cursor → Bool
unfolding absolute_bit_index remaining
is_frame_consumed c = elim c.frame_bit_limit [
  | none ↦ remaining c == 0 && c.bit_count == 0
  | some limit ↦ leb limit (absolute_bit_index c)
]

unfoldable pub advance : ℕ → Cursor → Cursor
advance n c = record c { pos = min (min (c.pos + n) usize_max) (length c.bytes); bit_count = 0 }

unfoldable pub slice : Cursor → ℕ → Option (List ℕ)
unfolding remaining
slice c n =
    if c.bit_count == 0
    then if leb n (remaining c) then some (take n (drop c.pos c.bytes)) else none
    else none

unfoldable pub read_bytes : ℕ → Cursor → Option (List ℕ) × Cursor
unfolding slice advance
read_bytes n c =
    if c.bit_count == 0
    then elim (slice c n) [ none ↦ (none, c) | some out ↦ (some out, advance n c) ]
    else (none, c)

-- The limit of the frame, where there is one, and the end of the data.
unfoldable pub past_end : Cursor → ℕ → Bool
past_end c idx = elim c.frame_bit_limit [
  | none ↦ leb (length c.bytes) (idx / 8)
  | some limit ↦ if leb limit idx then true else leb (length c.bytes) (idx / 8)
]

unfoldable pub read_stream_bit : BitOrder → Reader ℕ
unfolding past_end absolute_bit_index effective_field_bit_order bit_in_order
read_stream_bit field_bit_order c =
    let idx = absolute_bit_index c in
    let byte_idx = idx / 8 in
    let count = c.bit_count + 1 in
    if past_end c idx then (err unexpected_eof, c) else (
      ok (
          bit_in_order (effective_field_bit_order c field_bit_order) (get_or c.bytes byte_idx 0)
            (idx % 8)),
      if count == 8
          then record c { bit_count = 0; pos = byte_idx + 1 }
          else record c { bit_count = count; pos = byte_idx },
    )

-- An end of input becomes a message that says how many bits were there.
unfoldable pub insufficient_data : ℕ → ℕ → Cursor → VmError → VmError
unfolding absolute_bit_index
insufficient_data requested start c unexpected_eof =
    invalid_value (insufficient_bits requested (absolute_bit_index c - start))
insufficient_data requested start c e = e

unfoldable pub read_stream_bit_with_hint : ℕ → ℕ → BitOrder → Reader ℕ
unfolding insufficient_data read_stream_bit
read_stream_bit_with_hint requested start bit_order =
    map_err_with (insufficient_data requested start) (read_stream_bit bit_order)

-- `for _ in 0..n`, with `left` rounds to go.
unfoldable pub skip_rounds : ℕ → ℕ → ℕ → BitOrder → Reader (Unit {0})
skip_rounds zero n start bit_order = pure tt
skip_rounds (suc left) n start bit_order = do
  read_stream_bit_with_hint n start bit_order >>= λ _. skip_rounds left n start bit_order

unfoldable pub skip_stream_bits : ℕ → BitOrder → Reader (Unit {0})
unfolding skip_rounds absolute_bit_index
skip_stream_bits n bit_order c = skip_rounds n n (absolute_bit_index c) bit_order c

unfoldable pub rewind_stream_bits : ℕ → Reader (Unit {0})
unfolding absolute_bit_index
rewind_stream_bits n c =
    let new_abs = absolute_bit_index c - n in
    if n == 0
    then (ok tt, c)
    else if ltb (absolute_bit_index c) n
    then (err (invalid_value rewind_past_start), c)
    else (ok tt, record c { pos = new_abs / 8; bit_count = new_abs % 8 })

unfoldable pub skip_to_bit_index : ℕ → BitOrder → Reader (Unit {0})
unfolding skip_stream_bits
skip_to_bit_index target bit_order c =
    if ltb (absolute_bit_index c) target
    then skip_stream_bits (target - absolute_bit_index c) bit_order c
    else (ok tt, c)

-- `(value << 1) | bit` and `value | (bit << i)` on a `u64`.
unfoldable pub join_bit : BitOrder → ℕ → ℕ → ℕ → ℕ
join_bit most_significant_bit_first i value bit = bit_or (value * 2 % 2 ^ 64) bit
join_bit least_significant_bit_first i value bit = bit_or value (bit * 2 ^ i % 2 ^ 64)

-- Round `i` of the loop, with `left` rounds to go.
unfoldable pub read_rounds : ℕ → ℕ → ℕ → ℕ → BitOrder → ℕ → Reader ℕ
read_rounds zero i n start field_order value = pure value
read_rounds (suc left) i n start field_order value = do
  bit ← read_stream_bit_with_hint n start field_order
  read_rounds left (i + 1) n start field_order (join_bit field_order i value bit)

unfoldable pub read_stream_bits : ℕ → BitOrder → Reader ℕ
unfolding read_rounds absolute_bit_index effective_field_bit_order
read_stream_bits n bit_order c =
    let start = absolute_bit_index c in
    let field_order = effective_field_bit_order c bit_order in
    if n == 0
    then (ok 0, c)
    else if ltb 64 n
    then (err (invalid_value (too_many_stream_bits n)), c)
    else read_rounds n 0 n start field_order 0 c
