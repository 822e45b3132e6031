-- ===== src/RoundTrip.antt =====
-- The bit writer of dfdl-vm/src/vm/runtime/binary.rs against the bit reader of
-- dfdl-vm/src/vm/runtime/cursor.rs: what is written is read back.
pub mod Sequence
use aitest.Prelude.{
  ℕ, zero, suc, ◌+◌, ◌*◌, ◌%◌, ◌^◌, ◌≤◌, ◌<◌, ◌≡◌, refl, ap, ◌∙◌, arith, some, length,
}
use aitest.Schema.{BitOrder}
use aitest.Bits.Field.{field_value, bit_of_field, field_value_ext, field_value-bit_of_field}
use aitest.Stream.{Output, write_stream_bits}
use aitest.Stream.Write.{IsOutput, position, stream_bit, position-le-length}
use aitest.Stream.Field.{write_stream_bits-Extended}
use aitest.Cursor.{Cursor, new, absolute_bit_index, read_stream_bits}
use aitest.Cursor.Read.{at, end_of, absolute_bit_index-at, read_stream_bits-enough, bits_at}
use aitest.Error.{ok}
use native.Mathlib.Nat.{le_trans}

-- A cursor over the output that stands at the bit `start`.
abbrev pub reader_of : Output → ℕ → Cursor
reader_of o start = at (new o.out) start

module _ (order : BitOrder) (o w : Output) (value n : ℕ) where
  pub read_added :
      position o + n ≤ length w.out * 8
      → 0 < n
      → n ≤ 64
      → ((t : ℕ) → t < n → stream_bit order w.out (position o + t) ≡ bit_of_field order value n t)
      → read_stream_bits n order (reader_of w (position o))
        ≡ (ok (value % 2 ^ n), reader_of w (position o + n))
  unfolding new at end_of
  read_added inside some_bits fits added =
      let c = reader_of w (position o) in
      let here : absolute_bit_index c ≡ position o =
        absolute_bit_index-at (new w.out) (position o) in
      let same : field_value order (bits_at order c) n ≡ value % 2 ^ n =
        field_value_ext order _ _ n
          (λ t h. ap (λ (p : ℕ). stream_bit order w.out (p + t)) here ∙ added t h)
        ∙ field_value-bit_of_field order value n in
      read_stream_bits-enough order c n refl (omega arith) some_bits fits (rw here inside)
      ∙ rw (same, here)

-- Writing `n` bits of a value and reading `n` bits from the same place, in the same order, gives
-- the `n` low bits of the value and leaves the cursor where the writer stopped: for every output
-- between two bits, aligned or not, and every `n` up to 64. The write does not panic.
pub read-write :
    (order : BitOrder) (o : Output) (value n : ℕ)
    → IsOutput order o
    → n ≤ 64
    → (w : Output) × (write_stream_bits o value n order ≡ some w)
      × (read_stream_bits n order (reader_of w (position o))
          ≡ (ok (value % 2 ^ n), reader_of w (position w)))
unfolding write_stream_bits read_stream_bits
read-write order o value zero v fits = (o, refl, ground arith)
read-write order o value (suc m) v fits =
    let e = write_stream_bits-Extended order o value (suc m) v fits in
    (
      e.after,
      e.returns,
      rw e.moved (
          read_added order o e.after value (suc m)
            (le_trans (omega (arith, e.moved)) (position-le-length order e.after e.valid))
            (omega arith) fits e.added),
    )
