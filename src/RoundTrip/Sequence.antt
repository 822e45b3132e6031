-- ===== src/RoundTrip/Sequence.antt =====
-- Sequences of fields that the bit writer of dfdl-vm/src/vm/runtime/binary.rs appends to one output,
-- and the fields that the bit reader of dfdl-vm/src/vm/runtime/cursor.rs finds in it.
use aitest.Prelude.{
  ℕ, ◌+◌, ◌*◌, ◌%◌, ◌^◌, ◌≤◌, ◌<◌, ◌≡◌, refl, sym, ◌∙◌, arith, Option, some, List, length,
}
use mathlib.Core.Path.{subst, subst⁻¹}
use mathlib.Core.Option.{some-injective}
use aitest.Schema.{BitOrder}
use aitest.Error.{ok}
use aitest.Stream.{Output, write_stream_bits, write_bits_from_stream}
use aitest.Stream.Write.{IsOutput, position, stream_bit, position-le-length}
use aitest.Stream.Field.{Extended, write_stream_bits-Extended, write_bits_from_stream-Extended}
use aitest.Cursor.{read_stream_bits}
use aitest.RoundTrip.{reader_of, read_added}

-- One call of the writer: a value of at most 64 bits, or the bits of another stream.
pub data Step (order : BitOrder) : Output → Output → Type 0 where
  value :
      {o w : Output} (v n : ℕ) → n ≤ 64 → write_stream_bits o v n order ≡ some w → Step order o w
  copied :
      {o w : Output} (src : List ℕ) (n : ℕ)
      → n ≤ length src * 8
      → write_bits_from_stream o src n order ≡ some w
      → Step order o w

-- Calls one after the other, in one bit order.
pub data Steps (order : BitOrder) (o : Output) : Output → Type 0 where
  start : Steps order o o
  next : {v w : Output} → Steps order o v → Step order v w → Steps order o w

-- `w` stands between two bits, and holds the bits of `o` where they were.
pub record IsLater (order : BitOrder) (o w : Output) : Type 0 where
  pub valid : IsOutput order w
  pub moved : position o ≤ position w
  pub kept : (i : ℕ) → i < position o → stream_bit order w.out i ≡ stream_bit order o.out i

Extended-IsLater :
    (order : BitOrder) (o w : Output) (n : ℕ) (f : ℕ → ℕ) (result : Option Output)
    → Extended order o n f result
    → result ≡ some w
    → IsLater order o w
Extended-IsLater order o w n f result e r =
    let same : e.after ≡ w = some-injective _ _ (sym e.returns ∙ r) in
    subst (IsLater order o) same
      (record { valid = e.valid; moved = omega (arith, e.moved); kept = e.kept })

Step-IsLater :
    {order : BitOrder} {o w : Output} → IsOutput order o → Step order o w → IsLater order o w
Step-IsLater h (value v n fits r) =
    Extended-IsLater _ _ _ n _ _ (write_stream_bits-Extended _ _ v n h fits) r
Step-IsLater h (copied src n fits r) =
    Extended-IsLater _ _ _ n _ _ (write_bits_from_stream-Extended _ _ src n h fits) r

-- Every sequence of calls keeps the output between two bits, with nothing set behind the last bit
-- written, and changes no bit that was written before it.
pub Steps-IsLater :
    (order : BitOrder) (o w : Output) → IsOutput order o → Steps order o w → IsLater order o w
Steps-IsLater order o w h start = record { valid = h; moved = omega arith; kept = λ i lt. refl }
Steps-IsLater order o w h (next before s) =
    let a = Steps-IsLater order o _ h before in
    let b = Step-IsLater a.valid s in
    record {
      valid = b.valid;
      moved = omega (arith, a.moved, b.moved);
      kept = λ i lt. b.kept i (omega (arith, a.moved)) ∙ a.kept i lt;
    }

-- A field of 1 to 64 bits behind an output that is between two bits is read back at its place in its
-- bit order, whatever sequence of calls in the same bit order writes behind it.
pub read-write_later :
    (order : BitOrder) (o mid w : Output) (v n : ℕ)
    → IsOutput order o
    → 0 < n
    → n ≤ 64
    → write_stream_bits o v n order ≡ some mid
    → Steps order mid w
    → read_stream_bits n order (reader_of w (position o))
      ≡ (ok (v % 2 ^ n), reader_of w (position o + n))
read-write_later order o mid w v n h some_bits fits r s =
    let e = write_stream_bits-Extended order o v n h fits in
    let same : e.after ≡ mid = some-injective _ _ (sym e.returns ∙ r) in
    let l : IsLater order e.after w =
      subst⁻¹ (λ (t : Output). IsLater order t w) same
        (Steps-IsLater order mid w (subst (IsOutput order) same e.valid) s) in
    read_added order o w v n (omega (arith, e.moved, l.moved, position-le-length order w l.valid))
      some_bits fits (λ t lt. l.kept (position o + t) (omega (arith, e.moved)) ∙ e.added t lt)
