-- ===== src/Stream/Field.antt =====
-- Fields of several bits: the loops of `write_stream_bits` and `write_bits_from_stream`.
use aitest.Prelude.{
  ℕ, zero, suc, ◌+◌, ◌-◌, ◌*◌, ◌/◌, ◌^◌, ◌≤◌, ◌<◌, ◌≡◌, refl, ap, arith, Option, none, some, List,
  length, get_elem?-eq-get_or, ◌∙◌,
}
use aitest.Schema.{BitOrder, most_significant_bit_first, least_significant_bit_first}
use aitest.Bits.{bit_and-one}
use aitest.Bits.Field.{bit_of_field, bit_of_field-lt}
use aitest.Stream.{
  Output, ◌>>=◌, field_bit, write_rounds, write_stream_bits, write_stream_bit, read_packed_bit_at,
  copy_rounds, write_bits_from_stream,
}
use aitest.Stream.Write.{
  stream_bit, position, IsOutput, Appended, write_stream_bit-Appended, stream_bit-lt,
}

-- `result` is a return that appended `count` bits, the bit `f t` as number `t`.
pub record Extended (order : BitOrder) (o : Output) (count : ℕ) (f : ℕ → ℕ) (result : Option Output)
    : Type 0 where
  pub after : Output
  pub returns : result ≡ some after
  pub valid : IsOutput order after
  pub moved : position after ≡ position o + count
  pub kept : (i : ℕ) → i < position o → stream_bit order after.out i ≡ stream_bit order o.out i
  pub added : (t : ℕ) → t < count → stream_bit order after.out (position o + t) ≡ f t

Extended-none :
    (order : BitOrder) (o : Output) (f : ℕ → ℕ) → IsOutput order o → Extended order o 0 f (some o)
Extended-none order o f v = record {
  after = o;
  returns = refl;
  valid = v;
  moved = omega arith;
  kept = λ i h. refl;
  added = λ t h. absurd (omega arith);
}

Extended-next :
    (order : BitOrder) (o : Output) (count : ℕ) (f : ℕ → ℕ) (b : ℕ) (first result : Option Output)
    (a : Appended order o b first)
    → f 0 ≡ b
    → Extended order a.after count (λ t. f (suc t)) result
    → Extended order o (suc count) f result
Extended-next order o count f b first result a e r = record {
  after = r.after;
  returns = r.returns;
  valid = r.valid;
  moved = omega (arith, a.moved, r.moved);
  kept = λ i h. ground (arith, r.kept i, a.bits i, a.moved);
  added = next;
}
  where
    next : (t : ℕ) → t < suc count → stream_bit order r.after.out (position o + t) ≡ f t
    next zero h = ground (arith, r.kept (position o + 0), a.bits (position o + 0), a.moved)
    next (suc t) h =
        ap (stream_bit order r.after.out) (omega (arith, a.moved)) ∙ r.added t (omega arith)

field_bit_lem :
    (order : BitOrder) (value n t : ℕ)
    → n ≤ 64
    → t < n
    → field_bit order value n t ≡ some (bit_of_field order value n t)
unfolding field_bit bit_of_field
field_bit_lem most_significant_bit_first value n t hn ht =
    ground (arith, bit_and-one (value / 2 ^ (n - 1 - t)))
field_bit_lem least_significant_bit_first value n t hn ht =
    ground (arith, bit_and-one (value / 2 ^ t))

write_rounds_step :
    (left i value n : ℕ) (order : BitOrder) (o mid : Output) (b : ℕ)
    → field_bit order value n i ≡ some b
    → write_stream_bit o b order ≡ some mid
    → write_rounds (suc left) i o value n order none
      ≡ write_rounds left (i + 1) mid value n order none
unfolding write_rounds write_stream_bit
write_rounds_step left i value n order o mid b e e' = rw (e, e', ◌>>=◌)

write_rounds-Extended :
    (left i value n : ℕ) (order : BitOrder) (o : Output) (f : ℕ → ℕ)
    → n ≤ 64
    → i + left ≡ n
    → IsOutput order o
    → ((t : ℕ) → f t ≡ bit_of_field order value n (i + t))
    → Extended order o left f (write_rounds left i o value n order none)
write_rounds-Extended zero i value n order o f fits e v h =
    unfold write_rounds in Extended-none order o f v
write_rounds-Extended (suc left) i value n order o f fits e v h =
    let b = bit_of_field order value n i in
    let a = write_stream_bit-Appended order o b v (bit_of_field-lt order value n i) in
    rw
      (write_rounds_step left i value n order o a.after b
        (field_bit_lem order value n i fits (omega arith)) a.returns)
      (Extended-next order o left f b _ _ a (h 0 ∙ ap (bit_of_field order value n) (omega arith)) (
        write_rounds-Extended left (i + 1) value n order a.after (λ t. f (suc t)) fits (omega arith)
          a.valid (λ t. h (suc t) ∙ ap (bit_of_field order value n) (omega arith))))

-- `write_stream_bits` with at most 64 bits returns: it appends `n` bits of `value` in the given
-- order, keeps the bits written before, and leaves the output between two bits.
pub write_stream_bits-Extended :
    (order : BitOrder) (o : Output) (value n : ℕ)
    → IsOutput order o
    → n ≤ 64
    → Extended order o n (bit_of_field order value n) (write_stream_bits o value n order)
unfolding write_stream_bits
write_stream_bits-Extended order o value n v fits =
    write_rounds-Extended n 0 value n order o _ fits (omega arith) v
      (λ t. ap (bit_of_field order value n) (omega arith))

read_packed_bit_at_lem :
    (order : BitOrder) (bytes : List ℕ) (i : ℕ)
    → i < length bytes * 8
    → read_packed_bit_at bytes i order ≡ some (stream_bit order bytes i)
unfolding read_packed_bit_at stream_bit
read_packed_bit_at_lem order bytes i h = rw (get_elem?-eq-get_or bytes (i / 8) 0 (omega arith))

copy_rounds_step :
    (left i : ℕ) (order : BitOrder) (o mid : Output) (src : List ℕ) (b : ℕ)
    → read_packed_bit_at src i order ≡ some b
    → write_stream_bit o b order ≡ some mid
    → copy_rounds (suc left) i o src order none ≡ copy_rounds left (i + 1) mid src order none
unfolding copy_rounds write_stream_bit
copy_rounds_step left i order o mid src b e e' = rw (e, e', ◌>>=◌)

copy_rounds-Extended :
    (left i : ℕ) (order : BitOrder) (o : Output) (src : List ℕ) (f : ℕ → ℕ)
    → i + left ≤ length src * 8
    → IsOutput order o
    → ((t : ℕ) → f t ≡ stream_bit order src (i + t))
    → Extended order o left f (copy_rounds left i o src order none)
copy_rounds-Extended zero i order o src f fits v h = unfold copy_rounds in Extended-none order o f v
copy_rounds-Extended (suc left) i order o src f fits v h =
    let b = stream_bit order src i in
    let a = write_stream_bit-Appended order o b v (stream_bit-lt order src i) in
    rw
      (copy_rounds_step left i order o a.after src b
        (read_packed_bit_at_lem order src i (omega arith)) a.returns)
      (Extended-next order o left f b _ _ a (h 0 ∙ ap (stream_bit order src) (omega arith)) (
        copy_rounds-Extended left (i + 1) order a.after src (λ t. f (suc t)) (omega arith) a.valid
          (λ t. h (suc t) ∙ ap (stream_bit order src) (omega arith))))

-- `write_bits_from_stream` returns when `src` holds `n` bits: it appends the first `n` bits of
-- `src` in the given order, keeps the bits written before, and leaves the output between two bits.
pub write_bits_from_stream-Extended :
    (order : BitOrder) (o : Output) (src : List ℕ) (n : ℕ)
    → IsOutput order o
    → n ≤ length src * 8
    → Extended order o n (stream_bit order src) (write_bits_from_stream o src n order)
unfolding write_bits_from_stream
write_bits_from_stream-Extended order o src n v fits =
    copy_rounds-Extended n 0 order o src _ (omega arith) v
      (λ t. ap (stream_bit order src) (omega arith))
