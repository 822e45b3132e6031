-- ===== src/Cursor/Read.antt =====
-- What the bit reader returns, and where it leaves the cursor: one bit, and fields of bits.
use aitest.Prelude.{
  ℕ, zero, suc, ◌+◌, ◌-◌, ◌*◌, ◌/◌, ◌%◌, ◌≤◌, ◌<◌, ◌≡◌, ap, ◌∙◌, arith, min, none, some, length,
  ltb, leb, if◌then◌else◌, lt→ltb, le→ltb,
}
use aitest.Schema.{BitOrder, most_significant_bit_first, least_significant_bit_first}
use aitest.Bits.Field.{field_value, field_value-lt, join_above, join_below}
use aitest.Bits.Word.{pow_mono}
use aitest.Stream.Write.{stream_bit, stream_bit-lt}
use native.Mathlib.Nat.{le_trans}
use native.Mathlib.Decide.{dec_lt}
use aitest.Error.{VmError, unexpected_eof, invalid_value, insufficient_bits, ok, err, finish}
use aitest.Cursor.{
  Cursor, Reader, ◌>>=◌, absolute_bit_index, past_end, read_stream_bit, read_stream_bit_with_hint,
  join_bit, read_rounds, read_stream_bits,
}

-- The cursor `c` moved to bit `i`.
unfoldable pub at : Cursor → ℕ → Cursor
at c i = record c { pos = i / 8; bit_count = i % 8 }

-- The number of bits that can be read: those of the data, up to the limit of the frame.
unfoldable pub end_of : Cursor → ℕ
end_of c = elim c.frame_bit_limit [
  | none ↦ length c.bytes * 8
  | some limit ↦ min limit (length c.bytes * 8)
]

pub at-absolute_bit_index : (c : Cursor) → c.bit_count < 8 → at c (absolute_bit_index c) ≡ c
unfolding at absolute_bit_index
at-absolute_bit_index c h = ground arith

pub absolute_bit_index-at : (c : Cursor) (i : ℕ) → absolute_bit_index (at c i) ≡ i
unfolding at absolute_bit_index
absolute_bit_index-at c i = omega arith

past_end-at : (c : Cursor) (i : ℕ) → past_end (at c i) i ≡ leb (end_of c) i
unfolding past_end end_of at
past_end-at c i = ground arith

-- Without bit order regions, a read before the end gives the next bit in the field's order and moves
-- on by one bit; at the end it is refused and does not move.
pub read_stream_bit-at :
    (order : BitOrder) (c : Cursor) (i : ℕ)
    → c.tdml_bit_order_regions ≡ none
    → read_stream_bit order (at c i) ≡ (
        if ltb i (end_of c)
        then (ok (stream_bit order c.bytes i), at c (i + 1))
        else (err unexpected_eof, at c i))
unfolding read_stream_bit stream_bit at
read_stream_bit-at order c i plain = ground (arith, past_end-at c i, absolute_bit_index-at c i)

-- The same with the error that counts the bits found.
pub read_stream_bit_with_hint-at :
    (order : BitOrder) (requested start : ℕ) (c : Cursor) (i : ℕ)
    → c.tdml_bit_order_regions ≡ none
    → read_stream_bit_with_hint requested start order (at c i) ≡ (
        if ltb i (end_of c)
        then (ok (stream_bit order c.bytes i), at c (i + 1))
        else (err (invalid_value (insufficient_bits requested (i - start))), at c i))
unfolding read_stream_bit_with_hint
read_stream_bit_with_hint-at order requested start c i plain =
    ground (arith, read_stream_bit-at order c i plain, absolute_bit_index-at c i)

pub bind_ok :
    {A B : Type 0} (m : Reader A) (k : A → Reader B) (c c' : Cursor) (a : A)
    → m c ≡ (ok a, c')
    → (m >>= k) c ≡ k a c'
bind_ok m k c c' a e = ap (λ r. finish r k) e

pub bind_err :
    {A B : Type 0} (m : Reader A) (k : A → Reader B) (c c' : Cursor) (x : VmError)
    → m c ≡ (err x, c')
    → (m >>= k) c ≡ (err x, c')
bind_err m k c c' x e = ap (λ r. finish r k) e

pub hint_ok :
    (order : BitOrder) (requested start : ℕ) (c : Cursor) (i : ℕ)
    → c.tdml_bit_order_regions ≡ none
    → i < end_of c
    → read_stream_bit_with_hint requested start order (at c i)
      ≡ (ok (stream_bit order c.bytes i), at c (i + 1))
hint_ok order requested start c i plain h =
    read_stream_bit_with_hint-at order requested start c i plain ∙ rw (lt→ltb i (end_of c) h)

pub hint_end :
    (order : BitOrder) (requested start : ℕ) (c : Cursor) (i : ℕ)
    → c.tdml_bit_order_regions ≡ none
    → end_of c ≤ i
    → read_stream_bit_with_hint requested start order (at c i)
      ≡ (err (invalid_value (insufficient_bits requested (i - start))), at c i)
hint_end order requested start c i plain h =
    read_stream_bit_with_hint-at order requested start c i plain ∙ rw (le→ltb i (end_of c) h)

-- One more bit of a field.
join_bit_lem :
    (order : BitOrder) (f : ℕ → ℕ) (i : ℕ)
    → i < 64
    → ((t : ℕ) → f t < 2)
    → join_bit order i (field_value order f i) (f i) ≡ field_value order f (suc i)
unfolding join_bit field_value
join_bit_lem most_significant_bit_first f i h bits =
    join_above _ (f i)
      (le_trans (field_value-lt most_significant_bit_first f i bits) (pow_mono i 63 (omega arith)))
      (bits i)
join_bit_lem least_significant_bit_first f i h bits =
    join_below _ (f i) i h (field_value-lt least_significant_bit_first f i bits) (bits i)

module _ (order : BitOrder) (c : Cursor) (plain : c.tdml_bit_order_regions ≡ none)
    (start n : ℕ) where
  abbrev field_bits : ℕ → ℕ
  field_bits t = stream_bit order c.bytes (start + t)

  read_rounds_step :
      (left i value : ℕ)
      → start + i < end_of c
      → read_rounds (suc left) i n start order value (at c (start + i))
        ≡ read_rounds left
            (suc i)
            n
            start
            order
            (join_bit order i value (field_bits i))
            (at c (start + suc i))
  unfolding read_rounds
  read_rounds_step left i value h =
      let next : i + 1 ≡ suc i = omega arith in
      let moved : start + i + 1 ≡ start + suc i = omega arith in
      bind_ok (read_stream_bit_with_hint n start order)
        (λ bit. read_rounds left (i + 1) n start order (join_bit order i value bit))
        (at c (start + i)) _ _ (hint_ok order n start c (start + i) plain h)
      ∙ rw (next, moved)

  read_rounds-at :
      (left i : ℕ)
      → i + left ≡ n
      → n ≤ 64
      → start + n ≤ end_of c
      → read_rounds left i n start order (field_value order field_bits i) (at c (start + i))
        ≡ (ok (field_value order field_bits n), at c (start + n))
  unfolding read_rounds
  read_rounds-at zero i e fits enough = let e' : i ≡ n = omega arith in rw e'
  read_rounds-at (suc left) i e fits enough =
      read_rounds_step left i _ (omega arith)
      ∙ rw
          (join_bit_lem order field_bits i (omega arith)
            (λ t. stream_bit-lt order c.bytes (start + t)))
          (read_rounds-at left (suc i) (omega arith) fits enough)

  read_rounds_short :
      (left i value : ℕ)
      → i + left ≡ n
      → start + i ≤ end_of c
      → end_of c < start + n
      → read_rounds left i n start order value (at c (start + i))
        ≡ (err (invalid_value (insufficient_bits n (end_of c - start))), at c (end_of c))
  unfolding read_rounds
  read_rounds_short zero i value e below short = absurd (omega arith)
  read_rounds_short (suc left) i value e below short = elim (dec_lt (start + i) (end_of c)) [
    | yes more ↦
        read_rounds_step left i value more
        ∙ read_rounds_short left (suc i) _ (omega arith) (omega arith) short
    | no last ↦
        let here : start + i ≡ end_of c = omega arith in
        rw here (
          bind_err (read_stream_bit_with_hint n start order)
            (λ bit. read_rounds left (i + 1) n start order (join_bit order i value bit))
            (at c (end_of c)) _ _ (hint_end order n start c (end_of c) plain (omega arith)))
  ]

-- The bits of a read of `n` bits at the cursor.
abbrev pub bits_at : BitOrder → Cursor → ℕ → ℕ
bits_at order c t = stream_bit order c.bytes (absolute_bit_index c + t)

module _ (order : BitOrder) (c : Cursor) (n : ℕ) (plain : c.tdml_bit_order_regions ≡ none)
    (aligned : c.bit_count < 8) (some_bits : 0 < n) (fits : n ≤ 64) where
  read_stream_bits-rounds :
      read_stream_bits n order c
      ≡ read_rounds n 0 n (absolute_bit_index c) order 0 (at c (absolute_bit_index c))
  unfolding read_stream_bits
  read_stream_bits-rounds = rw (at-absolute_bit_index c aligned) (ground arith)

  -- A read of 1 to 64 bits that are there gives the number that they stand for in the field's
  -- order, and moves the cursor behind them, for a cursor that stands between two bits and has no
  -- bit order regions.
  pub read_stream_bits-enough :
      absolute_bit_index c + n ≤ end_of c
      → read_stream_bits n order c
        ≡ (ok (field_value order (bits_at order c) n), at c (absolute_bit_index c + n))
  unfolding field_value
  read_stream_bits-enough enough =
      let here : absolute_bit_index c + 0 ≡ absolute_bit_index c = omega arith in
      read_stream_bits-rounds
      ∙ rw here at
          (read_rounds-at order c plain (absolute_bit_index c) n n 0 (omega arith) fits enough)

  -- A read of 1 to 64 bits that are not all there is refused with the number of bits asked for and
  -- the number that was left, and the cursor stands at the end of what can be read, for a cursor
  -- that stands between two bits of the data, not behind that end, and has no bit order regions.
  pub read_stream_bits-short :
      absolute_bit_index c ≤ end_of c
      → end_of c < absolute_bit_index c + n
      → read_stream_bits n order c ≡ (
        err (invalid_value (insufficient_bits n (end_of c - absolute_bit_index c))),
        at c (end_of c),
      )
  read_stream_bits-short below short =
      let here : absolute_bit_index c + 0 ≡ absolute_bit_index c = omega arith in
      read_stream_bits-rounds
      ∙ rw here at (
          read_rounds_short order c plain (absolute_bit_index c) n n 0 0 (omega arith) (omega arith)
            short)
