-- ===== src/Cursor/Move.antt =====
-- Moves of the cursor without a value: `skip_stream_bits`, `skip_to_bit_index` and
-- `rewind_stream_bits` of dfdl-vm/src/vm/runtime/cursor.rs.
use aitest.Prelude.{
  ℕ, zero, suc, ◌+◌, ◌-◌, ◌≤◌, ◌<◌, ◌≡◌, refl, ◌∙◌, arith, max, true, false, ltb, leb, ◌==◌,
  if◌then◌else◌, none, Bool-cases, inl, inr,
}
use aitest.Schema.{BitOrder}
use aitest.Error.{ok, err, invalid_value, insufficient_bits}
use aitest.Bits.Field.{field_value}
use aitest.Cursor.{
  Cursor, ◌>>=◌, pure, absolute_bit_index, read_stream_bit_with_hint, skip_rounds, skip_stream_bits,
  skip_to_bit_index, rewind_stream_bits, read_stream_bits,
}
use aitest.Cursor.Read.{
  at, end_of, at-absolute_bit_index, absolute_bit_index-at, bind_ok, bind_err, hint_ok, hint_end,
  bits_at, read_stream_bits-enough,
}

module _ (order : BitOrder) (c : Cursor) (plain : c.tdml_bit_order_regions ≡ none)
    (start n : ℕ) where
  skip_rounds-enough :
      (left i : ℕ)
      → i + left ≡ start + n
      → start + n ≤ end_of c
      → skip_rounds left n start order (at c i) ≡ (ok tt, at c (start + n))
  unfolding skip_rounds
  skip_rounds-enough zero i e enough = let e' : i ≡ start + n = omega arith in rw e'
  skip_rounds-enough (suc left) i e enough =
      let moved : i + 1 ≡ suc i = omega arith in
      bind_ok (read_stream_bit_with_hint n start order) (λ _. skip_rounds left n start order)
        (at c i) _ _ (hint_ok order n start c i plain (omega arith))
      ∙ rw moved (skip_rounds-enough left (suc i) (omega arith) enough)

  skip_rounds-short :
      (left i : ℕ)
      → i + left ≡ start + n
      → i ≤ end_of c
      → end_of c < start + n
      → skip_rounds left n start order (at c i)
        ≡ (err (invalid_value (insufficient_bits n (end_of c - start))), at c (end_of c))
  unfolding skip_rounds
  skip_rounds-short zero i e below short = absurd (omega arith)
  skip_rounds-short (suc left) i e below short = elim (Bool-cases (ltb i (end_of c))) [
    | inl more ↦
        let moved : i + 1 ≡ suc i = omega arith in
        let there : i < end_of c = ground arith in
        bind_ok (read_stream_bit_with_hint n start order) (λ _. skip_rounds left n start order)
          (at c i) _ _ (hint_ok order n start c i plain there)
        ∙ rw moved (skip_rounds-short left (suc i) (omega arith) there short)
    | inr last ↦
        let here : i ≡ end_of c = ground arith in
        rw here (
          bind_err (read_stream_bit_with_hint n start order) (λ _. skip_rounds left n start order)
            (at c (end_of c)) _ _ (hint_end order n start c (end_of c) plain (omega arith)))
  ]

module _ (order : BitOrder) (c : Cursor) (plain : c.tdml_bit_order_regions ≡ none)
    (aligned : c.bit_count < 8) (below : absolute_bit_index c ≤ end_of c) where
  -- A skip of any number of bits moves the cursor behind them where they are all there, and is
  -- refused elsewhere with the number that was left, the cursor at the end of what can be read, for
  -- a cursor that stands between two bits of the data and has no bit order regions.
  pub skip_stream_bits-at :
      (n : ℕ)
      → skip_stream_bits n order c ≡ (
          if leb (absolute_bit_index c + n) (end_of c)
          then (ok tt, at c (absolute_bit_index c + n))
          else (
            err (invalid_value (insufficient_bits n (end_of c - absolute_bit_index c))),
            at c (end_of c),
          ))
  unfolding skip_stream_bits
  skip_stream_bits-at n =
      let here : at c (absolute_bit_index c) ≡ c = at-absolute_bit_index c aligned in
      elim (Bool-cases (leb (absolute_bit_index c + n) (end_of c))) [
        | inl enough ↦
            let room : absolute_bit_index c + n ≤ end_of c = ground arith in
            rw enough (
              rw here at (
                skip_rounds-enough order c plain (absolute_bit_index c) n n (absolute_bit_index c)
                  refl room))
        | inr short ↦
            let past : end_of c < absolute_bit_index c + n = ground arith in
            rw short (
              rw here at (
                skip_rounds-short order c plain (absolute_bit_index c) n n (absolute_bit_index c)
                  refl below past))
      ]

  -- A skip to a place that the frame and the data hold stops there, and never goes back, for a cursor
  -- that stands between two bits of the data and has no bit order regions.
  pub skip_to_bit_index-at :
      (target : ℕ)
      → target ≤ end_of c
      → skip_to_bit_index target order c ≡ (ok tt, at c (max (absolute_bit_index c) target))
  unfolding skip_to_bit_index
  skip_to_bit_index-at target h = elim (Bool-cases (ltb (absolute_bit_index c) target)) [
    | inl ahead ↦
        let e : absolute_bit_index c + (target - absolute_bit_index c) ≡ target = ground arith in
        let m : max (absolute_bit_index c) target ≡ target = ground arith in
        let room : leb target (end_of c) ≡ true = ground arith in
        rw (ahead, m) (rw (e, room) at (skip_stream_bits-at (target - absolute_bit_index c)))
    | inr behind ↦
        let m : max (absolute_bit_index c) target ≡ absolute_bit_index c = ground arith in
        rw (behind, m, at-absolute_bit_index c aligned) refl
  ]

-- Back to where the cursor stood `n` bits before.
rewind_stream_bits-at :
    (c : Cursor) (i n : ℕ) → 0 < n → rewind_stream_bits n (at c (i + n)) ≡ (ok tt, at c i)
unfolding rewind_stream_bits
rewind_stream_bits-at c i n h =
    let back : i + n - n ≡ i = omega arith in
    let t1 : (n == 0) ≡ false = ground arith in
    let t2 : ltb (i + n) n ≡ false = ground arith in
    rw (absolute_bit_index-at, t1, t2, back) (unfold at in refl)

-- A read of 1 to 64 bits that are there, and a rewind by as many: the value of the bits, and the
-- cursor as it was, for a cursor that stands between two bits and has no bit order regions.
pub rewind_stream_bits-read_stream_bits :
    (order : BitOrder) (c : Cursor) (n : ℕ)
    → c.tdml_bit_order_regions ≡ none
    → c.bit_count < 8
    → 0 < n
    → n ≤ 64
    → absolute_bit_index c + n ≤ end_of c
    → (read_stream_bits n order >>= λ v. rewind_stream_bits n >>= λ _. pure v) c
      ≡ (ok (field_value order (bits_at order c) n), c)
rewind_stream_bits-read_stream_bits order c n plain aligned some_bits fits enough =
    bind_ok (read_stream_bits n order) (λ v. rewind_stream_bits n >>= λ _. pure v) c _ _
      (read_stream_bits-enough order c n plain aligned some_bits fits enough)
    ∙ bind_ok (rewind_stream_bits n) (λ _. pure (field_value order (bits_at order c) n)) _ _ tt
        (rewind_stream_bits-at c (absolute_bit_index c) n some_bits)
    ∙ rw (at-absolute_bit_index c aligned) refl
