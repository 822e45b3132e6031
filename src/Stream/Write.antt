-- ===== src/Stream/Write.antt =====
-- What the bit writer does to the stream of bits that its output stands for.
use aitest.Prelude.{
  ℕ, zero, suc, ◌+◌, ◌-◌, ◌*◌, ◌/◌, ◌%◌, ◌^◌, ◌≤◌, ◌<◌, ◌≡◌, refl, sym, ap, arith, Bool-cases, inl,
  inr, true, bit_and, bit_or, Option, some, List, [], ◌∷◌, ◌++◌, length, get_or, length-append, All,
  All-append, ltb, ◌==◌, if◌then◌else◌,
}
use aitest.Schema.{BitOrder, most_significant_bit_first, least_significant_bit_first}
use aitest.Bits.{bit_and-one}
use aitest.Bits.Byte.{or_bit, or_bit_lem, zero-bit_from}
use aitest.Stream.{Output, or_last, open_byte, write_stream_bit, bit_in_order}

abbrev pub IsByte : ℕ → Type 0
IsByte b = b < 256

-- Bit `i` of a byte sequence in the given order, and 0 behind its end.
unfoldable pub stream_bit : BitOrder → List ℕ → ℕ → ℕ
stream_bit order bytes i = bit_in_order order (get_or bytes (i / 8) 0) (i % 8)

pub stream_bit-lt : (order : BitOrder) (bytes : List ℕ) (i : ℕ) → stream_bit order bytes i < 2
unfolding stream_bit bit_in_order
stream_bit-lt most_significant_bit_first bytes i =
    omega (arith, bit_and-one (get_or bytes (i / 8) 0 / 2 ^ (7 - i % 8)))
stream_bit-lt least_significant_bit_first bytes i =
    omega (arith, bit_and-one (get_or bytes (i / 8) 0 / 2 ^ (i % 8)))

-- The number of bits written.
unfoldable pub position : Output → ℕ
position o = if o.bit_count == 0 then length o.out * 8 else (length o.out - 1) * 8 + o.bit_count

-- A writer between two bits: bytes, and nothing set behind the last bit written.
pub record IsOutput (order : BitOrder) (o : Output) : Type 0 where
  pub bytes : All IsByte o.out
  pub count : o.bit_count < 8
  pub started : 0 < o.bit_count → 0 < length o.out
  pub clean : (i : ℕ) → position o ≤ i → stream_bit order o.out i ≡ 0

module _ {ℓ} {A : Type ℓ} where
  get_or-snoc :
      (xs : List A) (x d : A) (i : ℕ)
      → get_or (xs ++ x ∷ []) i d
        ≡ (if ltb i (length xs) then get_or xs i d else if i == length xs then x else d)
  get_or-snoc [] x d zero = refl
  get_or-snoc [] x d (suc i) = ground arith
  get_or-snoc (y ∷ xs) x d zero = ground arith
  get_or-snoc (y ∷ xs) x d (suc i) = ground (arith, get_or-snoc xs x d i)

  snoc_of_pos : (xs : List A) → 0 < length xs → (init : List A) × (x : A) × (xs ≡ init ++ x ∷ [])
  snoc_of_pos [] h = absurd (omega arith)
  snoc_of_pos (x ∷ []) h = ([], x, refl)
  snoc_of_pos (x ∷ y ∷ xs) h =
      let (init, z, e) = snoc_of_pos (y ∷ xs) (omega arith) in (x ∷ init, z, ap (◌∷◌ x) e)

or_last-snoc : (xs : List ℕ) (x v : ℕ) → or_last (xs ++ x ∷ []) v ≡ some (xs ++ bit_or x v ∷ [])
unfolding or_last
or_last-snoc [] x v = refl
or_last-snoc (y ∷ []) x v = refl
or_last-snoc (y ∷ z ∷ xs) x v = rw (or_last-snoc (z ∷ xs) x v)

-- One bit of one byte, in either order.
store : BitOrder → ℕ → ℕ → ℕ → ℕ
store most_significant_bit_first x k b = or_bit x (7 - k) b
store least_significant_bit_first x k b = or_bit x k b

store_lem :
    (order : BitOrder) (x k b t : ℕ)
    → x < 256
    → k < 8
    → b < 2
    → t < 8
    → bit_in_order order x k ≡ 0
    → (store order x k b < 256)
      × (bit_in_order order (store order x k b) t ≡ (if t == k then b else bit_in_order order x t))
unfolding store bit_in_order
store_lem most_significant_bit_first x k b t hx hk hb ht clear =
    ground (arith, or_bit_lem x (7 - k) b (7 - t) hx (omega arith) hb (omega arith) clear)
store_lem least_significant_bit_first x k b t hx hk hb ht clear =
    ground (arith, or_bit_lem x k b t hx hk hb ht clear)

zero_bits : (order : BitOrder) (t : ℕ) → bit_in_order order 0 t ≡ 0
unfolding bit_in_order
zero_bits most_significant_bit_first t = zero-bit_from (7 - t)
zero_bits least_significant_bit_first t = zero-bit_from t

pub stream_bit-snoc :
    (order : BitOrder) (xs : List ℕ) (x i : ℕ)
    → stream_bit order (xs ++ x ∷ []) i ≡ (
        if ltb i (length xs * 8)
        then stream_bit order xs i
        else if ltb i (length xs * 8 + 8)
        then bit_in_order order x (i % 8)
        else 0)
unfolding stream_bit
stream_bit-snoc order xs x i = ground (arith, get_or-snoc xs x 0 (i / 8), zero_bits order (i % 8))

-- Storing bit `k` of the last byte, whose bits from `k` on are clear.
module _ (order : BitOrder) (xs : List ℕ) (x k b : ℕ) (hxs : All IsByte xs) (hx : x < 256)
    (hk : k < 8) (hb : b < 2) (clear : (t : ℕ) → k ≤ t → t < 8 → bit_in_order order x t ≡ 0) where
  stored : Output
  stored = record {
    out = xs ++ store order x k b ∷ [];
    bit_count = if k + 1 == 8 then 0 else k + 1;
  }

  stored-position : position stored ≡ length xs * 8 + k + 1
  unfolding stored position
  stored-position = ground (arith, length-append xs (store order x k b ∷ []))

  stored-bits :
      (i : ℕ)
      → stream_bit order stored.out i
        ≡ (if i == length xs * 8 + k then b else stream_bit order (xs ++ x ∷ []) i)
  unfolding stored
  stored-bits i = ground (
    arith,
    stream_bit-snoc order xs x i,
    stream_bit-snoc order xs (store order x k b) i,
    store_lem order x k b (i % 8) hx hk hb (omega arith) (clear k (omega arith) hk),
  )

  stored-IsOutput : IsOutput order stored
  unfolding stored
  stored-IsOutput = record {
    bytes =
        All-append IsByte xs (store order x k b ∷ []) hxs
          ((store_lem order x k b k hx hk hb hk (clear k (omega arith) hk)).0, tt);
    count = ground arith;
    started = ground (arith, length-append xs (store order x k b ∷ []));
    clean = λ i h.
        ground (arith, stored-position, stored-bits i, stream_bit-snoc order xs x i, clear (i % 8));
  }

-- `result` is a return that appended the bit `b` to what `o` stands for, and kept all before it.
pub record Appended (order : BitOrder) (o : Output) (b : ℕ) (result : Option Output) : Type 0 where
  pub after : Output
  pub returns : result ≡ some after
  pub valid : IsOutput order after
  pub moved : position after ≡ position o + 1
  pub bits :
      (i : ℕ)
      → stream_bit order after.out i ≡ (if i == position o then b else stream_bit order o.out i)

All-init : (xs : List ℕ) (x : ℕ) → All IsByte (xs ++ x ∷ []) → All IsByte xs × (x < 256)
All-init [] x (h, _) = (tt, h)
All-init (y ∷ xs) x (hy, h) = let (hxs, hx) = All-init xs x h in ((hy, hxs), hx)

write_bit_in :
    (order : BitOrder) (o : Output) (xs : List ℕ) (x b : ℕ)
    → open_byte o ≡ xs ++ x ∷ []
    → o.bit_count < 8
    → write_stream_bit o b order
      ≡ some (record {
        out = xs ++ store order x o.bit_count b ∷ [];
        bit_count = if o.bit_count + 1 == 8 then 0 else o.bit_count + 1;
      })
unfolding write_stream_bit store
write_bit_in most_significant_bit_first o xs x b e hk =
    ground (arith, or_last-snoc xs x (bit_and b 1 * 2 ^ (7 - o.bit_count) % 2 ^ 8))
write_bit_in least_significant_bit_first o xs x b e hk =
    ground (arith, or_last-snoc xs x (bit_and b 1 * 2 ^ o.bit_count % 2 ^ 8))

append_bit :
    (order : BitOrder) (o : Output) (b : ℕ) (xs : List ℕ) (x : ℕ)
    → IsOutput order o
    → b < 2
    → open_byte o ≡ xs ++ x ∷ []
    → All IsByte xs
    → x < 256
    → position o ≡ length xs * 8 + o.bit_count
    → ((i : ℕ) → stream_bit order (xs ++ x ∷ []) i ≡ stream_bit order o.out i)
    → Appended order o b (write_stream_bit o b order)
append_bit order o b xs x v hb e hxs hx here same = record {
  after = stored order xs x o.bit_count b hxs hx v.count hb clear;
  returns = unfold stored in write_bit_in order o xs x b e v.count;
  valid = stored-IsOutput order xs x o.bit_count b hxs hx v.count hb clear;
  moved = omega (arith, stored-position order xs x o.bit_count b hxs hx v.count hb clear);
  bits =
      λ i. ground (arith, stored-bits order xs x o.bit_count b hxs hx v.count hb clear i, same i);
}
  where
    clear : (t : ℕ) → o.bit_count ≤ t → t < 8 → bit_in_order order x t ≡ 0
    clear t above below = ground (
      arith,
      same (length xs * 8 + t),
      v.clean (length xs * 8 + t),
      stream_bit-snoc order xs x (length xs * 8 + t),
    )

-- Between two bits, `write_stream_bit` appends the bit: it returns, the bits written before stay
-- as they were, and the output is again between two bits.
pub write_stream_bit-Appended :
    (order : BitOrder) (o : Output) (b : ℕ)
    → IsOutput order o
    → b < 2
    → Appended order o b (write_stream_bit o b order)
write_stream_bit-Appended order o b v hb = elim (Bool-cases (o.bit_count == 0)) [
  | inl none_open ↦
      append_bit order o b o.out 0 v hb (unfold open_byte in rw none_open) v.bytes (omega arith)
        (unfold position in ground arith)
        (λ i. ground (
          arith,
          stream_bit-snoc order o.out 0 i,
          zero_bits order (i % 8),
          v.clean i,
          here none_open,
        ))
  | inr open_at ↦
      let (xs, x, e) = snoc_of_pos o.out (v.started (ground arith)) in
      let (hxs, hx) = All-init xs x (rw e at v.bytes) in
      append_bit order o b xs x v hb (unfold open_byte in rw open_at e) hxs hx
        (unfold position in ground (arith, ap (length {0}) e, length-append xs (x ∷ [])))
        (λ i. ap (λ (l : List ℕ). stream_bit order l i) (sym e))
]
  where
    here : (o.bit_count == 0) ≡ true → position o ≡ length o.out * 8
    here h = unfold position in rw h

pub position-le-length :
    (order : BitOrder) (o : Output) → IsOutput order o → position o ≤ length o.out * 8
unfolding position
position-le-length order o v = ground (arith, v.count, v.started)
