-- ===== src/BitField/Bytes.antt =====
-- The number that big-endian or little-endian bytes stand for, and the loops that write and read it.
use aitest.Prelude.{
  ℕ, zero, suc, ◌+◌, ◌*◌, ◌/◌, ◌%◌, ◌^◌, ◌≤◌, ◌<◌, ◌≡◌, refl, sym, ap, ◌∙◌, arith, bit_and, bit_or,
  List, [], ◌∷◌, length, All, true, false, Bool,
}
use aitest.Bits.{bit_and_mask, bit_or-above, bit_or-below}
use aitest.Stream.Write.{IsByte}
use aitest.BitField.{
  fill_rounds, join_bytes, join_bytes_le, int_bytes, int_bytes_le, int_bytes_be,
  decode_unsigned_binary_bytes,
}
use native.Mathlib.Numerals.{towards_suc}
use native.Mathlib.Nat.{
  pow-suc, div-add-mod, div-div-eq-div-mul, mul_comm, pow-le-pow_right, one-le-pow,
}

pub div_byte : (w k : ℕ) → w / 256 / 256 ^ k ≡ w / 256 ^ suc k
div_byte w k =
    div-div-eq-div-mul w 256 (256 ^ k)
    ∙ ap (λ (t : ℕ). w / t) (mul_comm 256 (256 ^ k) ∙ sym (pow-suc 256 k))

pub pow_byte : (i : ℕ) → 2 ^ (i * 8) ≡ 256 ^ i
pow_byte zero = refl
pow_byte (suc i) =
    let e : suc i * 8 ≡ i * 8 + 8 = omega arith in
    rw e (simp towards_suc (omega (arith, pow_byte i)))

-- One more byte at the low end.
next_byte_low : (w k : ℕ) → w / 256 % 256 ^ k * 256 + w % 256 ≡ w % 256 ^ suc k
next_byte_low w k = omega (
  arith,
  div_byte w k,
  div-add-mod w (256 ^ suc k),
  div-add-mod (w / 256) (256 ^ k),
  pow-suc 256 k,
  ap (λ (t : ℕ). t * (w / 256 ^ suc k)) (pow-suc 256 k),
  ap (λ (t : ℕ). 256 ^ k * t) (div_byte w k),
)

-- Big-endian bytes behind the number `acc`.
pub be_value : ℕ → List ℕ → ℕ
be_value acc [] = acc
be_value acc (b ∷ bytes) = be_value (acc * 256 + b) bytes

join_byte :
    (acc b : ℕ) → b < 256 → bit_or (acc % 2 ^ 64 * 2 ^ 8 % 2 ^ 64) b ≡ (acc * 256 + b) % 2 ^ 64
join_byte acc b h =
    let e : acc % 2 ^ 64 * 2 ^ 8 % 2 ^ 64 ≡ acc % 2 ^ 56 * 2 ^ 8 = omega arith in
    rw e (omega (arith, bit_or-above 8 (acc % 2 ^ 56) b h))

-- The reader's loop computes the number modulo 2 ^ 64.
pub join_bytes-be_value :
    (acc : ℕ) (bytes : List ℕ)
    → All IsByte bytes
    → join_bytes (acc % 2 ^ 64) bytes ≡ be_value acc bytes % 2 ^ 64
unfolding join_bytes be_value
join_bytes-be_value acc [] h = refl
join_bytes-be_value acc (b ∷ bytes) (hb, h) =
    rw (join_byte acc b hb) (join_bytes-be_value (acc * 256 + b) bytes h)

low_byte : (v : ℕ) → bit_and v 0xff ≡ v % 256
low_byte v = bit_and_mask 8 v

-- The writer's loop writes the low `k` bytes.
pub be_value-fill_rounds :
    (k v : ℕ) (buf : List ℕ) → be_value 0 (fill_rounds k v buf) ≡ be_value (v % 256 ^ k) buf
unfolding fill_rounds be_value
be_value-fill_rounds zero v buf = let e : v % 1 ≡ 0 = omega arith in rw e
be_value-fill_rounds (suc k) v buf =
    be_value-fill_rounds k (v / 256) (bit_and v 0xff ∷ buf)
    ∙ rw (low_byte v) (ap (λ a. be_value a buf) (next_byte_low v k))

pub length-fill_rounds : (k v : ℕ) (buf : List ℕ) → length (fill_rounds k v buf) ≡ k + length buf
unfolding fill_rounds
length-fill_rounds zero v buf = omega arith
length-fill_rounds (suc k) v buf =
    omega (arith, length-fill_rounds k (v / 256) (bit_and v 0xff ∷ buf))

pub fill_rounds-IsByte :
    (k v : ℕ) (buf : List ℕ) → All IsByte buf → All IsByte (fill_rounds k v buf)
unfolding fill_rounds
fill_rounds-IsByte zero v buf h = h
fill_rounds-IsByte (suc k) v buf h =
    fill_rounds-IsByte k (v / 256) (bit_and v 0xff ∷ buf) (omega (arith, low_byte v), h)

-- The first byte is the highest.
pub fill_rounds-first :
    (j v : ℕ) (buf : List ℕ) → fill_rounds (suc j) v buf ≡ v / 256 ^ j % 256 ∷ fill_rounds j v buf
unfolding fill_rounds
fill_rounds-first zero v buf =
    ap (λ b. b ∷ buf)
      (low_byte v ∙ let e : v / 1 ≡ v = omega arith in ap (λ (t : ℕ). t % 256) (sym e))
fill_rounds-first (suc j) v buf =
    fill_rounds-first j (v / 256) (bit_and v 0xff ∷ buf)
    ∙ ap (λ (q : ℕ). q % 256 ∷ fill_rounds j (v / 256) (bit_and v 0xff ∷ buf)) (div_byte v j)

int_bytes_be-fill_rounds : (k v : ℕ) → int_bytes_be k v ≡ fill_rounds k v []
unfolding int_bytes_be
int_bytes_be-fill_rounds zero v = unfold fill_rounds in refl
int_bytes_be-fill_rounds (suc i) v =
    rw (pow_byte i, low_byte, int_bytes_be-fill_rounds i v) (sym (fill_rounds-first i v []))

put_byte-lt : (i value b : ℕ) → value < 256 ^ i → b < 256 → value + b * 256 ^ i < 256 ^ suc i
put_byte-lt i value b lt hb =
    let most : b * 256 ^ i ≤ 255 * 256 ^ i = grind arith in omega (arith, pow-suc 256 i)

-- `value | (b << (i * 8))` on a `u64`, above the `i` bytes of `value`.
put_byte :
    (i value b : ℕ)
    → i < 8
    → value < 256 ^ i
    → b < 256
    → bit_or value (b * 2 ^ (i * 8) % 2 ^ 64) ≡ value + b * 256 ^ i
put_byte i value b hi lt hb =
    let top : 256 ^ suc i ≤ 256 ^ 8 = pow-le-pow_right (omega arith) hi in
    let whole : b * 2 ^ (i * 8) % 2 ^ 64 ≡ b * 2 ^ (i * 8) =
      rw (pow_byte i) (omega (arith, put_byte-lt i value b lt hb)) in
    rw whole (bit_or-below (i * 8) b value (rw (pow_byte i) lt) ∙ rw (pow_byte i))

-- The bytes `int_bytes_le k v` behind `i` bytes that hold `value`.
join_bytes_le-int_bytes_le :
    (k i value v : ℕ)
    → i + k ≤ 8
    → value < 256 ^ i
    → join_bytes_le i value (int_bytes_le k v) ≡ value + v % 256 ^ k * 256 ^ i
unfolding join_bytes_le int_bytes_le
join_bytes_le-int_bytes_le zero i value v h lt =
    let none_left : v % 1 ≡ 0 = omega arith in
    let e : value ≡ value + v % 1 * 256 ^ i =
      omega (arith, ap (λ (t : ℕ). t * 256 ^ i) none_left) in
    e
join_bytes_le-int_bytes_le (suc k) i value v h lt =
    let next : i + 1 ≡ suc i = omega arith in
    rw (low_byte, next, put_byte i value (v % 256) (omega arith) lt (omega arith))
      (join_bytes_le-int_bytes_le k (suc i) _ (v / 256) (omega arith)
          (put_byte-lt i value (v % 256) lt (omega arith))
        ∙ omega (
          arith,
          ap (λ (t : ℕ). t * 256 ^ i) (next_byte_low v k),
          ap (λ (t : ℕ). v / 256 % 256 ^ k * t) (pow-suc 256 i),
        ))

pub low_bytes-mod : (v k : ℕ) → k ≤ 8 → v % 256 ^ k % 2 ^ 64 ≡ v % 256 ^ k
low_bytes-mod v k h =
    let top : 256 ^ k ≤ 256 ^ 8 = pow-le-pow_right (omega arith) h in
    omega (arith, one-le-pow k 256 (omega arith))

pub join_bytes-fill_rounds : (v k : ℕ) → k ≤ 8 → join_bytes 0 (fill_rounds k v []) ≡ v % 256 ^ k
join_bytes-fill_rounds v k h =
    join_bytes-be_value 0 (fill_rounds k v []) (fill_rounds-IsByte k v [] tt)
    ∙ rw (be_value-fill_rounds k v []) (unfold be_value in low_bytes-mod v k h)

-- Integers of up to eight bytes are read back, in either byte order, as the low bytes of the
-- two's complement that was written.
pub decode-int_bytes :
    (v size : ℕ) (le : Bool)
    → size ≤ 8
    → decode_unsigned_binary_bytes (int_bytes v size le) le ≡ v % 256 ^ size
unfolding decode_unsigned_binary_bytes int_bytes
decode-int_bytes v size true h =
    let e : 0 + v % 256 ^ size * 1 ≡ v % 256 ^ size = omega arith in
    join_bytes_le-int_bytes_le size 0 0 v (omega arith) (omega arith) ∙ e
decode-int_bytes v size false h =
    rw (int_bytes_be-fill_rounds size v) (join_bytes-fill_rounds v size h)
