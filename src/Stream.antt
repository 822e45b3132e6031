-- ===== src/Stream.antt =====
-- The bit writer of dfdl-vm/src/vm/runtime/binary.rs. The pair `out: &mut Vec<u8>`,
-- `bit_count: &mut u8` is an `Output`; `none` is a panic: an index out of range, or a shift or a
-- subtraction that the checked arithmetic refuses. A `usize` is a number without a bound, since a
-- buffer in memory is far shorter; the saturating operations name the bound.
pub mod Write
pub mod Field
use aitest.Prelude.{
  ℕ, zero, suc, ◌+◌, ◌-◌, ◌*◌, ◌/◌, ◌%◌, ◌^◌, min, bit_and, bit_or, Bool, not, Option, none, some,
  List, [], ◌∷◌, ◌++◌, length, get_elem?, ltb, ◌==◌, if◌then◌else◌,
}
use aitest.Error.{invalid_value, unaligned_byte_write, Result, ok, err}
use aitest.Schema.{BitOrder, most_significant_bit_first, least_significant_bit_first}
use aitest.Bits.Byte.{bit_from}
use Prim.Native.String.{String}

abbrev pub usize_max : ℕ
usize_max = 2 ^ 64 - 1

pub record Output : Type 0 where
  pub out : List ℕ
  pub bit_count : ℕ

-- `dfdl:bitOrder` regions: an order and a length in bits, in document order.
abbrev pub Regions : Type 0
Regions = List (BitOrder × ℕ)

pub record RuntimeConfig : Type 0 where
  pub strict_eos : Bool
  pub enable_facet_validation : Bool
  pub defer_facet_validation : Bool
  pub encode_pua_codepoints_as_utf8 : Bool
  pub encode_tdml_bit_regions : Option Regions
  pub runtime_variable_overrides : List (String × String)

infixl 5 ◌>>=◌
abbrev pub ◌>>=◌ {ℓ κ} : {A : Type ℓ} {B : Type κ} → Option A → (A → Option B) → Option B
none >>= f = none
some a >>= f = f a

unfoldable pub encode_absolute_bit_index : Output → ℕ
encode_absolute_bit_index o =
    if o.bit_count == 0
    then min (length o.out * 8) usize_max
    else min ((length o.out - 1) * 8) usize_max + o.bit_count

unfoldable pub payload_bit_length : Output → ℕ
unfolding encode_absolute_bit_index
payload_bit_length o = encode_absolute_bit_index o

-- The order of the region that holds `bit_idx`; behind the last region its order, or `fallback`
-- where there is none. `last` is the order of the region before.
unfoldable pub order_in_regions : Regions → ℕ → BitOrder → ℕ → BitOrder
order_in_regions [] bit_idx last end = last
order_in_regions ((order, len) ∷ regions) bit_idx last end =
    let end' = min (end + len) usize_max in
    let later = order_in_regions regions bit_idx order end' in
    if ltb bit_idx end' then order else later

unfoldable pub effective_encode_bit_order : Output → BitOrder → RuntimeConfig → BitOrder
unfolding encode_absolute_bit_index order_in_regions
effective_encode_bit_order o schema_order config = elim config.encode_tdml_bit_regions [
  | none ↦ schema_order
  | some regions ↦ order_in_regions regions (encode_absolute_bit_index o) schema_order 0
]

-- `out[out.len() - 1] |= v`
unfoldable pub or_last : List ℕ → ℕ → Option (List ℕ)
or_last [] v = none
or_last (x ∷ []) v = some (bit_or x v ∷ [])
or_last (x ∷ y ∷ xs) v = do rest ← or_last (y ∷ xs) v; some (x ∷ rest)

-- `x << k` on a `u8` and `x >> k` on a `u64`, checked.
unfoldable pub shl_u8 : ℕ → ℕ → Option ℕ
shl_u8 x k = if ltb k 8 then some (x * 2 ^ k % 2 ^ 8) else none

unfoldable pub shr_u64 : ℕ → ℕ → Option ℕ
shr_u64 x k = if ltb k 64 then some (x / 2 ^ k) else none

-- `7 - *bit_count` on a `u8`, checked, and the count itself.
unfoldable pub bit_shift : BitOrder → ℕ → Option ℕ
bit_shift most_significant_bit_first count = if ltb 7 count then none else some (7 - count)
bit_shift least_significant_bit_first count = some count

-- `if *bit_count == 0 { out.push(0) }`
unfoldable pub open_byte : Output → List ℕ
open_byte o = if o.bit_count == 0 then o.out ++ 0 ∷ [] else o.out

unfoldable pub write_stream_bit_with_config :
    Output → ℕ → BitOrder → Option RuntimeConfig → Option Output
unfolding effective_encode_bit_order or_last shl_u8 bit_shift open_byte
write_stream_bit_with_config o bit schema_order config = do
  let bit_order : BitOrder = elim config [
    | none ↦ schema_order
    | some c ↦ effective_encode_bit_order o schema_order c
  ]
  shift ← bit_shift bit_order o.bit_count
  v ← shl_u8 (bit_and bit 1) shift
  out ← or_last (open_byte o) v
  let count = o.bit_count + 1
  some (record { out = out; bit_count = if count == 8 then 0 else count })

unfoldable pub write_stream_bit : Output → ℕ → BitOrder → Option Output
unfolding write_stream_bit_with_config
write_stream_bit o bit bit_order = write_stream_bit_with_config o bit bit_order none

-- The bit that round `i` of `n` writes.
unfoldable pub field_bit : BitOrder → ℕ → ℕ → ℕ → Option ℕ
unfolding shr_u64
field_bit most_significant_bit_first value n i = do
  v ← shr_u64 value (n - 1 - i)
  some (bit_and v 1 % 2 ^ 8)
field_bit least_significant_bit_first value n i = do v ← shr_u64 value i; some (bit_and v 1 % 2 ^ 8)

-- The loop at round `i`, with `left` rounds to go.
unfoldable pub write_rounds :
    ℕ → ℕ → Output → ℕ → ℕ → BitOrder → Option RuntimeConfig → Option Output
unfolding field_bit write_stream_bit_with_config
write_rounds zero i o value n schema_order config = some o
write_rounds (suc left) i o value n schema_order config = do
  bit ← field_bit schema_order value n i
  o' ← write_stream_bit_with_config o bit schema_order config
  write_rounds left (i + 1) o' value n schema_order config

unfoldable pub write_stream_bits_with_config :
    Output → ℕ → ℕ → BitOrder → Option RuntimeConfig → Option Output
unfolding write_rounds
write_stream_bits_with_config o value n schema_order config =
    write_rounds n 0 o value n schema_order config

unfoldable pub write_stream_bits : Output → ℕ → ℕ → BitOrder → Option Output
unfolding write_stream_bits_with_config
write_stream_bits o value n bit_order = write_stream_bits_with_config o value n bit_order none

-- Bit `bit_in_byte` of a byte, counted in the given order.
unfoldable pub bit_in_order : BitOrder → ℕ → ℕ → ℕ
bit_in_order most_significant_bit_first byte bit_in_byte = bit_from byte (7 - bit_in_byte)
bit_in_order least_significant_bit_first byte bit_in_byte = bit_from byte bit_in_byte

unfoldable pub write_byte_aligned : Output → List ℕ → Result Output
write_byte_aligned o bytes =
    if not (o.bit_count == 0)
    then err (invalid_value unaligned_byte_write)
    else ok (record o { out = o.out ++ bytes })

unfoldable pub read_packed_bit_at : List ℕ → ℕ → BitOrder → Option ℕ
unfolding bit_in_order
read_packed_bit_at bytes bit_idx order = do
  byte ← get_elem? bytes (bit_idx / 8)
  some (bit_in_order order byte (bit_idx % 8))

unfoldable pub copy_rounds :
    ℕ → ℕ → Output → List ℕ → BitOrder → Option RuntimeConfig → Option Output
unfolding read_packed_bit_at write_stream_bit_with_config
copy_rounds zero i o src schema_order config = some o
copy_rounds (suc left) i o src schema_order config = do
  bit ← read_packed_bit_at src i schema_order
  o' ← write_stream_bit_with_config o bit schema_order config
  copy_rounds left (i + 1) o' src schema_order config

unfoldable pub write_bits_from_stream_with_config :
    Output → List ℕ → ℕ → BitOrder → Option RuntimeConfig → Option Output
unfolding copy_rounds
write_bits_from_stream_with_config o src n schema_order config =
    copy_rounds n 0 o src schema_order config

unfoldable pub write_bits_from_stream : Output → List ℕ → ℕ → BitOrder → Option Output
unfolding write_bits_from_stream_with_config
write_bits_from_stream o src n bit_order = write_bits_from_stream_with_config o src n bit_order none
