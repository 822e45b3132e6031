-- ===== src/Encoding.antt =====
-- The bit-packed character sets of dfdl-vm/src/vm/encoding.rs.
pub mod Codec
pub mod Ebcdic
pub mod Names
use aitest.Prelude.{
  ℕ, zero, suc, ◌+◌, ◌≤◌, arith, Bool, true, false, ◌&&◌, Option, none, some, List, [], ◌∷◌, ◌++◌,
  replicate, leb, ◌==◌, if◌then◌else◌, Bool-cases, inl, inr,
}
use aitest.Schema.{BitOrder, most_significant_bit_first, least_significant_bit_first}
use aitest.Text.{Text}
use mathlib.Core.Option
use Prim.Native.Char.{code}
use Prim.Native.String.{String}

abbrev pub codes : String → Text
codes String.[] = []
codes (String.◌∷◌ c s) = code c ∷ codes s

pub record BitsCharsetSpec : Type 0 where
  pub width : ℕ
  pub alphabet : Text
  pub bit_order : BitOrder

-- `u8::to_ascii_lowercase`
abbrev pub lower : ℕ → ℕ
lower c = if leb b'A' c && leb c b'Z' then c + 32 else c

unfoldable pub eq_ascii_ignore_case : Text → Text → Bool
eq_ascii_ignore_case [] [] = true
eq_ascii_ignore_case [] (d ∷ t) = false
eq_ascii_ignore_case (c ∷ s) [] = false
eq_ascii_ignore_case (c ∷ s) (d ∷ t) = lower c == lower d && eq_ascii_ignore_case s t

-- The characters from `c` on, `n` of them.
abbrev pub code_units : ℕ → ℕ → Text
code_units zero c = []
code_units (suc n) c = c ∷ code_units n (c + 1)

abbrev pub spec : ℕ → Text → BitOrder → BitsCharsetSpec
spec width alphabet bit_order = record { width = width; alphabet = alphabet; bit_order = bit_order }

abbrev pub letters : Text
letters = codes "ABCDEFGHIJKLMNOPQRSTUVWXYZ"

abbrev pub base32 : Text
base32 = codes "01234567ABCDEFGHJKLMNPQRSTUVWXYZ"

-- The names that the chain of comparisons tries, in its order.
abbrev pub charsets : List (Text × BitsCharsetSpec)
charsets =
    (codes "X-DFDL-BITS-MSBF", spec 1 (codes "01") most_significant_bit_first)
    ∷ (codes "X-DFDL-BITS-LSBF", spec 1 (codes "01") least_significant_bit_first)
    ∷ (codes "X-DFDL-BASE4-MSBF", spec 2 (codes "0123") most_significant_bit_first)
    ∷ (codes "X-DFDL-BASE4-LSBF", spec 2 (codes "0123") least_significant_bit_first)
    ∷ (codes "X-DFDL-5-BIT-PACKED-LSBF", spec 5 base32 least_significant_bit_first)
    ∷ (codes "X-DFDL-OCTAL-LSBF", spec 3 (codes "01234567") least_significant_bit_first)
    ∷ (codes "X-DFDL-OCTAL-MSBF", spec 3 (codes "01234567") most_significant_bit_first)
    ∷ (codes "X-DFDL-3-BIT-DFI-336-DUI-001", spec 3 (codes "12345678") least_significant_bit_first)
    ∷ (codes "X-DFDL-3-BIT-DFI-746-DUI-002", spec 3 (codes "ABCDEFGH") least_significant_bit_first)
    ∷ (
      codes "X-DFDL-4-BIT-DFI-746-DUI-002",
      spec 4 (codes "ABCDEFGHIJKLMNPQ") least_significant_bit_first,
    )
    ∷ (codes "X-DFDL-3-BIT-DFI-747-DUI-001", spec 3 (codes "AEGHJKLM") least_significant_bit_first)
    ∷ (codes "X-DFDL-5-BIT-DFI-769-DUI-002", spec 5 base32 least_significant_bit_first)
    ∷ (
      codes "X-DFDL-6-BIT-DFI-264-DUI-001",
      spec 6 (codes "0123456789 " ++ letters ++ replicate 27 0xfffd) least_significant_bit_first,
    )
    ∷ (
      codes "X-DFDL-5-BIT-DFI-1661-DUI-001",
      spec 5 (0xa0 ∷ letters ++ replicate 5 0xfffd) least_significant_bit_first,
    )
    ∷ (codes "X-DFDL-US-ASCII-7-BIT-PACKED", spec 7 (code_units 128 0) least_significant_bit_first)
    ∷ (codes "us-ascii-7-bit-packed", spec 7 (code_units 128 0) least_significant_bit_first)
    ∷ (
      codes "X-DFDL-ISO-88591-8-BIT-PACKED-MSB-FIRST",
      spec 8 (code_units 256 0) most_significant_bit_first,
    )
    ∷ (
      codes "X-DFDL-ISO-88591-8-BIT-PACKED-MSBF",
      spec 8 (code_units 256 0) most_significant_bit_first,
    )
    ∷ (codes "iso-8859-1-8-bit-packed-msbf", spec 8 (code_units 256 0) most_significant_bit_first)
    ∷ (
      codes "X-DFDL-ISO-88591-8-BIT-PACKED-LSB-FIRST",
      spec 8 (code_units 256 0) least_significant_bit_first,
    )
    ∷ (
      codes "X-DFDL-ISO-88591-8-BIT-PACKED-LSBF",
      spec 8 (code_units 256 0) least_significant_bit_first,
    )
    ∷ (codes "iso-8859-1-8-bit-packed-lsbf", spec 8 (code_units 256 0) least_significant_bit_first)
    ∷ []

unfoldable pub named_charset : List (Text × BitsCharsetSpec) → Text → Option BitsCharsetSpec
unfolding eq_ascii_ignore_case
named_charset [] name = none
named_charset ((n, s) ∷ rest) name =
    let later = named_charset rest name in if eq_ascii_ignore_case name n then some s else later

unfoldable pub bits_charset_spec : Text → Option BitsCharsetSpec
bits_charset_spec name = named_charset charsets name

unfoldable pub bits_charset_code_unit_width : Text → Option ℕ
bits_charset_code_unit_width name =
    Option.map (λ (s : BitsCharsetSpec). s.width) (bits_charset_spec name)

-- Widths of 1 to 8 bits.
abbrev HaveWidths : List (Text × BitsCharsetSpec) → Type 0
HaveWidths [] = Unit
HaveWidths ((n, s) ∷ rest) = ((1 ≤ s.width) × (s.width ≤ 8)) × HaveWidths rest

-- What `bits_charset_code_unit_width` may give.
abbrev pub IsWidth : Option ℕ → Type 0
IsWidth none = Unit
IsWidth (some w) = (1 ≤ w) × (w ≤ 8)

named_charset-IsWidth :
    (all : List (Text × BitsCharsetSpec)) (name : Text)
    → HaveWidths all
    → IsWidth (Option.map (λ (s : BitsCharsetSpec). s.width) (named_charset all name))
unfolding named_charset
named_charset-IsWidth [] name h = tt
named_charset-IsWidth ((n, s) ∷ rest) name h = elim (Bool-cases (eq_ascii_ignore_case name n)) [
  | inl e ↦ rw e h.0
  | inr e ↦ rw e (named_charset-IsWidth rest name h.1)
]

pub bits_charset_code_unit_width-IsWidth :
    (name : Text) → IsWidth (bits_charset_code_unit_width name)
unfolding bits_charset_code_unit_width bits_charset_spec
bits_charset_code_unit_width-IsWidth name = named_charset-IsWidth charsets name (ground arith)
