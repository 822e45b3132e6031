-- ===== src/Alignment/Boundary.antt =====
-- The boundary of a text encoding that dfdl-vm/src/vm/alignment.rs moves a cursor to.
use aitest.Prelude.{
  ℕ, suc, ◌+◌, ◌-◌, ◌%◌, ◌≤◌, ◌<◌, ◌≡◌, refl, sym, ap, ◌∙◌, arith, true, false, Option, List, [],
  ◌∷◌, All, get_elem?, none, some, inl, inr, Bool-cases, ltb, leb, if◌then◌else◌,
}
use native.Mathlib.Nat.{mod-lt, add-mod-mod, mod-add-mod, mod_self}
use aitest.Error.{unexpected_eof, Result, ok, err, map_err}
use aitest.Text.{Text}
use aitest.Encoding.{
  BitsCharsetSpec, eq_ascii_ignore_case, charsets, named_charset, bits_charset_spec,
  bits_charset_code_unit_width, IsWidth, bits_charset_code_unit_width-IsWidth,
}
use mathlib.Core.Option
use aitest.Schema.{BitOrder}
use aitest.Cursor.{Cursor, absolute_bit_index}
use aitest.Cursor.Read.{at, end_of, at-absolute_bit_index}
use aitest.Cursor.Move.{skip_stream_bits-at}
use aitest.Alignment.{
  IrProps, or_eight, text_encoding_alignment_bits, skip_or_eof, bits_to_boundary,
  align_cursor_to_text_encoding,
}

-- The width that text in an encoding of this name is aligned to, by a table of character sets: that of
-- a set that has the name, and 8 where no set has it.
pub data IsUnit (table : List (Text × BitsCharsetSpec)) (name : Text) : ℕ → Type 0 where
  of_charset :
      (i : ℕ) (n : Text) (s : BitsCharsetSpec)
      → get_elem? table i ≡ some (n, s)
      → eq_ascii_ignore_case name n ≡ true
      → IsUnit table name s.width
  of_byte :
      All (λ (e : Text × BitsCharsetSpec). eq_ascii_ignore_case name e.0 ≡ false) table
      → IsUnit table name 8

IsUnit-cons :
    {table : List (Text × BitsCharsetSpec)} {name : Text} {w : ℕ} (n : Text) (s : BitsCharsetSpec)
    → eq_ascii_ignore_case name n ≡ false
    → IsUnit table name w
    → IsUnit ((n, s) ∷ table) name w
IsUnit-cons n s other (of_charset i m t here e) = of_charset (suc i) m t here e
IsUnit-cons n s other (of_byte none_here) = of_byte (other, none_here)

named_charset-IsUnit :
    (table : List (Text × BitsCharsetSpec)) (name : Text)
    → IsUnit table name
        (or_eight (Option.map (λ (s : BitsCharsetSpec). s.width) (named_charset table name)))
unfolding named_charset
named_charset-IsUnit [] name = of_byte tt
named_charset-IsUnit ((n, s) ∷ table) name = elim (Bool-cases (eq_ascii_ignore_case name n)) [
  | inl e ↦ rw e (of_charset 0 n s refl e)
  | inr e ↦ rw e (IsUnit-cons n s e (named_charset-IsUnit table name))
]

text_encoding_alignment_bits-IsUnit :
    (encoding : Text) → IsUnit charsets encoding (text_encoding_alignment_bits encoding)
unfolding text_encoding_alignment_bits bits_charset_code_unit_width bits_charset_spec
text_encoding_alignment_bits-IsUnit encoding = named_charset-IsUnit charsets encoding

or_eight-width : (w : Option ℕ) → IsWidth w → (1 ≤ or_eight w) × (or_eight w ≤ 8)
or_eight-width none h = (omega arith, omega arith)
or_eight-width (some w) h = h

width_bounds :
    (encoding : Text)
    → (1 ≤ text_encoding_alignment_bits encoding) × (text_encoding_alignment_bits encoding ≤ 8)
unfolding text_encoding_alignment_bits
width_bounds encoding = or_eight-width _ (bits_charset_code_unit_width-IsWidth encoding)

-- The least skip to a multiple of the width.
pub record IsBoundary (width pos skip : ℕ) : Type 0 where
  pub multiple : (pos + skip) % width ≡ 0
  pub near : skip < width

bits_to_boundary-IsBoundary :
    (width pos : ℕ) → 1 ≤ width → IsBoundary width pos (bits_to_boundary width pos)
unfolding bits_to_boundary
bits_to_boundary-IsBoundary width pos h =
    let some_bits : 0 < width = omega arith in
    let below : pos % width < width = mod-lt pos some_bits in
    let whole : pos % width + (width - pos % width) ≡ width = omega arith in
    record {
      multiple =
          add-mod-mod pos (width - pos % width) width
          ∙ sym (mod-add-mod pos width (width - pos % width))
          ∙ ap (λ (n : ℕ). n % width) whole
          ∙ mod_self width;
      near = mod-lt (width - pos % width) some_bits;
    }

-- The cursor stands at the next boundary where the data reach so far, and at the end of the data with
-- an error where they do not.
pub record IsAligned (c : Cursor) (width : ℕ) (result : Result (Unit {0}) × Cursor) : Type 0 where
  pub skip : ℕ
  pub boundary : IsBoundary width (absolute_bit_index c) skip
  pub moved : result ≡ (
      if leb (absolute_bit_index c + skip) (end_of c)
      then (ok tt, at c (absolute_bit_index c + skip))
      else (err unexpected_eof, at c (end_of c)))

as_eof : Result (Unit {0}) × Cursor → Result (Unit {0}) × Cursor
as_eof p = (map_err (λ e. unexpected_eof) p.0, p.1)

module _ (order : BitOrder) (c : Cursor) (plain : c.tdml_bit_order_regions ≡ none)
    (aligned : c.bit_count < 8) (below : absolute_bit_index c ≤ end_of c) where
  Moves : ℕ → Result (Unit {0}) × Cursor → Type 0
  Moves n result = result ≡ (
      if leb (absolute_bit_index c + n) (end_of c)
      then (ok tt, at c (absolute_bit_index c + n))
      else (err unexpected_eof, at c (end_of c)))

  skip_or_eof-at : (n : ℕ) → Moves n (skip_or_eof n order c)
  unfolding Moves skip_or_eof as_eof
  skip_or_eof-at n =
      let skipped = skip_stream_bits-at order c plain aligned below n in
      elim (Bool-cases (leb (absolute_bit_index c + n) (end_of c))) [
        | inl e ↦ rw e (rw e at (ap as_eof skipped))
        | inr e ↦ rw e (rw e at (ap as_eof skipped))
      ]

  stays : (n : ℕ) → n ≡ 0 → Moves n (ok tt, c)
  unfolding Moves
  stays n e =
      let inside : leb (absolute_bit_index c + 0) (end_of c) ≡ true = ground arith in
      let there : absolute_bit_index c + 0 ≡ absolute_bit_index c = omega arith in
      rw (e, inside, there, at-absolute_bit_index c aligned) refl

  guarded-at :
      (w n : ℕ)
      → n < w
      → Moves n
          (if leb w 1 then (ok tt, c) else if ltb 0 n then skip_or_eof n order c else (ok tt, c))
  guarded-at w n near = elim (Bool-cases (leb w 1)) [
    | inl e ↦ rw e (stays n (ground arith))
    | inr e ↦ elim (Bool-cases (ltb 0 n)) [
      | inl more ↦ rw (e, more) (skip_or_eof-at n)
      | inr done ↦ rw (e, done) (stays n (ground arith))
    ]
  ]

  -- Before text, the cursor moves to the next multiple of the width of the bit-packed character set
  -- that has the name of the encoding, and of 8 bits where none has, by less than that width; where the
  -- data end before it, the move is refused as the end of the data. This is for a cursor that stands
  -- between two bits of the data and has no bit order regions.
  pub align_cursor_to_text_encoding-IsAligned :
      (props : IrProps) (encoding : Text)
      → props.bit_order ≡ order
      → (width : ℕ) × IsUnit charsets encoding width
        × IsAligned c width (align_cursor_to_text_encoding props encoding c)
  unfolding align_cursor_to_text_encoding Moves
  align_cursor_to_text_encoding-IsAligned props encoding same =
      let width = text_encoding_alignment_bits encoding in
      let skip = bits_to_boundary width (absolute_bit_index c) in
      let wide = width_bounds encoding in
      let boundary = bits_to_boundary-IsBoundary width (absolute_bit_index c) wide.0 in
      let near : skip < width = boundary.near in
      (
        width,
        text_encoding_alignment_bits-IsUnit encoding,
        record { skip = skip; boundary = boundary; moved = rw same (guarded-at width skip near) },
      )
