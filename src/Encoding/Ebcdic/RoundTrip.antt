-- ===== src/Encoding/Ebcdic/RoundTrip.antt =====
-- The two EBCDIC tables of dfdl-vm/src/vm/encoding.rs against each other.
use aitest.Prelude.{
  ℕ, ◌<◌, ◌≡◌, refl, arith, Bool, true, false, ◌&&◌, ◌||◌, List, [], ◌∷◌, get_elem?, ltb, leb, ◌==◌,
  Option, none, some, not, All,
}
use aitest.Bits.Byte.{all_below, all_below-at}
use aitest.Error.{Result, ok, err, panics}
use aitest.Text.{Text}
use aitest.Encoding.Ebcdic.{
  ebcdic037_decode, encode_ebcdic_char, encode_ebcdic_cp_us, decode_ebcdic_cp_us,
}

-- The printable ASCII characters but the ten that are written as the byte of another character:
-- those from s to x, the square brackets, the circumflex and the bar.
unfoldable pub is_plain : ℕ → Bool
is_plain c =
    leb 0x20 c
    && ltb c 0x7f
    && not (leb b's' c && leb c b'x')
    && not (c == b'[')
    && not (c == b']')
    && not (c == b'^')
    && not (c == b'|')

unfoldable is_some_of : ℕ → Option ℕ → Bool
is_some_of c none = false
is_some_of c (some d) = d == c

unfoldable reads_as : ℕ → Result ℕ → Bool
unfolding is_some_of
reads_as c (ok b) = is_some_of c (get_elem? ebcdic037_decode b)
reads_as c (err e) = false
reads_as c panics = false

abbrev kept : ℕ → Bool
kept c = not (is_plain c) || reads_as c (encode_ebcdic_char c)

kept_table : all_below 128 kept ≡ true
unfolding all_below is_plain reads_as encode_ebcdic_char
kept_table = refl

is_some_of-some : (c : ℕ) (o : Option ℕ) → is_some_of c o ≡ true → o ≡ some c
unfolding is_some_of
is_some_of-some c none h = ground arith
is_some_of-some c (some d) h = ground arith

HasByte : ℕ → Result ℕ → Type 0
HasByte c r = (b : ℕ) × (r ≡ ok b) × (get_elem? ebcdic037_decode b ≡ some c)

reads_as-HasByte : (c : ℕ) (r : Result ℕ) → reads_as c r ≡ true → HasByte c r
unfolding reads_as HasByte
reads_as-HasByte c (ok b) h = (b, refl, is_some_of-some c _ h)
reads_as-HasByte c (err e) h = ground arith
reads_as-HasByte c panics h = ground arith

kept_right : (p q : Bool) → p ≡ true → (not p || q) ≡ true → q ≡ true
kept_right p q h k = ground arith

is_plain-below : (c : ℕ) → is_plain c ≡ true → c < 128
unfolding is_plain
is_plain-below c h = ground arith

low_test : (c : ℕ) → c < 128 → leb 128 c ≡ false
low_test c h = ground arith

is_plain-HasByte : (c : ℕ) → is_plain c ≡ true → HasByte c (encode_ebcdic_char c)
is_plain-HasByte c h =
    reads_as-HasByte c _
      (kept_right _ _ h (all_below-at 128 kept c kept_table (is_plain-below c h)))

-- Printable ASCII text is written in EBCDIC and read back, where it has none of the characters from s
-- to x, no square bracket, no circumflex and no bar.
pub decode_ebcdic_cp_us-encode_ebcdic_cp_us :
    (text : Text)
    → All (λ c. is_plain c ≡ true) text
    → (bytes : List ℕ) × (encode_ebcdic_cp_us text ≡ ok bytes)
      × (decode_ebcdic_cp_us bytes ≡ ok text)
unfolding encode_ebcdic_cp_us decode_ebcdic_cp_us HasByte
decode_ebcdic_cp_us-encode_ebcdic_cp_us [] h = ([], refl, refl)
decode_ebcdic_cp_us-encode_ebcdic_cp_us (c ∷ text) (h, hs) =
    let one = is_plain-HasByte c h in
    let rest = decode_ebcdic_cp_us-encode_ebcdic_cp_us text hs in
    let low : leb 128 c ≡ false = low_test c (is_plain-below c h) in
    (one.0 ∷ rest.0, rw (low, one.1, rest.1) refl, rw (one.2, rest.2) refl)
