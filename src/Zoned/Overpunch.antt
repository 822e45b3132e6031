-- ===== src/Zoned/Overpunch.antt =====
-- Overpunched digits are told apart: an independent table of the characters, and what
-- `zoned_to_number` of dfdl-vm/src/vm/zoned_text.rs reads.
use aitest.Prelude.{
  ℕ, zero, suc, ◌+◌, ◌-◌, ◌≤◌, ◌<◌, ◌≡◌, refl, ap, ◌∙◌, arith, Bool, true, false, some, [], ◌∷◌,
  ◌++◌, length, get_elem?, take, drop, length-append, ◌==◌, if◌then◌else◌,
}
use aitest.Error.{ok}
use aitest.Text.{Text}
use aitest.Zoned.{
  TextZonedSignStyle, ebcdic, ascii_standard, ascii_translated_ebcdic, ascii_ca_realia_modified,
  ascii_tandem_modified, at_end, decode_overpunch, with_digit, overpunched, zoned_to_number,
}

-- The character of a digit with a negative sign punched over it.
unfoldable pub negative_digit : TextZonedSignStyle → ℕ → ℕ
negative_digit ebcdic d = if d == 0 then b'}' else b'J' + d - 1
negative_digit ascii_standard d = b'p' + d
negative_digit ascii_translated_ebcdic d = if d == 0 then b'}' else b'J' + d - 1
negative_digit ascii_ca_realia_modified d = b' ' + d
negative_digit ascii_tandem_modified d = 128 + d

-- The character of a digit with a positive sign punched over it; in three styles it is the digit.
unfoldable pub positive_digit : TextZonedSignStyle → ℕ → ℕ
positive_digit ebcdic d = if d == 0 then b'{' else b'A' + d - 1
positive_digit ascii_translated_ebcdic d = if d == 0 then b'{' else b'A' + d - 1
positive_digit _ d = b'0' + d

-- The characters of the bytes from 0xb0 to 0xb9 in EBCDIC, which stand for the negative digits too;
-- in the other styles there is one character for each.
abbrev b0_digits : Text
b0_digits = 0x5e ∷ 0xa3 ∷ 0xa5 ∷ 0xb7 ∷ 0xa9 ∷ 0xa7 ∷ 0xb6 ∷ 0xbc ∷ 0xbd ∷ 0xbe ∷ []

unfoldable digit_at : Text → ℕ → ℕ
digit_at [] d = 0
digit_at (c ∷ s) zero = c
digit_at (c ∷ s) (suc d) = digit_at s d

unfoldable pub second_negative_digit : TextZonedSignStyle → ℕ → ℕ
unfolding negative_digit digit_at
second_negative_digit ebcdic d = digit_at b0_digits d
second_negative_digit style d = negative_digit style d

-- The signs of a digit, and whether one is negative.
pub data Sign : Type 0 where
  unsigned plus_over minus_over second_minus : Sign

abbrev pub is_negative : Sign → Bool
is_negative unsigned = false
is_negative plus_over = false
is_negative minus_over = true
is_negative second_minus = true

-- The character of a digit with a sign; an unsigned digit is itself.
unfoldable pub signed_digit : TextZonedSignStyle → Sign → ℕ → ℕ
unfolding positive_digit negative_digit second_negative_digit
signed_digit style unsigned d = b'0' + d
signed_digit style plus_over d = positive_digit style d
signed_digit style minus_over d = negative_digit style d
signed_digit style second_minus d = second_negative_digit style d

decode_second : (d : ℕ) → d < 10 → decode_overpunch (digit_at b0_digits d) ebcdic ≡ ok (d, true)
unfolding decode_overpunch digit_at
decode_second zero h = refl
decode_second (suc zero) h = refl
decode_second (suc (suc zero)) h = refl
decode_second (suc (suc (suc zero))) h = refl
decode_second (suc (suc (suc (suc zero)))) h = refl
decode_second (suc (suc (suc (suc (suc zero))))) h = refl
decode_second (suc (suc (suc (suc (suc (suc zero)))))) h = refl
decode_second (suc (suc (suc (suc (suc (suc (suc zero))))))) h = refl
decode_second (suc (suc (suc (suc (suc (suc (suc (suc zero)))))))) h = refl
decode_second (suc (suc (suc (suc (suc (suc (suc (suc (suc zero))))))))) h = refl
decode_second (suc (suc (suc (suc (suc (suc (suc (suc (suc (suc d)))))))))) h = absurd (omega arith)

decode_overpunch-negative_digit :
    (style : TextZonedSignStyle) (d : ℕ)
    → d < 10
    → decode_overpunch (negative_digit style d) style ≡ ok (d, true)
unfolding decode_overpunch negative_digit
decode_overpunch-negative_digit ebcdic d h = ground arith
decode_overpunch-negative_digit ascii_standard d h = ground arith
decode_overpunch-negative_digit ascii_translated_ebcdic d h = ground arith
decode_overpunch-negative_digit ascii_ca_realia_modified d h = ground arith
decode_overpunch-negative_digit ascii_tandem_modified d h = ground arith

decode_overpunch-positive_digit :
    (style : TextZonedSignStyle) (d : ℕ)
    → d < 10
    → decode_overpunch (positive_digit style d) style ≡ ok (d, false)
unfolding decode_overpunch positive_digit
decode_overpunch-positive_digit ebcdic d h = ground arith
decode_overpunch-positive_digit ascii_standard d h = ground arith
decode_overpunch-positive_digit ascii_translated_ebcdic d h = ground arith
decode_overpunch-positive_digit ascii_ca_realia_modified d h = ground arith
decode_overpunch-positive_digit ascii_tandem_modified d h = ground arith

decode_overpunch-digit :
    (style : TextZonedSignStyle) (d : ℕ)
    → d < 10
    → decode_overpunch (b'0' + d) style ≡ ok (d, false)
unfolding decode_overpunch
decode_overpunch-digit ebcdic d h = ground arith
decode_overpunch-digit ascii_standard d h = ground arith
decode_overpunch-digit ascii_translated_ebcdic d h = ground arith
decode_overpunch-digit ascii_ca_realia_modified d h = ground arith
decode_overpunch-digit ascii_tandem_modified d h = ground arith

decode_overpunch-second_negative_digit :
    (style : TextZonedSignStyle) (d : ℕ)
    → d < 10
    → decode_overpunch (second_negative_digit style d) style ≡ ok (d, true)
unfolding second_negative_digit
decode_overpunch-second_negative_digit ebcdic d h = decode_second d h
decode_overpunch-second_negative_digit ascii_standard d h =
    decode_overpunch-negative_digit ascii_standard d h
decode_overpunch-second_negative_digit ascii_translated_ebcdic d h =
    decode_overpunch-negative_digit ascii_translated_ebcdic d h
decode_overpunch-second_negative_digit ascii_ca_realia_modified d h =
    decode_overpunch-negative_digit ascii_ca_realia_modified d h
decode_overpunch-second_negative_digit ascii_tandem_modified d h =
    decode_overpunch-negative_digit ascii_tandem_modified d h

decode_overpunch-signed_digit :
    (style : TextZonedSignStyle) (sign : Sign) (d : ℕ)
    → d < 10
    → decode_overpunch (signed_digit style sign d) style ≡ ok (d, is_negative sign)
unfolding signed_digit
decode_overpunch-signed_digit style unsigned d h = decode_overpunch-digit style d h
decode_overpunch-signed_digit style plus_over d h = decode_overpunch-positive_digit style d h
decode_overpunch-signed_digit style minus_over d h = decode_overpunch-negative_digit style d h
decode_overpunch-signed_digit style second_minus d h =
    decode_overpunch-second_negative_digit style d h

-- A text with a sign in front where it is negative.
pub signed : Bool → Text → Text
signed negative s = if negative then b'-' ∷ s else s

get_elem?-snoc : (s : Text) (c : ℕ) → get_elem? (s ++ c ∷ []) (length s) ≡ some c
get_elem?-snoc [] c = refl
get_elem?-snoc (d ∷ s) c = get_elem?-snoc s c

take-snoc : (s : Text) (c : ℕ) → take (length s) (s ++ c ∷ []) ≡ s
take-snoc [] c = refl
take-snoc (d ∷ s) c = ap (λ t. d ∷ t) (take-snoc s c)

drop-snoc : (s : Text) (c : ℕ) → drop (length s + 1) (s ++ c ∷ []) ≡ []
drop-snoc [] c = refl
drop-snoc (d ∷ s) c =
    let e : suc (length s) + 1 ≡ suc (length s + 1) = omega arith in rw e (drop-snoc s c)

some_text :
    (l : Text) (style : TextZonedSignStyle)
    → 1 ≤ length l
    → zoned_to_number l style at_end
      ≡ overpunched l (length l - 1) style (get_elem? l (length l - 1))
unfolding zoned_to_number
some_text [] style h = absurd (omega arith)
some_text (c ∷ l) style h = refl

punched :
    (style : TextZonedSignStyle) (sign : Sign) (s : Text) (d : ℕ)
    → d < 10
    → overpunched
        (s ++ signed_digit style sign d ∷ [])
        (length s)
        style
        (some (signed_digit style sign d))
      ≡ ok (signed (is_negative sign) (s ++ (b'0' + d) ∷ []))
unfolding overpunched with_digit signed
punched style sign s d h =
    rw (decode_overpunch-signed_digit style sign d h, take-snoc, drop-snoc) refl

-- A digit at the end of a text, plain or with a positive or a negative sign over it, is read as the
-- digit behind that text, with a minus in front where the sign is negative, in each of the five sign
-- styles; in EBCDIC the characters of the bytes from 0xb0 to 0xb9 are negative digits too.
pub zoned_to_number-at_end :
    (style : TextZonedSignStyle) (sign : Sign) (s : Text) (d : ℕ)
    → d < 10
    → zoned_to_number (s ++ signed_digit style sign d ∷ []) style at_end
      ≡ ok (signed (is_negative sign) (s ++ (b'0' + d) ∷ []))
zoned_to_number-at_end style sign s d h =
    let text = s ++ signed_digit style sign d ∷ [] in
    let n : length text ≡ length s + 1 = length-append s _ in
    let last : length text - 1 ≡ length s = omega (arith, n) in
    some_text text style (omega (arith, n)) ∙ rw (last, get_elem?-snoc) (punched style sign s d h)
