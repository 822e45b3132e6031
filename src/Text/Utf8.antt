-- ===== src/Text/Utf8.antt =====
-- UTF-8 as the standard library writes and reads it: `char::encode_utf8`, and
-- `String::from_utf8_lossy`, which puts U+FFFD for each part that is no code.
use aitest.Prelude.{
  ℕ, zero, suc, ◌+◌, ◌/◌, ◌%◌, ◌≤◌, ◌<◌, ◌≡◌, refl, ap, arith, ◌&&◌, [], ◌∷◌, ◌++◌, length, drop,
  take, ltb, leb, ◌==◌, All, if◌then◌else◌, lt→ltb,
}
use aitest.Text.{Text}

unfoldable pub encode_utf8 : ℕ → Text
encode_utf8 c =
    if ltb c 0x80
    then c ∷ []
    else if ltb c 0x800
    then (0xc0 + c / 64) ∷ (0x80 + c % 64) ∷ []
    else if ltb c 0x10000
    then (0xe0 + c / 4096) ∷ (0x80 + c / 64 % 64) ∷ (0x80 + c % 64) ∷ []
    else (0xf0 + c / 262144) ∷ (0x80 + c / 4096 % 64) ∷ (0x80 + c / 64 % 64) ∷ (0x80 + c % 64) ∷ []

-- The bytes from `lo` to `hi` at the front, at most `n` of which the later ones are any continuation
-- bytes: how many there are.
unfoldable pub continuation : ℕ → ℕ → ℕ → Text → ℕ
continuation zero lo hi s = 0
continuation (suc n) lo hi [] = 0
continuation (suc n) lo hi (c ∷ s) =
    let more = continuation n 0x80 0xbf s in if leb lo c && leb c hi then suc more else 0

-- A code in UTF-8 that starts with the byte `c`: how many bytes follow, and the range of the first.
unfoldable pub followers : ℕ → ℕ × (ℕ × ℕ)
followers c =
    if ltb c 0xc2
    then (0, (1, 0))
    else if ltb c 0xe0
    then (1, (0x80, 0xbf))
    else if c == 0xe0
    then (2, (0xa0, 0xbf))
    else if c == 0xed
    then (2, (0x80, 0x9f))
    else if ltb c 0xf0
    then (2, (0x80, 0xbf))
    else if c == 0xf0
    then (3, (0x90, 0xbf))
    else if ltb c 0xf4
    then (3, (0x80, 0xbf))
    else if c == 0xf4
    then (3, (0x80, 0x8f))
    else (0, (1, 0))

replacement : Text
replacement = 0xef ∷ 0xbf ∷ 0xbd ∷ []

-- The next code, or the next part that is none, behind the byte `c`: what is written for it, and how
-- many bytes of `s` it takes.
unfoldable pub utf8_chunk : ℕ → Text → Text × ℕ
unfolding continuation followers replacement
utf8_chunk c s =
    let want = (followers c).0 in
    let got = continuation want ((followers c).1.0) ((followers c).1.1) s in
    if ltb c 0x80
    then (c ∷ [], 0)
    else if want == 0
    then (replacement, 0)
    else if got == want
    then (c ∷ take want s, want)
    else (replacement, got)

unfoldable pub lossy_rounds : ℕ → Text → Text
lossy_rounds zero s = []
lossy_rounds (suc fuel) [] = []
lossy_rounds (suc fuel) (c ∷ s) =
    (utf8_chunk c s).0 ++ lossy_rounds fuel (drop ((utf8_chunk c s).1) s)

-- A round takes one byte at least, so one round for each byte is enough.
unfoldable pub from_utf8_lossy : Text → Text
unfolding lossy_rounds utf8_chunk
from_utf8_lossy s = lossy_rounds (length s) s

abbrev pub IsAscii : ℕ → Type 0
IsAscii c = c < 0x80

pub encode_utf8-ascii : (c : ℕ) → IsAscii c → encode_utf8 c ≡ c ∷ []
unfolding encode_utf8
encode_utf8-ascii c h = rw (lt→ltb c 0x80 h) refl

-- A code takes a byte or more.
pub encode_utf8-positive : (c : ℕ) → 1 ≤ length (encode_utf8 c)
unfolding encode_utf8
encode_utf8-positive c = ground arith

pub utf8_chunk-ascii : (c : ℕ) (s : Text) → IsAscii c → utf8_chunk c s ≡ (c ∷ [], 0)
unfolding utf8_chunk
utf8_chunk-ascii c s h = rw (lt→ltb c 0x80 h) refl

-- ASCII text is UTF-8, and is read as it stands.
pub from_utf8_lossy-ascii : (s : Text) → All IsAscii s → from_utf8_lossy s ≡ s
unfolding from_utf8_lossy lossy_rounds
from_utf8_lossy-ascii [] h = refl
from_utf8_lossy-ascii (c ∷ s) h =
    rw (utf8_chunk-ascii c s h.0) (ap (λ t. c ∷ t) (from_utf8_lossy-ascii s h.1))
