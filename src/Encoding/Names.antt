-- ===== src/Encoding/Names.antt =====
-- The names of encodings in dfdl-vm/src/vm/encoding.rs.
use aitest.Prelude.{Bool, false, ◌||◌, Option, none, some, List, [], ◌∷◌, if◌then◌else◌}
use aitest.Schema.{ByteOrder, big_endian, little_endian}
use aitest.Text.{Text}
use aitest.Encoding.{codes, eq_ascii_ignore_case}

unfoldable pub is_one_of : List Text → Text → Bool
unfolding eq_ascii_ignore_case
is_one_of [] name = false
is_one_of (n ∷ names) name = eq_ascii_ignore_case name n || is_one_of names name

abbrev pub by_order : ByteOrder → Text → Text → Text
by_order little_endian little big = little
by_order big_endian little big = big

unfoldable pub resolve_encoding_with_byte_order : Text → ByteOrder → Text
unfolding is_one_of
resolve_encoding_with_byte_order name byte_order =
    if is_one_of (codes "utf-16" ∷ codes "utf_16" ∷ []) name
    then by_order byte_order (codes "utf-16le") (codes "utf-16be")
    else if is_one_of (codes "utf-32" ∷ codes "utf_32" ∷ []) name
    then by_order byte_order (codes "utf-32le") (codes "utf-32be")
    else name

-- The names of each branch, in order, and the name that it gives.
abbrev pub normal_names : List (List Text × Text)
normal_names =
    (codes "utf-32be" ∷ codes "utf_32be" ∷ [], codes "utf-32be")
    ∷ (codes "utf-32le" ∷ codes "utf_32le" ∷ [], codes "utf-32le")
    ∷ (codes "utf-32" ∷ codes "utf_32" ∷ [], codes "utf-32be")
    ∷ (codes "utf-16be" ∷ codes "utf_16be" ∷ [], codes "utf-16be")
    ∷ (codes "utf-16le" ∷ codes "utf_16le" ∷ [], codes "utf-16le")
    ∷ (codes "utf-8" ∷ codes "utf8" ∷ [], codes "utf-8")
    ∷ (codes "ascii" ∷ codes "us-ascii" ∷ [], codes "ascii")
    ∷ (
      codes "iso-8859-1" ∷ codes "iso_8859-1" ∷ codes "latin1" ∷ codes "iso8859-1" ∷ [],
      codes "iso-8859-1",
    )
    ∷ (
      codes "ebcdic-cp-us" ∷ codes "cp037" ∷ codes "ibm037" ∷ codes "ebcdic-cp037" ∷ [],
      codes "ebcdic-cp-us",
    )
    ∷ []

unfoldable pub first_normal : List (List Text × Text) → Text → Option Text
unfolding is_one_of
first_normal [] name = none
first_normal ((names, normal) ∷ rest) name =
    let later = first_normal rest name in if is_one_of names name then some normal else later

unfoldable pub normalize_encoding_name : Text → Option Text
unfolding first_normal
normalize_encoding_name name = first_normal normal_names name
