-- ===== src/Schema.antt =====
-- The property enumerations of dfdl-vm/src/schema/ast/enums.rs that the run-time modules read.

pub data ByteOrder : Type 0 where
  big_endian little_endian : ByteOrder

pub data BitOrder : Type 0 where
  most_significant_bit_first least_significant_bit_first : BitOrder

pub data BinaryNumberCheckPolicy : Type 0 where
  strict lax : BinaryNumberCheckPolicy

pub data TextNumberRoundingMode : Type 0 where
  round_ceiling : TextNumberRoundingMode
  round_floor : TextNumberRoundingMode
  round_down : TextNumberRoundingMode
  round_up : TextNumberRoundingMode
  round_half_even : TextNumberRoundingMode
  round_half_down : TextNumberRoundingMode
  round_half_up : TextNumberRoundingMode
  round_unnecessary : TextNumberRoundingMode
