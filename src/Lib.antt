-- ===== src/Lib.antt =====
-- The run-time core of dfdl-vm, a virtual machine that decodes and encodes binary and text data from a
-- DFDL description. A schema is parsed and compiled to a graph of nodes; a decoder walks the graph over
-- a bit cursor, and an encoder walks it over a bit output. This library models the parts that those two
-- walks call for bits, bit fields and numbers. The paths below start at
-- dfdl-vm/src.
--
-- - Prelude, Bits: shared tests, lists and the laws of bit operations on numbers.
-- - Schema, Error: the property enumerations (schema/ast/enums.rs) and the run-time errors (error.rs).
--   An error message is a value with the numbers and texts that the source formats.
-- - Stream: the bit writer of vm/runtime/binary.rs. An Output is the pair of `out` and `bit_count`
--   that the source passes by reference; a function returns the output it leaves, or none where the
--   source panics.
-- - Cursor: the bit reader of vm/runtime/cursor.rs. A method that takes `&mut self` is a step from a
--   cursor to a result and a cursor, which is there on an error too. RoundTrip joins writer and reader; its
--   sequences of calls are a relation on outputs.
-- - BitField: vm/runtime/bits.rs, and `int_bytes` of vm/runtime/scalar.rs.
-- - Text: the operations of the standard library on text that the number modules call. A text is the
--   list of its character codes.
-- - Packed: packed decimal, BCD and IBM 4690 numbers (vm/packed_decimal.rs and `u64_to_bcd_bytes` of
--   vm/runtime/binary.rs).
-- - Magnitude, Decimal: digit lists and scaled decimals (vm/text_number_format/decimal.rs), and their
--   rounding (vm/text_number_format/rounding.rs).
-- - Zoned: overpunched digits (vm/zoned_text.rs).
-- - Escape: escape schemes of delimited text (vm/escape.rs, with EscapeSchemeDef of
--   schema/ast/mod.rs). A loop over the index of a byte string is a loop over the bytes left.
-- - Int: signed integers, with the ranges and the wrap-around of i32 and i64.
-- - Value: the value tree (value.rs). A float is its bit pattern.
-- - Expression: the syntax of DPath expressions (expression/ast.rs, path.rs), their errors and context
--   (error.rs, context.rs), and the evaluator (eval.rs). An EvalContext is a record of what the trait
--   gives; the floating-point operations and the debug format are a record Machine.
-- - Facets: the facets of simple types, their collection along a chain of restrictions and their checks
--   (schema/facets.rs, with the types of schema/ast/mod.rs). The comparison of dates and times is a
--   parameter, and the depth of the recursion on named types is fuel: a type that is its own base has
--   no facets.
-- - Encoding: the table of bit-packed character sets and text in them, EBCDIC, ISO-8859-1, the
--   characters that XML refuses, and the names of encodings (vm/encoding.rs).
-- - Alignment: alignment and skips (vm/alignment.rs), with the properties they read (ir/mod.rs,
--   schema/ast/enums.rs).
-- - Runs: tests, and each theorem at a concrete input.
--
-- Integers are natural numbers with the wrap-around of their width written out. Loops over a range or a
-- list are recursions on it; a loop that runs from the last digit is a recursion on the reversed list.
-- The loops of the escapes have fuel for each byte. The loop that fills a byte up has 8, and at most
-- seven places are left. The loop over a bit-packed text has one more than there are bits, since a
-- character has at least one bit in the table. Fuel stands for the number of digits in three other
-- loops, where 20 is enough for a u64, 39 for a u128 and 5 for a u16, and for the rounds of a
-- division by subtraction, where one more than the dividend is enough, since each round subtracts at
-- least 1. The arithmetic that the checked build refuses, and an index out of range, is the result
-- `panics` or `none`. Four functions leave such a refusal out, and stand for the code where there is
-- none: `reverse_rounds` and `int_bytes` for widths up to 64 bits and sizes up to eight bytes,
-- beyond which a shift is too wide, `or_at` for an index in range, and `sub_mag` for a subtrahend
-- that is not the larger number, which a debug assertion asks.
--
-- Not modelled: the schema parser, the syntax tree and its checks, the compilation to the graph, the two
-- walks themselves, the parser of expressions, calendars, UTF-16 and UTF-32, the tests of lengths,
-- padding, and the runner for test documents. They stand above the parts modelled here, or beside them.
pub mod Prelude
pub mod Bits
pub mod Schema
pub mod Error
pub mod Stream
pub mod Cursor
pub mod RoundTrip
pub mod BitField
pub mod Text
pub mod Packed
pub mod Magnitude
pub mod Decimal
pub mod Zoned
pub mod Escape
pub mod Int
pub mod Value
pub mod Expression
pub mod Facets
pub mod Encoding
pub mod Alignment
pub mod Runs
