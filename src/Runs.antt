-- ===== src/Runs.antt =====
-- Concrete runs of the modelled code, and each theorem at a concrete input.
mod Streams
mod Numbers
mod Decimals
mod Escapes
mod Expressions
mod Types
mod Alignments
mod Charsets
