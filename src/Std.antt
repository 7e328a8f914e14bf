-- ===== src/Std.antt =====
-- The parts of Go's standard library that the program computes with: encodings, exclusive or, and
-- lexical paths.
pub mod Hex
pub mod Base64
pub mod Xor
pub mod Split
pub mod Path
