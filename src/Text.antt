-- ===== src/Text.antt =====
-- Characters and strings as lists of codes, and what the program uses of the C library on them.
pub mod Chars
pub mod Strtol
pub mod Hex
pub mod Json
mod Tests
