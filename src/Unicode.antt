-- ===== src/Unicode.antt =====
-- stdlib/unicode: utf16.
pub mod Utf16
mod Tests
