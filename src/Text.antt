-- ===== src/Text.antt =====
-- stdlib/strings and stdlib/bytes. A string and a byte slice are both the list of their bytes, and
-- `none` is the index -1.
pub mod Find
pub mod Pieces
pub mod Strings
pub mod Bytes
pub mod Buffers
pub mod Laws
pub mod Tests
