-- ===== src/Encoding.antt =====
-- The byte codecs of stdlib/encoding: binary, hex, base64 and csv.
pub mod Binary
pub mod Hex
pub mod Base64
pub mod Csv
mod Tests
