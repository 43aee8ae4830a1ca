-- ===== src/Hash.antt =====
-- The checksums of stdlib/hash: crc32, crc64, adler32 and fnv, behind the interface of hash.go.
pub mod Interface
mod Crc
pub mod Crc32
pub mod Crc64
pub mod Adler32
pub mod Fnv
mod Tests
