-- ===== src/Crypto.antt =====
-- stdlib/crypto: the digests that work on blocks, and HMAC.
pub mod Blocks
pub mod Words
pub mod Md5
pub mod Sha1
pub mod Sha256
pub mod Sha512
pub mod Hmac
pub mod Subtle
pub mod Hkdf
pub mod Aes
pub mod Des
pub mod Laws
mod Tests
