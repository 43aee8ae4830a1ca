-- ===== src/Big.antt =====
-- stdlib/math/big/big.go: integers of any size as a sign and limbs in base 1,000,000.
pub mod Magnitude
pub mod Integer
mod Tests
