-- ===== src/Sort.antt =====
-- stdlib/sort and the sorting functions of stdlib/slices.
pub mod Order
pub mod Insertion
pub mod Search
pub mod Interface
mod Tests
