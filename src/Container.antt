-- ===== src/Container.antt =====
-- stdlib/container/list: a doubly linked list in a store of elements.
pub mod Linked
mod Tests
