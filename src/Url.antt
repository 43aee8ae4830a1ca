-- ===== src/Url.antt =====
-- stdlib/net/url/url.go on bytes.
pub mod Escape
pub mod Parse
mod Tests
