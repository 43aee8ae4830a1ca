-- ===== src/Mime.antt =====
-- stdlib/mime: quotedprintable.
pub mod Quoted
mod Tests
