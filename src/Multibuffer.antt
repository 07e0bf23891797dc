-- ===== src/Multibuffer.antt =====
-- The package simpledb.multibuffer.
pub mod BufferNeeds
mod Tests
