-- ===== src/Record.antt =====
-- The package simpledb.record: records in the slots of a block.
pub mod Layout
pub mod RecordPage
pub mod Flags
pub mod Search
pub mod Insert
pub mod Offsets
pub mod Fields
pub mod Write
mod Tests
pub mod Format
