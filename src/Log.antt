-- ===== src/Log.antt =====
-- The packages simpledb.log and simpledb.file: pages of bytes, and the log that is kept in them.
pub mod Page
pub mod LogMgr
pub mod LogIterator
pub mod Unbounded
pub mod Bounded
pub mod Reading
pub mod Programs
pub mod Records
pub mod Blocks
pub mod Place
pub mod Append
pub mod Iterate
pub mod RoundTrip
pub mod Saved
pub mod Durable
mod Tests
