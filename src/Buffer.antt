-- ===== src/Buffer.antt =====
-- The package simpledb.buffer: pages of the disk held in memory.
pub mod Page
pub mod BufferMgr
pub mod Valid
pub mod Hit
pub mod Miss
pub mod Steps
pub mod Flush
pub mod Pool
pub mod WriteAhead
pub mod Logged
pub mod History
mod Tests
mod TraceTests
