-- ===== src/Tx.antt =====
-- The package simpledb.tx: locks and transactions.
pub mod Block
pub mod LockTable
pub mod ConcurrencyMgr
pub mod Counts
pub mod Locking
pub mod Books
pub mod Requests
pub mod Releases
pub mod Exclusion
pub mod WaitDie
mod Tests
