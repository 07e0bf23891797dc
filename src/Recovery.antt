-- ===== src/Recovery.antt =====
-- The package simpledb.tx.recovery: the log of the transactions, and what undoes them.
pub mod LogRecord
pub mod RecoveryMgr
pub mod Unfinished
pub mod Undo
pub mod Rollback
pub mod Heads
pub mod History
pub mod Sound
pub mod Restore
mod Tests
