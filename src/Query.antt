-- ===== src/Query.antt =====
-- The package simpledb.query: the values of records, predicates and scans.
pub mod Constant
pub mod Predicate
pub mod Scan
pub mod SubPred
pub mod Joined
pub mod Split
pub mod Reads
pub mod Algebra
pub mod Reading
pub mod Pairs
mod Tests
