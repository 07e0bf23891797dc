-- ===== src/Materialize.antt =====
-- The package simpledb.materialize: sorting.
pub mod SortPlan
pub mod SortScan
pub mod Order
pub mod RecordComparator
pub mod RowOrder
pub mod Merge
pub mod Runs
pub mod Scan
pub mod Sort
mod Tests
