-- ===== src/Plan.antt =====
-- The package simpledb.plan: the plan of a query, opened.
pub mod BasicQueryPlanner
pub mod Refinement
mod Tests
