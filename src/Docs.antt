-- ===== src/Docs.antt =====
-- The generated documentation of the database, html/: its search panel and result pages.
pub mod Text
pub mod Ids
pub mod Dom
pub mod Results
pub mod Create
pub mod SearchBox
pub mod Menu
pub mod DynSections
mod Tests
mod PanelTests
