-- ===== src/Docs/DynSections.antt =====
-- html/dynsections.js: the parts of a page that open and close.
pub mod JQuery
pub mod Folding
pub mod Directory
mod Elements
mod Tests
