-- ===== src/Docs/SearchBox.antt =====
-- The search panel of html/search/search.js, the object `SearchBox`.
pub mod Page
pub mod Panel
pub mod Sections
pub mod Search
pub mod Field
pub mod Timers
pub mod Selection
pub mod SelectKeys
