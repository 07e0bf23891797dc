-- ===== src/Docs/Results.antt =====
-- The result page of html/search/search.js: the object `SearchResults`, which filters the rows and
-- moves the focus.
pub mod Search
pub mod Matches
pub mod Keys
pub mod Navigation
