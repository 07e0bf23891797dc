-- ===== src/Parse.antt =====
-- The package simpledb.parse: SQL commands from their tokens.
pub mod Lexer
pub mod Data
pub mod Parser
pub mod Commands
pub mod Grammar
pub mod Pieces
pub mod Columns
pub mod Lengths
pub mod RoundTrip
mod Tests
