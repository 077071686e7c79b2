-- ===== src/Search.antt =====
-- pkg/search: extraction of searchable text from markup, and literal matching over it.
pub mod Text
pub mod Corpus
pub mod Match
pub mod Library
mod Tests
