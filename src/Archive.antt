-- ===== src/Archive.antt =====
-- pkg/archive: reading a ZIP archive in a remote store.
pub mod Remote
pub mod ReadAt
mod Tests
