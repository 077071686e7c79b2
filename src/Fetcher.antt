-- ===== src/Fetcher.antt =====
-- pkg/fetcher: the interface of a resource, its errors, and the resources over a byte buffer and over
-- a transformation.
pub mod Resource
pub mod Bytes
pub mod Transforming
mod Tests
