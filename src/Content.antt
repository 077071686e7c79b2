-- ===== src/Content.antt =====
-- pkg/content/iterator: the iteration over the elements of a publication.
pub mod Iterator
pub mod Html
pub mod Publication
pub mod HtmlTraversal
pub mod Remaining
pub mod Traversal
mod Tests
