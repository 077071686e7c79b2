-- ===== src/Epub.antt =====
-- pkg/parser/epub: the fonts of an EPUB, which are obfuscated at their beginning.
pub mod Deobfuscator
mod Tests
