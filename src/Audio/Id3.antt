-- ===== src/Audio/Id3.antt =====
-- pkg/parser/audio/id3chapters.go: the frames of an ID3v2 tag, read through a window. A text is its
-- bytes. The start of a chapter is kept in milliseconds. A loop that is out of fuel panics.
pub mod TextFrames
pub mod TextTotality
pub mod Frames
pub mod Windows
pub mod FrameTotality
pub mod Reading
pub mod Totality
mod Tests
