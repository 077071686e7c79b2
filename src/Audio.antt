-- ===== src/Audio.antt =====
-- pkg/parser/audio: the block cache through which audio files are probed, and the snapshot of it
-- from which they are served.
pub mod ReadCache
pub mod RetainedCache
pub mod CachedResource
pub mod Durations
pub mod Id3
pub mod Chapters
mod Tests
