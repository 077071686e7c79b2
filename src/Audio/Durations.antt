-- ===== src/Audio/Durations.antt =====
-- pkg/parser/audio/duration_formats.go, ogg.go and probe.go: the durations of the audio formats. A
-- byte is a number below 256: `b & 0x7F` is `b % 128`, and a shift is a product or a quotient. The
-- bytes of a resource are what it returns, of any number; nil and the empty slice are one list. A
-- size is that of the resource, where a negative one acts as 0. A loop that is out of fuel panics.
pub mod Decoding
pub mod Flac
pub mod FlacStream
pub mod Chunks
pub mod Mp3
pub mod Webm
pub mod EbmlSizes
pub mod Aac
pub mod AdtsStream
pub mod AdtsCount
pub mod Ogg
pub mod OggPages
pub mod LastPage
pub mod Totality
pub mod Dispatch
mod Tests
