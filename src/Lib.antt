-- ===== src/Lib.antt =====
-- go-toolkit reads publications (EPUB, audiobooks, PDF, comics) into a manifest, a fetcher that gives
-- their resources, and services over both. This library models the parts that compute on bytes,
-- ranges and positions, and proves what they promise.
--
-- Fetcher/Resource.antt is the interface of a resource (pkg/fetcher/resource.go) as a record of its
-- length and its reads, with its contract: (0, 0) is the whole content, and a range is clamped to the content.
-- Fetcher/Bytes.antt is BytesResource (pkg/fetcher/resource_bytes.go), the lazy load as a state, and
-- Fetcher/Transforming.antt is TransformingResource (pkg/fetcher/resource.go).
--
-- Audio/ReadCache.antt is readCache (pkg/parser/audio/readcache.go), through which audio files are
-- probed: read is Read, with fetch, store_run and gather as its loops. Audio/RetainedCache.antt and
-- Audio/CachedResource.antt are retainedCache and cachedResource (pkg/parser/audio/servecache.go),
-- which serve from the blocks that probing left. A Go map is an association list (Prelude/Assoc);
-- a run-time panic is a value (Prelude/Panic). The theorems assume of the wrapped resource that its
-- successful reads are ranges of one content, and of a writer what io.Writer documents.
--
-- Extensions/Escape.antt is pkg/internal/extensions/escape.go and two functions of string.go in the
-- same directory: percent-encoding on lists of byte values.
--
-- Search/Corpus.antt is extractResource (pkg/search/corpus.go) as one step for each token of the
-- HTML tokenizer; Search/Library.antt is Extractor.Build and ProgressionsAt; Search/Match.antt is
-- the literal engine (pkg/search/match.go). The tokenizer, the normal form, the decoding of runes
-- and the character classes are parameters: of the decoding it is assumed that runes have positive
-- sizes that add up to the length of the text.
--
-- Positions/ has the positions services: Positions/Epub.antt (pkg/parser/epub/positions_service.go),
-- Positions/PerResource.antt (pkg/pub/service_positions.go) and Positions/Pdf.antt
-- (pkg/parser/pdf/positions_service.go). A quotient of two integers in a float64 is kept as the two.
--
-- Audio/Durations.antt is the probing of durations (pkg/parser/audio/duration_formats.go, ogg.go and
-- probe.go), one module for each format over the reads and numbers of Durations/Decoding: the names
-- of the functions are the code's, and the loops are wav_loop, aiff_loop, find_mp3_frame, walk_loop,
-- scan_frames and granule_loop. float64 is a parameter (Floats), and so is the probe of MP4 files.
--
-- Epub/Deobfuscator.antt is DeobfuscatingResource (pkg/parser/epub/deobfuscator.go): read is Read,
-- and stream, stream_portion and send are Stream, on what the pipe of the wrapped resource gives.
--
-- Content/Iterator.antt, Content/Html.antt and Content/Publication.antt are the iterators of
-- pkg/content/iterator (iterator.go, html.go and publication.go), with the state of each as a record.
-- HasNext and HasPrevious of the publication are has, Next and Previous are current, and advance is
-- the client that calls one after the other.
--
-- Audio/Id3.antt is the reading of ID3v2 tags (pkg/parser/audio/id3chapters.go): read_id3_frames is
-- readID3Frames, read_window the function `read` in it with the variables that it shares as a record,
-- and Id3/TextFrames decodes texts. Audio/Chapters.antt has the chapters that Audio/Durations/Dispatch
-- adds to a duration: id3_chapters (id3chapters.go), vorbis_chapters (toc.go) and parse_cue
-- (playlist.go), with the parsing of numbers and of XML and the sorts as parameters.
--
-- Archive/Remote.antt and Archive/ReadAt.antt are remoteZIPAdapter (pkg/archive/remote.go): read_at is
-- ReadAt on the state of the adapter and a store of buffers, with one function for each of its
-- modes; the remote object is a parameter, and a time-out is one of its errors.
--
-- Loops that do not follow a list run on fuel, the number of rounds that the code can take: the
-- blocks of a range in the caches, the bytes of a text in split_text, one more than the folded runes
-- in hits (which scan gives it), one more than the bytes, than the limit of the chunks or than the end of the tag in the
-- probes of audio files, two more than the reading order in next_in. The theorems hold for the calls
-- with this fuel; where a loop can run out of it, that is a panic of the model. Offsets are natural
-- numbers; the code's tests for negative ones are left out where the module says so, and int64 does
-- not overflow.
--
-- Not modelled: files, HTTP, cloud storage, archives, XML and JSON documents, the parsers over them,
-- and concurrency (a cache is seen by one goroutine; what another adds are blocks of the same
-- content; the goroutine that fills a pipe is what it writes).
pub mod Prelude
pub mod Fetcher
pub mod Archive
pub mod Audio
pub mod Extensions
pub mod Search
pub mod Positions
pub mod Epub
pub mod Content
