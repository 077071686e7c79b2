-- ===== src/Audio/Durations/Tests.antt =====
-- pkg/parser/audio: short streams of the formats, at which the theorems apply. The numbers stand for
-- those of float64, with quotients that are rounded down.
use go_toolkit.Prelude.{
  ℕ, ◌+◌, ◌==◌, true, some, none, ◌*◌, ◌/◌, ◌≤◌, ◌<◌, ◌≡◌, refl, false, [], ◌∷◌, ◌++◌, ltb, leb,
  Bytes, length, replicate, arith,
}
use go_toolkit.Prelude.Int.{pos, pos_part}
use go_toolkit.Prelude.Panic.{done, Ends}
use go_toolkit.Fetcher.Resource.{Resource, ok, range}
use go_toolkit.Audio.Durations.Decoding.{Floats}
use go_toolkit.Audio.Durations.Flac.{probe_flac_duration}
use go_toolkit.Audio.Durations.FlacStream.{
  StreamInfo, Fits, flac_stream, flac_stream-probe_flac_duration,
}
use go_toolkit.Audio.Durations.Mp3.{
  version_bits, layer_bits, bitrate_index, sample_index, is_reserved, mp3_bitrate, mp3_sample_rate,
}
use go_toolkit.Audio.Durations.Webm.{ebml_read_size}
use go_toolkit.Audio.Durations.EbmlSizes.{ebml_read_size-bounded}
use go_toolkit.Audio.Durations.Aac.{probe_aac_duration}
use go_toolkit.Audio.Durations.AdtsStream.{
  AdtsFrame, IsAdts, adts_stream, samples, frame_rate, frame_bytes,
}
use go_toolkit.Audio.Durations.AdtsCount.{adts_stream-probe_aac_duration}
use go_toolkit.Audio.Durations.Ogg.{sum, last_ogg_granule, ogg_capture_pattern}
use go_toolkit.Audio.Durations.LastPage.{IsLastGranule, last_ogg_granule-IsLastGranule}
use go_toolkit.Audio.Durations.Totality.{Returns}
use go_toolkit.Audio.Durations.Totality.Mp3Frames.{header_rates-positive}
use go_toolkit.Audio.Id3.TextFrames.{Texts}
use go_toolkit.Audio.Chapters.{Parsing}
use go_toolkit.Audio.Chapters.Embedded.{RawTags, text_chapter}
use go_toolkit.Audio.Durations.Dispatch.{probe_audio_file, probe_audio_file-Returns}

abbrev whole_numbers : Floats ℕ
whole_numbers = record {
  from_ℕ = λ n. n;
  from_bits32 = λ n. n;
  from_bits64 = λ n. n;
  eleven_tenths = 1;
  negate = λ n. 0;
  power_of_two = λ e. pos_part e;
  times = λ a b. a * b;
  over = λ a b. a / b;
  below = ltb;
  at_most = leb;
}

abbrev serving : Bytes → Resource
serving bs = record { length = ok (length bs); read = λ start end. ok (range bs start end) }

abbrev info : StreamInfo
info = record {
  min_block = 4096;
  max_block = 4096;
  min_frame = 14;
  max_frame = 9000;
  sample_rate = 44100;
  channels = 1;
  bits = 15;
  total_samples = 441000;
  md5 = replicate 16 3;
}

info-Fits : Fits info
info-Fits = record {
  rate_bits = omega arith;
  channel_bits = omega arith;
  sample_bits = omega arith;
  total_bits = omega arith;
  md5_bytes = refl;
}

flac_stream-probe_flac_duration_example :
    probe_flac_duration whole_numbers (serving (flac_stream 1 info (9 ∷ [])))
    ≡ done (441000 / 44100)
flac_stream-probe_flac_duration_example =
    flac_stream-probe_flac_duration whole_numbers 1 info (9 ∷ [])
      (serving (flac_stream 1 info (9 ∷ []))) info-Fits (omega arith) (omega arith)
      (λ start end. refl)

abbrev frame : AdtsFrame
frame = record {
  kind = 1;
  profile = 1;
  rate_index = 4;
  mode = 0;
  flags = 32;
  fullness_high = 31;
  fullness_low = 63;
  more_blocks = 1;
  payload = 1 ∷ 2 ∷ 3 ∷ [];
}

frame-IsAdts : IsAdts frame
frame-IsAdts = record {
  kind_bits = omega arith;
  profile_bits = omega arith;
  rate_range = omega arith;
  mode_bits = omega arith;
  flag_bits = omega arith;
  high_bits = omega arith;
  block_bits = omega arith;
  length_bits = omega arith;
}

two_frames_small : length (adts_stream (frame ∷ frame ∷ [])) ≡ 20
unfolding frame_bytes
two_frames_small = refl

adts_stream-probe_aac_duration_example :
    probe_aac_duration whole_numbers
      (serving (adts_stream (frame ∷ frame ∷ [])))
      (length (adts_stream (frame ∷ frame ∷ [])))
    ≡ done (samples (frame ∷ frame ∷ []) / frame_rate frame)
adts_stream-probe_aac_duration_example =
    adts_stream-probe_aac_duration whole_numbers frame (frame ∷ [])
      (serving (adts_stream (frame ∷ frame ∷ []))) (frame-IsAdts, (frame-IsAdts, tt))
      (omega (arith, two_frames_small)) (λ start end. refl)

-- a page with granule 9, and one without a granule
abbrev two_pages : Bytes
two_pages =
    ogg_capture_pattern
    ++ (0
        ∷ 0
        ∷ 9
        ∷ (replicate 20 0
            ++ (ogg_capture_pattern ++ (0 ∷ 4 ∷ (replicate 8 255 ++ replicate 13 0)))))

last_ogg_granule-IsLastGranule_example : Ends (IsLastGranule two_pages) (last_ogg_granule two_pages)
last_ogg_granule-IsLastGranule_example = last_ogg_granule-IsLastGranule two_pages

ebml_read_size-bounded_example :
    Ends
      (λ x. (x.0 < 72057594037927936) × (x.1 ≤ 8) × (x.1 ≤ 3))
      (ebml_read_size (65 ∷ 200 ∷ 7 ∷ []))
ebml_read_size-bounded_example =
    ebml_read_size-bounded (65 ∷ 200 ∷ 7 ∷ []) (omega arith, (omega arith, (omega arith, tt)))

not_reserved : is_reserved 251 144 ≡ false
unfolding is_reserved
not_reserved = refl

header_rates-positive_example :
    Ends (λ n. 0 < n) (mp3_sample_rate (version_bits 251) (sample_index 144))
    × Ends (λ n. 0 < n) (mp3_bitrate (version_bits 251) (layer_bits 251) (bitrate_index 144))
header_rates-positive_example = header_rates-positive 251 144 not_reserved

abbrev plain_texts : Texts
plain_texts = record {
  from_runes = λ s. s;
  from_utf16 = λ s. s;
  trim_zeros = λ s. s;
  trim_space = λ s. s;
  to_lower = λ s. s;
}

-- a number is read as the sum of its bytes
abbrev plain_parsing : Parsing ℕ
plain_parsing = record {
  to_upper = λ s. s;
  fields = λ s. s ∷ [];
  atoi = λ s. (pos (sum s), true);
  parse_float = λ s. some (sum s);
  unmarshal_markers = λ s. none;
  sort_by_start = λ cs. cs;
  sort_by_index = λ cs. cs;
  from_ℤ = pos_part;
  plus = λ a b. a + b;
  equal = ◌==◌;
}

-- the key chapter1 with a time code of three parts
abbrev one_chapter : RawTags
one_chapter = some ((text_chapter ++ (49 ∷ []), some (48 ∷ 58 ∷ 48 ∷ 58 ∷ 53 ∷ [])) ∷ [])

probe_audio_file-Returns_example : Returns (
    probe_audio_file whole_numbers plain_texts plain_parsing
      (λ n. n)
      (λ r ex. done (0, []))
      "opus"
      (serving two_pages)
      (ok (pos (length two_pages)))
      one_chapter
      true)
probe_audio_file-Returns_example =
    probe_audio_file-Returns whole_numbers plain_texts plain_parsing (λ n. n) (λ r ex. done (0, []))
      "opus" (serving two_pages) (ok (pos (length two_pages))) one_chapter true tt
