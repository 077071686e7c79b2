-- ===== src/Audio/Durations/Dispatch.antt =====
-- pkg/parser/audio/probe.go: which probe an audio file gets, its chapters and its bitrate. The probe of
-- MP4 files, with its error left out, and math.Round are parameters.
use Prim.Native.String.{String}
use text.Mathlib.Text.{◌==◌ as str_eq}
use go_toolkit.Prelude.Int.{ℤ, pos_part}
use go_toolkit.Prelude.{ℕ, Bool, false, ◌&&◌, ◌||◌, List, [], ◌∷◌, ltb, if◌then◌else◌}
use go_toolkit.Prelude.Panic.{Run, done, ◌>>=◌}
use go_toolkit.Fetcher.Resource.{Resource, Result, ok, err}
use go_toolkit.Audio.Durations.Decoding.{Floats}
use go_toolkit.Audio.Durations.Flac.{probe_flac_duration}
use go_toolkit.Audio.Durations.Chunks.{probe_wav_duration, probe_aiff_duration}
use go_toolkit.Audio.Durations.Mp3.{probe_mp3_duration}
use go_toolkit.Audio.Durations.Webm.{probe_webm_duration}
use go_toolkit.Audio.Durations.Aac.{probe_aac_duration}
use go_toolkit.Audio.Durations.Ogg.{probe_ogg_duration}
use go_toolkit.Audio.Durations.Totality.{Returns, then-Returns, if_Returns}
use go_toolkit.Audio.Id3.TextFrames.{Texts}
use go_toolkit.Audio.Chapters.{Chapter, Parsing}
use go_toolkit.Audio.Chapters.Embedded.{RawTags, vorbis_chapters, id3_chapters}
use go_toolkit.Audio.Chapters.Totality.{vorbis_chapters-Returns, id3_chapters-Returns}
use go_toolkit.Audio.Durations.Totality.Probes.{
  probe_flac_duration-Returns, probe_wav_duration-Returns, probe_aiff_duration-Returns,
  probe_webm_duration-Returns, probe_aac_duration-Returns,
}
use go_toolkit.Audio.Durations.Totality.Mp3Probe.{probe_mp3_duration-Returns}
use go_toolkit.Audio.Durations.Totality.OggProbe.{probe_ogg_duration-Returns}

pub data AudioFormatFamily : Type 0 where
  family_unknown : AudioFormatFamily
  family_mp4 : AudioFormatFamily
  family_ogg : AudioFormatFamily
  family_flac : AudioFormatFamily
  family_wav : AudioFormatFamily
  family_aiff : AudioFormatFamily
  family_mp3 : AudioFormatFamily
  family_webm : AudioFormatFamily
  family_aac : AudioFormatFamily

abbrev pub one_of : String → List String → Bool
one_of s [] = false
one_of s (t ∷ ts) = str_eq s t || one_of s ts

-- audioFamily, of the extension in lower case
unfoldable pub audio_family : String → AudioFormatFamily
audio_family ext =
    if one_of ext ("mp4" ∷ "m4a" ∷ "m4b" ∷ "m4p" ∷ "m4r" ∷ "alac" ∷ [])
    then family_mp4
    else if one_of ext ("ogg" ∷ "oga" ∷ "opus" ∷ "mogg" ∷ [])
    then family_ogg
    else if str_eq ext "flac"
    then family_flac
    else if one_of ext ("wav" ∷ "wave" ∷ [])
    then family_wav
    else if one_of ext ("aiff" ∷ "aif" ∷ "aifc" ∷ [])
    then family_aiff
    else if str_eq ext "mp3"
    then family_mp3
    else if str_eq ext "webm"
    then family_webm
    else if str_eq ext "aac"
    then family_aac
    else family_unknown

pub record ProbeResult (F : Type 0) : Type 0 where
  pub duration : F
  pub bitrate : F
  pub chapters : List (Chapter F)

-- The size that the probes get: 0 where Length fails. Each of them, and the bitrate, takes the same
-- branches for a negative size as for 0: it is at most 0, at most any offset, and a limit that no chunk
-- lies below.
abbrev pub size_of : Result ℤ → ℕ
size_of (ok n) = pos_part n
size_of (err x) = 0

module _ {F : Type 0} (floats : Floats F) (texts : Texts) (parsing : Parsing F) (round : F → F)
    (probe_mp4 : Resource → Bool → Run (F × List (Chapter F))) where
  -- a duration, and the chapters if they are asked for
  unfoldable pub with_chapters : Bool → Run F → Run (List (Chapter F)) → Run (F × List (Chapter F))
  with_chapters extract_chapters probe extract = do
    duration ← probe
    chapters ← if extract_chapters then extract else done []
    done (duration, chapters)

  -- the switch on the family
  unfoldable pub probe_family :
      AudioFormatFamily → Resource → ℕ → RawTags → Bool → Run (F × List (Chapter F))
  probe_family family_unknown r size tags ex = done (floats.from_ℕ 0, [])
  probe_family family_mp4 r size tags ex = probe_mp4 r ex
  probe_family family_ogg r size tags ex =
      with_chapters ex (probe_ogg_duration floats r size)
        (vorbis_chapters floats texts parsing tags)
  probe_family family_flac r size tags ex =
      with_chapters ex (probe_flac_duration floats r) (vorbis_chapters floats texts parsing tags)
  probe_family family_wav r size tags ex =
      with_chapters false (probe_wav_duration floats r size) (done [])
  probe_family family_aiff r size tags ex =
      with_chapters false (probe_aiff_duration floats r size) (done [])
  probe_family family_mp3 r size tags ex =
      with_chapters ex (probe_mp3_duration floats r size) (id3_chapters floats texts parsing r)
  probe_family family_webm r size tags ex =
      with_chapters false (probe_webm_duration floats r size) (done [])
  probe_family family_aac r size tags ex =
      with_chapters false (probe_aac_duration floats r size) (done [])

  unfoldable pub average_bitrate : ℕ → F → F
  average_bitrate size duration =
      let f = floats.from_ℕ in
      let kbps = floats.over (floats.over (floats.times (f size) (f 8)) (f 1000)) duration in
      if floats.below (f 0) duration && ltb 0 size
      then floats.over (round (floats.times kbps (f 10))) (f 10)
      else f 0

  -- probeAudioFile for the extension of the link and what Length answers
  unfoldable pub probe_audio_file :
      String → Resource → Result ℤ → RawTags → Bool → Run (ProbeResult F)
  probe_audio_file ext r len tags extract_chapters = do
    (duration, chapters) ← probe_family (audio_family ext) r (size_of len) tags extract_chapters
    done (record {
      duration = duration;
      bitrate = average_bitrate (size_of len) duration;
      chapters = chapters;
    })

  with_chapters-Returns :
      (ex : Bool) (probe : Run F) (extract : Run (List (Chapter F)))
      → Returns probe
      → Returns extract
      → Returns (with_chapters ex probe extract)
  unfolding with_chapters
  with_chapters-Returns ex probe extract h k = then-Returns probe _ h (λ duration.
      then-Returns (if ex then extract else done []) _ (if_Returns ex _ _ (λ e. k) (λ e. tt))
        (λ chapters. tt))

  family-Returns :
      (family : AudioFormatFamily) (r : Resource) (size : ℕ) (tags : RawTags) (ex : Bool)
      → Returns (probe_mp4 r ex)
      → Returns (probe_family family r size tags ex)
  unfolding probe_family
  family-Returns family_unknown r size tags ex h = tt
  family-Returns family_mp4 r size tags ex h = h
  family-Returns family_ogg r size tags ex h =
      with_chapters-Returns ex _ _ (probe_ogg_duration-Returns floats r size)
        (vorbis_chapters-Returns floats texts parsing tags)
  family-Returns family_flac r size tags ex h =
      with_chapters-Returns ex _ _ (probe_flac_duration-Returns floats r)
        (vorbis_chapters-Returns floats texts parsing tags)
  family-Returns family_wav r size tags ex h =
      with_chapters-Returns false _ _ (probe_wav_duration-Returns floats r size) tt
  family-Returns family_aiff r size tags ex h =
      with_chapters-Returns false _ _ (probe_aiff_duration-Returns floats r size) tt
  family-Returns family_mp3 r size tags ex h =
      with_chapters-Returns ex _ _ (probe_mp3_duration-Returns floats r size)
        (id3_chapters-Returns floats texts parsing r)
  family-Returns family_webm r size tags ex h =
      with_chapters-Returns false _ _ (probe_webm_duration-Returns floats r size) tt
  family-Returns family_aac r size tags ex h =
      with_chapters-Returns false _ _ (probe_aac_duration-Returns floats r size) tt

  -- Over any resource, whatever bytes, errors and size (also a negative one) it answers, for any
  -- extension and any tags, with and without the chapters, the probe of an audio file returns if that of
  -- an MP4 file does: no index or slice expression of the probes and of the parsers of chapters panics,
  -- and each loop ends.
  pub probe_audio_file-Returns :
      (ext : String) (r : Resource) (len : Result ℤ) (tags : RawTags) (extract_chapters : Bool)
      → Returns (probe_mp4 r extract_chapters)
      → Returns (probe_audio_file ext r len tags extract_chapters)
  unfolding probe_audio_file
  probe_audio_file-Returns ext r len tags extract_chapters h =
      then-Returns (probe_family (audio_family ext) r (size_of len) tags extract_chapters) _
        (family-Returns (audio_family ext) r (size_of len) tags extract_chapters h) (λ found. tt)
