-- ===== src/Audio/Id3/Tests.antt =====
-- pkg/parser/audio: a tag with one frame, at which the theorems apply.
use go_toolkit.Prelude.{
  ℕ, ◌+◌, ◌≤◌, ◌<◌, ◌≡◌, refl, some, [], ◌∷◌, ◌++◌, Bytes, length, replicate, slice, arith,
}
use go_toolkit.Prelude.Panic.{Ends}
use go_toolkit.Fetcher.Resource.{Resource, ok, range}
use go_toolkit.Audio.Durations.Decoding.{id3}
use go_toolkit.Audio.Durations.Totality.{Returns}
use go_toolkit.Audio.Id3.TextFrames.{Texts}
use go_toolkit.Audio.Id3.Windows.{no_window, text_txxx, read_window, read_id3_frames}
use go_toolkit.Audio.Id3.Reading.{IsWindow, read_window-slice}
use go_toolkit.Audio.Id3.Totality.{read_id3_frames-Returns}

abbrev ascii : Texts
ascii = record {
  from_runes = λ s. s;
  from_utf16 = λ s. s;
  trim_zeros = λ s. s;
  trim_space = λ s. s;
  to_lower = λ s. s;
}

-- version 4, a frame of four bytes
abbrev tag : Bytes
tag =
    id3
    ++ (4 ∷ 0 ∷ 0 ∷ 0 ∷ 0 ∷ 0 ∷ 14 ∷ (text_txxx ++ (0 ∷ 0 ∷ 0 ∷ 4 ∷ 0 ∷ 0 ∷ 0 ∷ 65 ∷ 0 ∷ 66 ∷ [])))

abbrev tagged : Resource
tagged = record { length = ok 24; read = λ start end. ok (range tag start end) }

no_window-IsWindow : IsWindow tag no_window
unfolding go_toolkit.Prelude.slice
no_window-IsWindow = refl

read_id3_frames-Returns_example : Returns (read_id3_frames ascii tagged)
read_id3_frames-Returns_example = read_id3_frames-Returns ascii tagged

read_window-slice_example :
    Ends
      (λ x. (x.0 ≡ some (slice tag 10 (10 + 10))) × IsWindow tag x.1)
      (read_window tagged 24 10 10 no_window)
read_window-slice_example =
    read_window-slice tag tagged 24 10 10 no_window (λ start end. refl) (omega arith) (omega arith)
      (omega arith) (omega arith) no_window-IsWindow
