-- ===== src/Epub/Tests.antt =====
-- pkg/parser/epub: a font of three bytes and one of more than the obfuscated length, with a key of
-- three bytes, at which the theorems apply.
use go_toolkit.Prelude.{
  ℕ, suc, ◌-◌, ◌≤◌, ◌<◌, ◌≡◌, ◌≢◌, refl, sym, ap, Option, none, some, [], ◌∷◌, Bytes, length,
  length-replicate, replicate, take, arith,
}
use go_toolkit.Prelude.Panic.{done, panic, ◌>>=◌, Ends}
use go_toolkit.Fetcher.Resource.{Resource, ok, err, range, Serves, Answers}
use go_toolkit.Epub.Deobfuscator.{
  Codecs, adobe, idpf, algorithm_length, DeobfuscatingResource, obfuscation_key, get_hash_key_adobe,
  deobfuscate_font, read, stream,
}
use go_toolkit.Epub.Deobfuscator.Revealed.{reveal, deobfuscate_font-deobfuscate_font}
use go_toolkit.Epub.Deobfuscator.Reads.{revealed, deobfuscated_read-Answers, empty_key_read-panics}
use go_toolkit.Epub.Deobfuscator.Streams.{stream-revealed, boundary_stream-short}

-- no hexadecimal digit is decoded
abbrev codecs : Codecs
codecs = record {
  sha1 = λ s. 7 ∷ 200 ∷ 33 ∷ [];
  decode_hex = λ s. [];
  replace_all = λ s old new. s;
}

abbrev glyphs : Bytes
glyphs = 10 ∷ 20 ∷ 30 ∷ []

abbrev stored : Resource
stored = record { length = ok 3; read = λ start end. ok (range glyphs start end) }

abbrev font : DeobfuscatingResource
font = record {
  resource = stored;
  pipe = λ start end. record { bytes = range glyphs start end; failure = none };
  algorithm = idpf;
  identifier = "urn:uuid:1";
}

abbrev keyless : DeobfuscatingResource
keyless = record font { algorithm = adobe }

abbrev long_bytes : Bytes
long_bytes = replicate 1041 5

abbrev long_font : DeobfuscatingResource
long_font = record font { pipe = λ start end. record { bytes = long_bytes; failure = none } }

stored-Serves : Serves glyphs stored
stored-Serves start end bs se e = ap (λ r. elim r [ ok b ↦ b | err x ↦ [] ]) (sym e)

key_read : length (obfuscation_key codecs font) ≡ 3
unfolding obfuscation_key
key_read = refl

long_key_read : length (obfuscation_key codecs long_font) ≡ 3
unfolding obfuscation_key
long_key_read = refl

no_key : length (obfuscation_key codecs keyless) ≡ 0
unfolding obfuscation_key get_hash_key_adobe
no_key = refl

length_1040 : algorithm_length idpf ≡ 1040
unfolding algorithm_length
length_1040 = refl

length_1024 : algorithm_length adobe ≡ 1024
unfolding algorithm_length
length_1024 = refl

deobfuscated_read-Answers_example :
    Ends (Answers (revealed codecs font glyphs) stored 1 2) (read codecs font 1 2)
deobfuscated_read-Answers_example =
    deobfuscated_read-Answers codecs font glyphs 1 2 stored-Serves (omega (arith, key_read))
      (omega arith)

glyphs_read : stored.read 0 2 ≡ ok (10 ∷ 20 ∷ 30 ∷ [])
unfolding go_toolkit.Prelude.slice
glyphs_read = refl

empty_key_read-panics_example : read codecs keyless 0 2 ≡ panic
empty_key_read-panics_example =
    empty_key_read-panics codecs keyless 0 2 10 (20 ∷ 30 ∷ []) no_key (omega (arith, length_1024))
      glyphs_read

stream-revealed_example :
    stream codecs font 0 2
    ≡ done (record { written = range (revealed codecs font glyphs) 0 2; failure = none })
unfolding go_toolkit.Prelude.slice
stream-revealed_example =
    stream-revealed codecs font glyphs 0 2 refl (omega (arith, key_read)) (omega arith)
      (omega (arith, length_1040))

boundary_stream-short_example :
    stream codecs long_font 0 1040
    ≡ done (record {
      written = take (length long_bytes - 1) (
          reveal
            (obfuscation_key codecs long_font)
            (algorithm_length long_font.algorithm)
            0
            long_bytes);
      failure = none;
    })
boundary_stream-short_example =
    boundary_stream-short codecs long_font (long_bytes) 0 1040 refl (omega (arith, long_key_read))
      (omega (arith, length_1040)) (omega (arith, length_1040)) (length-replicate {A = ℕ} 1041 5)

deobfuscate_font-deobfuscate_font_example :
    (deobfuscate_font glyphs 0 (7 ∷ 200 ∷ 33 ∷ []) 2 >>= λ hidden.
    deobfuscate_font hidden 0 (7 ∷ 200 ∷ 33 ∷ []) 2)
    ≡ done glyphs
deobfuscate_font-deobfuscate_font_example =
    deobfuscate_font-deobfuscate_font (7 ∷ 200 ∷ 33 ∷ []) 2 0 glyphs (omega arith) (omega arith)
      (omega arith)
