-- ===== src/Audio/Durations/Totality/OggProbe.antt =====
-- pkg/parser/audio/ogg.go: the probe of an Ogg stream returns.
use go_toolkit.Prelude.{
  ℕ, suc, ◌+◌, ◌-◌, ◌≤◌, inl, inr, min, not, ◌&&◌, ◌||◌, none, ltb, leb, ◌==◌, Bytes, length, arith,
  Bool-cases, Option-cases, ltb→le,
}
use go_toolkit.Prelude.Panic.{checked_slice, checked_slice-done, index}
use go_toolkit.Fetcher.Resource.{Resource}
use go_toolkit.Audio.Durations.Decoding.{Floats, has_prefix, le_at-done}
use go_toolkit.Audio.Durations.Ogg.{
  ogg_capture_pattern, opus_head, vorbis_head, sum, first_page_body, identify_body,
  ogg_identification, last_ogg_granule, granule_loop, content, ogg_tail_duration,
  probe_ogg_duration,
}
use go_toolkit.Audio.Durations.Totality.{
  Returns, then-Returns, if_Returns, index-Returns, slice-Returns,
}
use go_toolkit.Audio.Durations.Totality.Frames.{granule_loop-Returns}

-- the first page and the last one
first_page_body-Returns : (head : Bytes) → Returns (first_page_body head)
unfolding first_page_body
first_page_body-Returns head =
    if_Returns (not (has_prefix head ogg_capture_pattern) || ltb (length head) 27) _ _ (λ e. tt)
      (λ e.
        let long : 27 ≤ length head = ground (arith, e) in
        then-Returns (index head 26) _ (index-Returns head 26 (omega arith)) (λ n.
          elim (Bool-cases (ltb (length head) (27 + n))) [
            | inl short ↦ rw short tt
            | inr full ↦
                let fits = ltb→le (length head) (27 + n) full in
                rw full (
                  then-Returns (checked_slice head 27 (27 + n)) _
                    (slice-Returns head 27 (27 + n) (omega arith) fits)
                    (λ segments.
                      let stop = min (27 + n + sum segments) (length head) in
                      rw (checked_slice-done head (27 + n) stop (omega arith) (omega arith)) tt))
          ]))

identify_body-Returns : (body : Bytes) → Returns (identify_body body)
unfolding identify_body
identify_body-Returns body = elim (Bool-cases (leb 19 (length body) && has_prefix body opus_head)) [
  | inl opus ↦
      let long : 19 ≤ length body = ground (arith, opus) in
      rw (opus, le_at-done body 10 12 (omega arith) (omega arith)) tt
  | inr other ↦ elim (Bool-cases (leb 16 (length body) && has_prefix body vorbis_head)) [
    | inl vorbis ↦
        let long : 16 ≤ length body = ground (arith, vorbis) in
        rw (other, vorbis, le_at-done body 12 16 (omega arith) long) tt
    | inr last ↦ rw (other, last) tt
  ]
]

ogg_identification-Returns : (head : Bytes) → Returns (ogg_identification head)
unfolding ogg_identification
ogg_identification-Returns head =
    then-Returns (first_page_body head) _ (first_page_body-Returns head) (λ body.
      elim (Option-cases body) [ inl e ↦ rw e tt | inr (b, e) ↦ rw e (identify_body-Returns b) ])

module _ {F : Type 0} (floats : Floats F) where
  ogg_tail_duration-Returns :
      (tail : Bytes) (rate pre_skip : ℕ) → Returns (ogg_tail_duration floats tail rate pre_skip)
  unfolding ogg_tail_duration last_ogg_granule
  ogg_tail_duration-Returns tail rate pre_skip =
      if_Returns (length tail == 0) _ _ (λ e. tt)
        (λ e.
          then-Returns (granule_loop (suc (length tail)) tail 0 none) _
            (granule_loop-Returns (suc (length tail)) tail 0 none (omega arith) (omega arith))
            (λ g. tt))

  pub probe_ogg_duration-Returns :
      (r : Resource) (size : ℕ) → Returns (probe_ogg_duration floats r size)
  unfolding probe_ogg_duration
  probe_ogg_duration-Returns r size =
      let head = content (r.read 0 (min 8192 size - 1)) in
      let tail = content (r.read (size - min 65536 size) (size - 1)) in
      if_Returns (size == 0 || length head == 0) _ _ (λ e. tt)
        (λ e. then-Returns (ogg_identification head) _ (ogg_identification-Returns head) (λ o.
          elim (Option-cases o) [
            | inl none_found ↦ rw none_found tt
            | inr ((rate, pre_skip), found) ↦ rw found (
                if_Returns (rate == 0) _ _ (λ z. tt)
                  (λ z. ogg_tail_duration-Returns tail rate pre_skip))
          ]))
