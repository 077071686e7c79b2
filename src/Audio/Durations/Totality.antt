-- ===== src/Audio/Durations/Totality.antt =====
-- pkg/parser/audio: the calls that the probes make return, whatever bytes a resource gives.
pub mod Headers
pub mod Walks
pub mod Elements
pub mod Frames
pub mod Mp3Frames
pub mod Mp3Probe
pub mod OggProbe
pub mod Probes
use go_toolkit.Prelude.{
  ℕ, zero, suc, ◌+◌, ◌*◌, ◌/◌, ◌%◌, ◌≤◌, ◌<◌, ◌≡◌, refl, inl, inr, Bool, true, false, not, ◌||◌,
  List, [], ◌∷◌, ltb, ◌==◌, if◌then◌else◌, Bytes, length, slice, arith, Bool-cases,
}
use go_toolkit.Prelude.Panic.{
  Run, done, panic, ◌>>=◌, Ends, Ends-bind, checked_slice, checked_slice-done, index,
}
use go_toolkit.Fetcher.Resource.{Resource}
use go_toolkit.Audio.Durations.Decoding.{
  id3, has_prefix, read_range, synchsafe_at, skip_id3v2, be_at, le_at, index-done, be_at-done,
  le_at-done,
}

-- The call returns: it does not panic, nor is it out of fuel.
abbrev pub Returns {ℓ} : {A : Type ℓ} → Run A → Type 0
Returns r = Ends (λ x. Unit) r

pub then-Returns {ℓ κ} :
    {A : Type ℓ} {B : Type κ} (r : Run A) (f : A → Run B)
    → Returns r
    → ((a : A) → Returns (f a))
    → Returns (r >>= f)
then-Returns (done a) f h k = k a
then-Returns panic f h k = absurd h

pub if_Returns {ℓ} :
    {A : Type ℓ} (b : Bool) (x y : Run A)
    → (b ≡ true → Returns x)
    → (b ≡ false → Returns y)
    → Returns (if b then x else y)
if_Returns true x y hx hy = hx refl
if_Returns false x y hx hy = hy refl

pub index-Returns : (xs : Bytes) (i : ℕ) → i < length xs → Returns (index xs i)
index-Returns xs i h = rw (index-done xs i h) tt

pub slice-Returns :
    (xs : Bytes) (lo hi : ℕ) → lo ≤ hi → hi ≤ length xs → Returns (checked_slice xs lo hi)
slice-Returns xs lo hi h k = rw (checked_slice-done xs lo hi h k) tt

pub be_at-Returns : (xs : Bytes) (lo hi : ℕ) → lo ≤ hi → hi ≤ length xs → Returns (be_at xs lo hi)
be_at-Returns xs lo hi h k = rw (be_at-done xs lo hi h k) tt

pub le_at-Returns : (xs : Bytes) (lo hi : ℕ) → lo ≤ hi → hi ≤ length xs → Returns (le_at xs lo hi)
le_at-Returns xs lo hi h k = rw (le_at-done xs lo hi h k) tt

pub synchsafe_at-Returns : (b : Bytes) (i : ℕ) → i + 4 ≤ length b → Returns (synchsafe_at b i)
unfolding synchsafe_at
synchsafe_at-Returns b i h =
    rw
      (
        index-done b i (omega arith),
        index-done b (i + 1) (omega arith),
        index-done b (i + 2) (omega arith),
        index-done b (i + 3) (omega arith),
      )
      tt

pub skip_id3v2-Returns : (r : Resource) → Returns (skip_id3v2 r)
unfolding skip_id3v2
skip_id3v2-Returns r =
    let header = read_range r 0 10 in
    if_Returns (ltb (length header) 10 || not (has_prefix header id3)) _ _ (λ e. tt)
      (λ e.
        let long : 10 ≤ length header = ground (arith, e) in
        then-Returns (synchsafe_at header 6) _ (synchsafe_at-Returns header 6 long)
          (λ size. rw (index-done header 5 (omega arith)) tt))

pub weaken {ℓ} : {A : Type ℓ} (P : A → Type 0) (r : Run A) → Ends P r → Returns r
weaken P (done a) h = tt
weaken P panic h = absurd h
