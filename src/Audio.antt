-- ===== src/Audio.antt =====
-- The audio queue of src/main/main.cpp. SDL, its converter and the floats are parameters: a sample is of
-- any type.
pub mod Decimate
use pocket_monsters_stadium.Prelude.{
  ℕ, zero, suc, ◌+◌, ◌-◌, ◌*◌, ◌/◌, ◌%◌, ◌^◌, ◌≤◌, ◌<◌, ◌≡◌, ◌≢◌, refl, sym, ap, ◌∙◌, Bool, true,
  false, ◌&&◌, ◌||◌, not, List, [], ◌∷◌, ◌++◌, Option, none, some, arith, ltb, leb, ◌==◌,
  if◌then◌else◌, length, take, drop, Bool-cases, inl, inr,
}

-- bytes_per_frame: two channels of four bytes.
abbrev pub bytes_per_frame : ℕ
bytes_per_frame = 8

-- duplicated_input_frames * input_channels
abbrev pub duplicated : ℕ
duplicated = 8

-- sample_rate, output_sample_rate and discarded_output_frames
pub record Rates : Type 0 where
  pub sample_rate : ℕ
  pub output_sample_rate : ℕ
  pub discarded : ℕ

-- `none` where SDL cannot build a converter, which the source throws. A rate of 0 is undefined there.
unfoldable pub update_audio_converter : Bool → Rates → Option Rates
update_audio_converter built r =
    if built
    then some (record r { discarded = 4 * r.output_sample_rate / r.sample_rate % 2 ^ 32 })
    else none

unfoldable pub set_frequency : Bool → ℕ → Rates → Option Rates
unfolding update_audio_converter
set_frequency built freq r = update_audio_converter built (record r { sample_rate = freq })

-- Behind the opening of the device, whose failure ends the process.
unfoldable pub reset_audio : Bool → ℕ → Rates → Option Rates
unfolding update_audio_converter
reset_audio built output_freq r =
    update_audio_converter built (record r { output_sample_rate = output_freq })

-- `queued` is SDL's count of bytes; the product of floats is exact in the range of rates.
unfoldable pub get_frames_remaining : Bool → ℕ → Rates → ℕ
get_frames_remaining fast_forward queued r =
    let buffered = queued * 2 * r.sample_rate / r.output_sample_rate / 2 in
    let offset = bytes_per_frame * (r.sample_rate / 60) in
    if fast_forward
    then 0
    else (if ltb offset buffered then buffered - offset else 0) / bytes_per_frame

-- What one call does to the kept samples, and what it queues: a buffer and its number of bytes.
pub record Queued (A : Type 0) : Type 0 where
  pub kept : List A
  pub queue : Option ((ℕ → A) × ℕ)

module _ {A : Type 0} where
  -- A write into a buffer.
  abbrev pub write : (ℕ → A) → ℕ → A → ℕ → A
  write b k a j = if j == k then a else b j

  -- The loop that keeps every `ratio`-th frame, with `n` frames to go from frame `i` on.
  unfoldable pub decimate : ℕ → ℕ → ℕ → (ℕ → A) → ℕ → A
  decimate ratio i zero b = b
  decimate ratio i (suc n) b =
      let b' = write b (2 * i) (b (2 * (ratio * i))) in
      decimate ratio (i + 1) n (write b' (2 * i + 1) (b' (2 * (ratio * i) + 1)))

  -- `audio_data` scaled, with the two channels of each frame swapped; a last odd sample takes the one
  -- behind the end, which callers do not pass.
  unfoldable pub swap_channels : List A → List A
  swap_channels [] = []
  swap_channels (a ∷ []) = a ∷ []
  swap_channels (a ∷ b ∷ rest) = b ∷ a ∷ swap_channels rest

  -- Behind the conversion: `out` is the converted buffer with its length in bytes.
  unfoldable pub queue_converted : Rates → ℕ → (ℕ → A) → ℕ → (ℕ → A) × ℕ
  unfolding decimate
  queue_converted r queued out len_cvt =
      let micros = queued / bytes_per_frame * 1000000 / r.sample_rate in
      let bytes = (len_cvt + 2 ^ 32 - 2 * r.discarded * 4 % 2 ^ 32) % 2 ^ 32 in
      let samples = λ (i : ℕ). out (i + 2 * r.discarded / 2) in
      let skip = micros / 100000 in
      let bytes' = bytes / 2 ^ skip in
      if skip == 0
      then (samples, bytes)
      else (decimate (2 ^ skip) 0 (bytes' / bytes_per_frame) samples, bytes')

  abbrev pub queue_result : Rates → ℕ → Option ((ℕ → A) × ℕ) → Option ((ℕ → A) × ℕ)
  queue_result r queued none = none
  queue_result r queued (some (out, len)) = some (queue_converted r queued out len)

  -- `kept` are the eight samples kept from the last call; `convert` is SDL's converter, `none` where it
  -- fails; the skip factor is below 32, since the source shifts by it.
  unfoldable pub queue_samples :
      (List A → Option ((ℕ → A) × ℕ)) → Rates → Bool → ℕ → List A → List A → Queued A
  unfolding swap_channels queue_converted
  queue_samples convert r muted queued kept data_in =
      let buffer = kept ++ swap_channels data_in in
      if muted || leb (length data_in) duplicated
      then record { kept = kept; queue = none }
      else record {
        kept = take duplicated (drop (length data_in) buffer);
        queue = queue_result r queued (convert buffer);
      }
