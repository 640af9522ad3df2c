-- ===== src/Audio.antt =====
-- vc-core/src/audio.rs: the configurations that are tried on a device, and the callbacks between the
-- device and the ring buffers. Devices and streams are the cpal crate's, the ring buffers ringbuf's.
pub mod Opening
pub mod Mixdown
use voicechat.Base.{
  ℕ, zero, suc, ◌+◌, ◌-◌, ◌*◌, ◌/◌, List, ◌∷◌, [], ◌++◌, Result, ok, err, panic, length, take, drop,
  replicate, some, none, Option, ltb, ◌==◌, if◌then◌else◌, Bool, true, false, not, ◌&&◌, ◌>>=◌,
}
use voicechat.Base.Bytes.{
  no_device_list, device_not_found, no_default_device, play_failed, no_supported_config,
}
use voicechat.Base.Floats.{Float32}

abbrev pub sample_rate : ℕ
sample_rate = 48000

abbrev pub desired_buffer_samples : ℕ
desired_buffer_samples = 96

pub data BufferSize : Type 0 where
  default_size : BufferSize
  fixed : ℕ → BufferSize

pub record StreamConfig : Type 0 where
  pub channels : ℕ
  pub sample_rate : ℕ
  pub buffer_size : BufferSize

unfoldable pub build_stream_config : ℕ → BufferSize → StreamConfig
build_stream_config channels buffer_size = record {
  channels = channels;
  sample_rate = sample_rate;
  buffer_size = buffer_size;
}

-- The fixed buffer and the default one, for a number of channels.
unfoldable pub both_sizes : ℕ → List StreamConfig
unfolding build_stream_config
both_sizes channels =
    build_stream_config channels (fixed desired_buffer_samples)
    ∷ build_stream_config channels default_size
    ∷ []

-- `candidate_configs`, of the configuration that the device prefers.
unfoldable pub candidate_configs : Option StreamConfig → List StreamConfig
unfolding both_sizes
candidate_configs none = both_sizes 1
candidate_configs (some dev) =
    if ltb 1 dev.channels
    then both_sizes 1
      ++ (both_sizes 2 ++ (if not (dev.channels == 2) then both_sizes dev.channels else []))
    else both_sizes 1

-- A device and the host of the crate, as one direction of the audio sees them: names can be missing,
-- a stream can be refused or fail to start.
pub record Host : Type 1 where
  pub Device : Type 0
  pub Stream : Type 0
  pub devices : Option (List Device)
  pub default_device : Option Device
  pub name : Device → Option (List ℕ)
  pub default_config : Device → Option StreamConfig
  pub build_stream : Device → StreamConfig → Option Stream
  pub play : Stream → Bool

unfoldable pub bytes_equal : List ℕ → List ℕ → Bool
bytes_equal [] [] = true
bytes_equal [] (y ∷ ys) = false
bytes_equal (x ∷ xs) [] = false
bytes_equal (x ∷ xs) (y ∷ ys) = let rest = bytes_equal xs ys in (x == y) && rest

module _ (host : Host) where
  -- `d.name().is_ok_and(|n| n == name)`.
  unfoldable pub has_name : List ℕ → host.Device → Bool
  has_name wanted d = elim (host.name d) [ none ↦ false | some n ↦ bytes_equal n wanted ]

  unfoldable pub find_device : List ℕ → List host.Device → Result host.Device
  unfolding has_name
  find_device wanted [] = err device_not_found
  find_device wanted (d ∷ ds) =
      let rest = find_device wanted ds in if has_name wanted d then ok d else rest

  -- The names that can be read.
  unfoldable pub names : List host.Device → List (List ℕ)
  names [] = []
  names (d ∷ ds) = let rest = names ds in elim (host.name d) [ none ↦ rest | some n ↦ n ∷ rest ]

  -- `list_input_devices` and `list_output_devices`.
  unfoldable pub list_devices : Result (List (List ℕ))
  unfolding names
  list_devices = elim host.devices [ none ↦ err no_device_list | some ds ↦ ok (names ds) ]

  -- The device of the given name, or the default one.
  unfoldable pub select_device : Option (List ℕ) → Result host.Device
  unfolding find_device
  select_device none = elim host.default_device [ none ↦ err no_default_device | some d ↦ ok d ]
  select_device (some wanted) = elim host.devices [
    | none ↦ err no_device_list
    | some ds ↦ find_device wanted ds
  ]

  -- The loop over the configurations: the first that the device accepts is played.
  unfoldable pub try_configs : host.Device → List StreamConfig → Result (StreamConfig × host.Stream)
  try_configs device [] = err no_supported_config
  try_configs device (config ∷ configs) =
      let rest = try_configs device configs in
      elim (host.build_stream device config) [
        | none ↦ rest
        | some stream ↦ if host.play stream then ok (config, stream) else err play_failed
      ]

  -- `start_capture` and `start_playout`, up to their callbacks.
  unfoldable pub start : Option (List ℕ) → Result (StreamConfig × host.Stream)
  unfolding select_device try_configs candidate_configs
  start device_name = elim (select_device device_name) [
    | err e ↦ err e
    | panic ↦ panic
    | ok device ↦ try_configs device (candidate_configs (host.default_config device))
  ]

module _ (fl32 : Float32) where
  open fl32 use {F32, literal, of_ℕ, div, sum}

  -- `data.chunks_exact(channels)` and the average of each frame; the fuel is the number of frames.
  unfoldable pub average_frames : ℕ → ℕ → List F32 → List F32
  average_frames zero channels samples = []
  average_frames (suc n) channels samples =
      div (sum (take channels samples)) (of_ℕ channels)
      ∷ average_frames n channels (drop channels samples)

  -- The samples that the callback of the capture stream offers to its ring.
  unfoldable pub mono : ℕ → List F32 → List F32
  unfolding average_frames
  mono channels samples =
      if channels == 1 then samples else average_frames (length samples / channels) channels samples

  -- `push_slice` and the count of the samples that found no room. The log clears the count.
  unfoldable pub push_counted : ℕ → Bool → ℕ → List F32 → List F32 × ℕ
  push_counted room should_log overflow_samples samples =
      let written = take room samples in
      if ltb (length written) (length samples)
      then (written, if should_log then 0 else overflow_samples + (length samples - length written))
      else (written, overflow_samples)

  -- The callback of the capture stream: what goes into the ring, and the count afterwards.
  unfoldable pub capture_callback : Bool → ℕ → ℕ → Bool → ℕ → List F32 → List F32 × ℕ
  unfolding mono push_counted
  capture_callback running channels room should_log overflow_samples samples =
      if not running
      then ([], overflow_samples)
      else push_counted room should_log overflow_samples (mono channels samples)

  -- What was read, then silence.
  unfoldable pub padded : ℕ → List F32 → List F32
  padded n [] = replicate n (literal 0 0)
  padded zero (x ∷ xs) = []
  padded (suc n) (x ∷ xs) = x ∷ padded n xs

  -- Every sample once for each channel.
  unfoldable pub duplicate : ℕ → List F32 → List F32
  duplicate channels [] = []
  duplicate channels (x ∷ xs) = replicate channels x ++ duplicate channels xs

  -- The callback of the playout stream on a buffer of `size` samples: the new contents of the buffer,
  -- and what is left in the ring. A last frame that is not whole keeps what it held.
  unfoldable pub playout_callback : Bool → ℕ → List F32 → List F32 → List F32 × List F32
  unfolding padded duplicate
  playout_callback running channels ring buffer =
      if not running
      then (replicate (length buffer) (literal 0 0), ring)
      else if channels == 1
      then (padded (length buffer) (take (length buffer) ring), drop (length buffer) ring)
      else let frames = length buffer / channels in
        (
          duplicate channels (padded frames (take frames ring)) ++ drop (frames * channels) buffer,
          drop frames ring,
        )

  module _ (host : Host) where
    -- A stream that was started, with its callback for the channels of its configuration.
    pub record CaptureStream : Type 0 where
      pub stream : host.Stream
      pub callback : Bool → ℕ → Bool → ℕ → List F32 → List F32 × ℕ

    pub record PlayoutStream : Type 0 where
      pub stream : host.Stream
      pub callback : Bool → List F32 → List F32 → List F32 × List F32

    unfoldable pub start_capture : Option (List ℕ) → Result CaptureStream
    unfolding start capture_callback
    start_capture device_name = do
      (config, stream) ← start host device_name
      ok (record {
        stream = stream;
        callback = λ running. capture_callback running config.channels;
      })

    unfoldable pub start_playout : Option (List ℕ) → Result PlayoutStream
    unfolding start playout_callback
    start_playout device_name = do
      (config, stream) ← start host device_name
      ok (record {
        stream = stream;
        callback = λ running. playout_callback running config.channels;
      })
