-- ===== src/Codec.antt =====
-- vc-core/src/codec.rs: the Opus coders (the audiopus crate) and the sample formats.
use voicechat.Base.{
  ℕ, List, Result, ok, err, length, take, some, none, Option, ◌==◌, map, if◌then◌else◌, Bool, true,
  not, ◌>>=◌,
}
use voicechat.Base.Int.{ℤ}
use voicechat.Base.Floats.{Float32}
use voicechat.Base.Bytes.{
  Error, encoder_init, bitrate_refused, fec_refused, loss_perc_refused, decoder_init, decode_failed,
  invalid_packet, encode_failed, wrong_frame_length,
}

abbrev pub frame_samples : ℕ
frame_samples = 120

abbrev pub frame_duration_us : ℕ
frame_duration_us = 2500

abbrev pub max_encoded_size : ℕ
max_encoded_size = 256

-- The crate's coders: a call returns its result and the coder after it. Encoding is given the room
-- of the output and returns the bytes that it wrote; decoding is given the number of samples wanted,
-- with no packet for a lost one, and returns the buffer and the number of samples in it.
pub record Opus : Type 1 where
  pub Encoder : Type 0
  pub Decoder : Type 0
  pub new_decoder : Option Decoder
  pub is_packet : List ℕ → Bool
  pub encode : Encoder → List ℤ → ℕ → Option (List ℕ) × Encoder
  pub decode : Decoder → Option (List ℕ) → ℕ → Option (List ℤ × ℕ) × Decoder

pub data Application : Type 0 where
  voip audio low_delay : Application

-- The crate's encoder before its use: it is made for a sample rate, a number of channels and an
-- application, and then options are set on it. Each call can be refused.
pub record EncoderSetup (opus : Opus) : Type 0 where
  pub create : ℕ → ℕ → Application → Option opus.Encoder
  pub set_bitrate : ℕ → opus.Encoder → Option opus.Encoder
  pub set_inband_fec : Bool → opus.Encoder → Option opus.Encoder
  pub set_packet_loss_perc : ℕ → opus.Encoder → Option opus.Encoder

-- `map_err`, under `?`.
unfoldable pub or_err : {A : Type 0} → Error → Option A → Result A
or_err e none = err e
or_err e (some a) = ok a

-- `Encoder::new`.
unfoldable pub new_codec_encoder : (opus : Opus) → EncoderSetup opus → Result opus.Encoder
unfolding or_err
new_codec_encoder opus setup = do
  created ← or_err encoder_init (setup.create 48000 1 low_delay)
  paced ← or_err bitrate_refused (setup.set_bitrate 64000 created)
  protected ← or_err fec_refused (setup.set_inband_fec true paced)
  or_err loss_perc_refused (setup.set_packet_loss_perc 5 protected)

module _ (opus : Opus) where
  open opus use {Encoder, Decoder, new_decoder, is_packet}

  unfoldable pub new_codec_decoder : Result Decoder
  new_codec_decoder = elim new_decoder [ none ↦ err decoder_init | some d ↦ ok d ]

  unfoldable pub encode : Encoder → List ℤ → Result (List ℕ) × Encoder
  encode e pcm =
      if not (length pcm == frame_samples)
      then (err wrong_frame_length, e)
      else let (written, e') = opus.encode e pcm max_encoded_size in
        (elim written [ none ↦ err encode_failed | some bytes ↦ ok bytes ], e')

  -- `output.truncate(decoded)`, or the failure.
  unfoldable pub truncated : Option (List ℤ × ℕ) → Result (List ℤ)
  truncated none = err decode_failed
  truncated (some (output, decoded)) = ok (take decoded output)

  unfoldable pub decode : Decoder → List ℕ → Result (List ℤ) × Decoder
  unfolding truncated
  decode d opus_data =
      if not (is_packet opus_data)
      then (err invalid_packet, d)
      else let (result, d') = opus.decode d (some opus_data) frame_samples in (truncated result, d')

  -- Packet loss concealment.
  unfoldable pub decode_plc : Decoder → Result (List ℤ) × Decoder
  unfolding truncated
  decode_plc d = let (result, d') = opus.decode d none frame_samples in (truncated result, d')

module _ (fl : Float32) where
  open fl use {F32, literal, neg, mul, div, clamp, of_i16, to_i16}

  unfoldable pub f32_to_i16 : List F32 → List ℤ
  f32_to_i16 samples =
      map
        (λ s.
          let clamped = clamp s (neg (literal 1 0)) (literal 1 0) in
          to_i16 (mul clamped (literal 32767 0)))
        samples

  unfoldable pub i16_to_f32 : List ℤ → List F32
  i16_to_f32 samples = map (λ s. div (of_i16 s) (literal 32767 0)) samples
