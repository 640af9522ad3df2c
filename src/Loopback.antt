-- ===== src/Loopback.antt =====
-- `run_loopback` of vc-core/src/lib.rs: capture, noise suppression, encoder, decoder and playout on one
-- machine.
use voicechat.Base.{
  ℕ, ◌/◌, List, ◌∷◌, [], ◌++◌, Result, ok, err, panic, length, some, none, Option, Bool, ◌>>=◌,
}
use voicechat.Base.Floats.{Float32}
use voicechat.Base.Int.{ℤ}
use voicechat.Codec.{Opus, EncoderSetup, new_codec_encoder, frame_samples, f32_to_i16, i16_to_f32}
use voicechat.Codec
use voicechat.Dsp.{Denoiser, NoiseSuppressor}
use voicechat.Dsp
use voicechat.Session.Frames.{frames}

pub record Loopback (fl32 : Float32) (op : Opus) (dn : Denoiser fl32) : Type 0 where
  pub noise_suppressor : NoiseSuppressor fl32 dn
  pub encoder : op.Encoder
  pub decoder : op.Decoder

module _ (fl32 : Float32) (op : Opus) (dn : Denoiser fl32) where
  open fl32 use {F32}

  -- A decoded frame, for the playout ring; a failure is logged.
  unfoldable pub decoded_frames : Result (List ℤ) → List (List F32)
  decoded_frames (ok decoded) = i16_to_f32 fl32 decoded ∷ []
  decoded_frames (err e) = []
  decoded_frames panic = []

  unfoldable pub decode_encoded :
      Result (List ℕ) → Loopback fl32 op dn → List (List F32) × Loopback fl32 op dn
  unfolding decoded_frames
  decode_encoded (ok opus_data) l =
      let (decoded, decoder) = Codec.decode op l.decoder opus_data in
      (decoded_frames decoded, record l { decoder = decoder })
  decode_encoded (err e) l = ([], l)
  decode_encoded panic l = ([], l)

  -- A frame through both coders.
  unfoldable pub echo_chunk : List F32 → Loopback fl32 op dn → List (List F32) × Loopback fl32 op dn
  unfolding decode_encoded
  echo_chunk chunk l =
      let (encoded, encoder) = Codec.encode op l.encoder (f32_to_i16 fl32 chunk) in
      decode_encoded encoded (record l { encoder = encoder })

  unfoldable pub echo_denoised :
      Option (List F32) → Loopback fl32 op dn → List (List F32) × Loopback fl32 op dn
  unfolding echo_chunk
  echo_denoised none l = ([], l)
  echo_denoised (some denoised) l =
      let (out, last, left) = frames echo_chunk (length denoised / frame_samples) denoised l in
      (out, last)

  unfoldable pub echo_frame : List F32 → Loopback fl32 op dn → List (List F32) × Loopback fl32 op dn
  unfolding echo_denoised
  echo_frame frame l =
      let (processed, ns) = Dsp.process fl32 dn l.noise_suppressor frame in
      echo_denoised processed (record l { noise_suppressor = ns })

  -- One round: the frames offered to the playout ring, and the samples left.
  unfoldable pub loopback_round :
      List F32 → List F32 → Loopback fl32 op dn → List (List F32) × Loopback fl32 op dn × List F32
  unfolding echo_frame
  loopback_round captured accum l =
      frames echo_frame (length (accum ++ captured) / frame_samples) (accum ++ captured) l

  -- The state before the loop, after the two streams were started.
  unfoldable pub loopback_start :
      Bool → Result (Unit {0}) → Result (Unit {0}) → EncoderSetup op → Result (Loopback fl32 op dn)
  loopback_start noise_suppression start_capture start_playout setup = do
    capturing ← start_capture
    playing ← start_playout
    encoder ← new_codec_encoder op setup
    decoder ← Codec.new_codec_decoder op
    ok (record {
      noise_suppressor = Dsp.set_enabled fl32 dn (Dsp.new fl32 dn) noise_suppression;
      encoder = encoder;
      decoder = decoder;
    })
