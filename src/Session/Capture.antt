-- ===== src/Session/Capture.antt =====
-- The capture side of `Session::run` of vc-core/src/lib.rs: noise suppression, the voice activity
-- detector, the gate and the encoder.
pub mod Gating
pub mod Open
use voicechat.Base.{
  ℕ, ◌/◌, List, ◌∷◌, [], ◌++◌, Result, ok, err, panic, length, some, none, Option, if◌then◌else◌,
  Bool,
}
use voicechat.Base.Floats.{Float32}
use voicechat.Codec.{Opus, frame_samples, f32_to_i16}
use voicechat.Codec
use voicechat.Dsp.{Denoiser, NoiseSuppressor}
use voicechat.Dsp
use voicechat.Input.{InputGate}
use voicechat.Input
use voicechat.Session.Frames.{frames}
use voicechat.Vad.{VoiceActivityDetector}
use voicechat.Vad

-- What the loop keeps between two frames.
pub record Chain (fl32 : Float32) (op : Opus) (dn : Denoiser fl32) : Type 0 where
  pub noise_suppressor : NoiseSuppressor fl32 dn
  pub vad : VoiceActivityDetector fl32
  pub input_gate : InputGate
  pub encoder : op.Encoder

module _ (fl32 : Float32) (op : Opus) (dn : Denoiser fl32) where
  open fl32 use {F32}

  -- The packet of a frame that could be encoded; a failure is logged.
  unfoldable pub encoded_packets : Result (List ℕ) → List (List ℕ)
  encoded_packets (ok opus_data) = opus_data ∷ []
  encoded_packets (err e) = []
  encoded_packets panic = []

  -- A frame that the gate lets through is encoded.
  unfoldable pub encode_open : Bool → List F32 → Chain fl32 op dn → List (List ℕ) × Chain fl32 op dn
  unfolding encoded_packets
  encode_open transmitting chunk c =
      let (encoded, encoder) = Codec.encode op c.encoder (f32_to_i16 fl32 chunk) in
      if transmitting then (encoded_packets encoded, record c { encoder = encoder }) else ([], c)

  -- A frame of denoised samples.
  unfoldable pub transmit_chunk :
      Option F32 → List F32 → Chain fl32 op dn → List (List ℕ) × Chain fl32 op dn
  unfolding encode_open
  transmit_chunk rnnoise_vad chunk c =
      let (voice_active, vad) = Vad.detect fl32 c.vad chunk rnnoise_vad in
      let (transmitting, gate) =
        Input.should_transmit (Input.set_vad_active c.input_gate voice_active) in
      encode_open transmitting chunk (record c { vad = vad; input_gate = gate })

  -- The voice probability goes to the detector while suppression is enabled.
  unfoldable pub rnnoise_vad : NoiseSuppressor fl32 dn → Option F32
  rnnoise_vad ns = if ns.enabled then some ns.last_vad_prob else none

  -- `if let Some(denoised) = processed`.
  unfoldable pub transmit_denoised :
      Option (List F32) → Chain fl32 op dn → List (List ℕ) × Chain fl32 op dn
  unfolding transmit_chunk rnnoise_vad
  transmit_denoised none c = ([], c)
  transmit_denoised (some denoised) c =
      let (packets, last, left) =
        frames (transmit_chunk (rnnoise_vad c.noise_suppressor)) (length denoised / frame_samples)
          denoised c in
      (packets, last)

  -- A captured frame, to the packets that it gives.
  unfoldable pub capture_frame : List F32 → Chain fl32 op dn → List (List ℕ) × Chain fl32 op dn
  unfolding transmit_denoised
  capture_frame frame c =
      let (processed, ns) = Dsp.process fl32 dn c.noise_suppressor frame in
      transmit_denoised processed (record c { noise_suppressor = ns })

  -- The whole frames of the captured samples: the packets in their order, and the samples left.
  unfoldable pub capture : List F32 → Chain fl32 op dn → List (List ℕ) × Chain fl32 op dn × List F32
  unfolding capture_frame
  capture capture_accum c =
      frames capture_frame (length capture_accum / frame_samples) capture_accum c
