-- ===== src/Session/Capture/Gating.antt =====
-- What the gate lets through of the captured samples.
use voicechat.Base.{
  ◌*◌, ◌/◌, ◌<◌, List, [], ◌≡◌, refl, length, drop, arith, false, Option, some, none,
}
use voicechat.Base.Floats.{Float32}
use voicechat.Codec.{Opus, frame_samples}
use voicechat.Dsp.{Denoiser, NoiseSuppressor}
use voicechat.Dsp
use voicechat.Input.{InputGate, always_on, push_to_talk}
use voicechat.Input
use voicechat.Session.Frames.{frames_silent, frames_end}
use voicechat.Session.Capture.{
  Chain, encode_open, transmit_chunk, rnnoise_vad, transmit_denoised, capture_frame, capture,
}

module _ (fl32 : Float32) (op : Opus) (dn : Denoiser fl32) where
  open fl32 use {F32}

  -- The key of push-to-talk is up, and the encoder is `encoder`.
  record IsMuted (encoder : op.Encoder) (c : Chain fl32 op dn) : Type 0 where
    mode : c.input_gate.mode ≡ push_to_talk
    up : c.input_gate.ptt_active ≡ false
    untouched : c.encoder ≡ encoder

  transmit_chunk-IsMuted :
      (e : op.Encoder) (prob : Option F32) (chunk : List F32) (c : Chain fl32 op dn)
      → IsMuted e c
      → ((transmit_chunk fl32 op dn prob chunk c).0 ≡ [])
        × IsMuted e (transmit_chunk fl32 op dn prob chunk c).1
  unfolding transmit_chunk encode_open Input.should_transmit Input.set_vad_active Input.decision
  transmit_chunk-IsMuted e prob chunk c m =
      rw (m.mode, m.up) (refl, record { mode = refl; up = refl; untouched = m.untouched })

  transmit_denoised-IsMuted :
      (e : op.Encoder) (denoised : Option (List F32)) (c : Chain fl32 op dn)
      → IsMuted e c
      → ((transmit_denoised fl32 op dn denoised c).0 ≡ [])
        × IsMuted e (transmit_denoised fl32 op dn denoised c).1
  unfolding transmit_denoised
  transmit_denoised-IsMuted e none c m = (refl, m)
  transmit_denoised-IsMuted e (some denoised) c m =
      frames_silent _ (IsMuted e)
        (transmit_chunk-IsMuted e (rnnoise_vad fl32 op dn c.noise_suppressor))
        (length denoised / frame_samples) denoised c m

  capture_frame-IsMuted :
      (e : op.Encoder) (frame : List F32) (c : Chain fl32 op dn)
      → IsMuted e c
      → ((capture_frame fl32 op dn frame c).0 ≡ []) × IsMuted e (capture_frame fl32 op dn frame c).1
  unfolding capture_frame
  capture_frame-IsMuted e frame c m =
      let (processed, ns) = Dsp.process fl32 dn c.noise_suppressor frame in
      transmit_denoised-IsMuted e processed (record c { noise_suppressor = ns })
        (record { mode = m.mode; up = m.up; untouched = m.untouched })

  -- In push-to-talk mode with the key up, the captured samples give no packet, whatever they are and
  -- whatever the detector says, and the encoder is not called.
  pub capture_muted :
      (samples : List F32) (c : Chain fl32 op dn)
      → c.input_gate.mode ≡ push_to_talk
      → c.input_gate.ptt_active ≡ false
      → ((capture fl32 op dn samples c).0 ≡ [])
        × ((capture fl32 op dn samples c).1.encoder ≡ c.encoder)
  unfolding capture
  capture_muted samples c mode up =
      let (silent, muted) =
        frames_silent _ (IsMuted c.encoder) (capture_frame-IsMuted c.encoder)
          (length samples / frame_samples) samples c
          (record { mode = mode; up = up; untouched = refl }) in
      (silent, muted.untouched)

  -- The loop over the captured samples takes every whole frame, and leaves fewer samples than a frame
  -- for the next round: the end of the captured ones.
  pub capture_left :
      (samples : List F32) (c : Chain fl32 op dn)
      → ((capture fl32 op dn samples c).2
          ≡ drop (frame_samples * (length samples / frame_samples)) samples)
        × (length (capture fl32 op dn samples c).2 < frame_samples)
  unfolding capture
  capture_left samples c =
      let (same, left, short) =
        frames_end (capture_frame fl32 op dn) (length samples / frame_samples) samples c
          (omega arith) in
      (left, short)
