-- ===== src/Session/Capture/Open.antt =====
-- The capture side with an open gate and no noise suppression.
use voicechat.Base.{
  ℕ, zero, suc, ◌/◌, List, ◌∷◌, [], ◌++◌, ◌≡◌, refl, ap, ◌∙◌, length, length-drop, length-take,
  take, drop, arith, false, Option, some,
}
use voicechat.Base.Floats.{Float32}
use voicechat.Codec.{Opus, frame_samples, f32_to_i16}
use voicechat.Codec
use voicechat.Dsp.{Denoiser, NoiseSuppressor}
use voicechat.Dsp
use voicechat.Input.{InputGate, always_on}
use voicechat.Input
use voicechat.Session.Frames.{frames, frames_next, frames_one}
use voicechat.Session.Capture.{
  Chain, encoded_packets, encode_open, transmit_chunk, rnnoise_vad, transmit_denoised,
  capture_frame, capture,
}

module _ (fl32 : Float32) (op : Opus) (dn : Denoiser fl32) where
  open fl32 use {F32}

  -- The specification: the frames, one after the other through one encoder.
  pub encode_frames : ℕ → List F32 → op.Encoder → List (List ℕ)
  encode_frames zero samples e = []
  encode_frames (suc n) samples e =
      let (encoded, e') = Codec.encode op e (f32_to_i16 fl32 (take frame_samples samples)) in
      encoded_packets fl32 op dn encoded ++ encode_frames n (drop frame_samples samples) e'

  record IsOpen (c : Chain fl32 op dn) : Type 0 where
    mode : c.input_gate.mode ≡ always_on
    plain : c.noise_suppressor.enabled ≡ false

  append_nil : {A : Type 0} (xs : List A) → xs ++ [] ≡ xs
  append_nil [] = refl
  append_nil (x ∷ xs) = ap (λ ys. x ∷ ys) (append_nil xs)

  chunk-IsOpen :
      (prob : Option F32) (frame : List F32) (c : Chain fl32 op dn)
      → IsOpen c
      → let encoded = Codec.encode op c.encoder (f32_to_i16 fl32 frame) in
        let out = transmit_chunk fl32 op dn prob frame c in
        (out.0 ≡ encoded_packets fl32 op dn encoded.0) × (out.1.encoder ≡ encoded.1) × IsOpen out.1
  unfolding transmit_chunk encode_open Input.should_transmit Input.set_vad_active Input.decision
  chunk-IsOpen prob frame c o = rw o.mode (refl, refl, record { mode = refl; plain = o.plain })

  process_plain :
      (ns : NoiseSuppressor fl32 dn) (frame : List F32)
      → ns.enabled ≡ false
      → Dsp.process fl32 dn ns frame ≡ (some frame, ns)
  unfolding Dsp.process
  process_plain ns frame plain = rw plain refl

  denoised_frame :
      (frame : List F32) (c : Chain fl32 op dn)
      → length frame ≡ frame_samples
      → let out = transmit_chunk fl32 op dn (rnnoise_vad fl32 op dn c.noise_suppressor) frame c in
        transmit_denoised fl32 op dn (some frame) c ≡ (out.0, out.1)
  unfolding transmit_denoised
  denoised_frame frame c size =
      let body = transmit_chunk fl32 op dn (rnnoise_vad fl32 op dn c.noise_suppressor) in
      ap (λ (n : ℕ). let r = frames body (n / frame_samples) frame c in (r.0, r.1)) size
      ∙ ap (λ (r : List (List ℕ) × Chain fl32 op dn × List F32). (r.0, r.1))
          (frames_one body frame c size)
      ∙ ap (λ (ps : List (List ℕ)). (ps, (body frame c).1)) (append_nil (body frame c).0)

  -- A captured frame passes as it is.
  capture_frame_plain :
      (frame : List F32) (c : Chain fl32 op dn)
      → length frame ≡ frame_samples
      → c.noise_suppressor.enabled ≡ false
      → let out = transmit_chunk fl32 op dn (rnnoise_vad fl32 op dn c.noise_suppressor) frame c in
        capture_frame fl32 op dn frame c ≡ (out.0, out.1)
  unfolding capture_frame
  capture_frame_plain frame c size plain =
      ap
        (λ (r : Option (List F32) × NoiseSuppressor fl32 dn).
          transmit_denoised fl32 op dn r.0 (record c { noise_suppressor = r.1 }))
        (process_plain c.noise_suppressor frame plain)
      ∙ denoised_frame frame c size

  frame-IsOpen :
      (frame : List F32) (c : Chain fl32 op dn)
      → length frame ≡ frame_samples
      → IsOpen c
      → let encoded = Codec.encode op c.encoder (f32_to_i16 fl32 frame) in
        let out = capture_frame fl32 op dn frame c in
        (out.0 ≡ encoded_packets fl32 op dn encoded.0) × (out.1.encoder ≡ encoded.1) × IsOpen out.1
  frame-IsOpen frame c size o =
      rw (capture_frame_plain frame c size o.plain)
        (chunk-IsOpen (rnnoise_vad fl32 op dn c.noise_suppressor) frame c o)

  frames_open :
      (q : ℕ) (samples : List F32) (c : Chain fl32 op dn)
      → length samples / frame_samples ≡ q
      → IsOpen c
      → (frames (capture_frame fl32 op dn) q samples c).0 ≡ encode_frames q samples c.encoder
  unfolding encode_frames
  frames_open zero samples c e o = unfold frames in refl
  frames_open (suc q) samples c e o =
      let frame = take frame_samples samples in
      let next = capture_frame fl32 op dn frame c in
      let (packets, encoder, still) =
        frame-IsOpen frame c (omega (arith, length-take frame_samples samples)) o in
      let rest =
        frames_open q (drop frame_samples samples) next.1
          (omega (arith, length-drop frame_samples samples)) still in
      rw (frames_next (capture_frame fl32 op dn) q samples c (omega arith), rest, packets, encoder)
        refl

  -- In the always-on mode without noise suppression the packets are the encodings of the captured
  -- frames, all of them in their order, by one encoder whose state goes from frame to frame.
  pub capture_open :
      (samples : List F32) (c : Chain fl32 op dn)
      → c.input_gate.mode ≡ always_on
      → c.noise_suppressor.enabled ≡ false
      → (capture fl32 op dn samples c).0
        ≡ encode_frames (length samples / frame_samples) samples c.encoder
  unfolding capture
  capture_open samples c mode plain =
      frames_open (length samples / frame_samples) samples c refl
        (record { mode = mode; plain = plain })
