-- ===== src/Vad/Hold.antt =====
-- How long the detector stays active after voice stops.
use voicechat.Base.{
  ◌-◌, List, ◌∷◌, [], ◌≡◌, length, Option, ltb, leb, Bool-cases, true, false, All, arith, inl, inr,
}
use voicechat.Base.Floats.{Float32}
use voicechat.Vad.{VadConfig, VoiceActivityDetector, voice_detected, detect}

module _ (fl : Float32) where
  abbrev Frame : Type 0
  Frame = List fl.F32 × Option fl.F32

  -- The detector after a run of frames.
  pub after : VoiceActivityDetector fl → List Frame → VoiceActivityDetector fl
  after d [] = d
  after d ((pcm, prob) ∷ frames) = after (detect fl d pcm prob).1 frames

  -- No frame of the run has voice in it.
  abbrev pub IsSilent : VadConfig fl → List Frame → Type 0
  IsSilent config = All (λ f. voice_detected fl config f.0 f.1 ≡ false)

  silent_stays :
      (d : VoiceActivityDetector fl) (frames : List Frame)
      → d.is_active ≡ false
      → d.hold_counter ≡ 0
      → IsSilent d.config frames
      → (after d frames).is_active ≡ false
  unfolding after detect
  silent_stays d [] a z s = a
  silent_stays d ((pcm, prob) ∷ frames) a z s =
      ground (arith, silent_stays (record d { is_active = false }) frames)

  holding :
      (d : VoiceActivityDetector fl) (frames : List Frame)
      → d.is_active ≡ true
      → IsSilent d.config frames
      → (after d frames).is_active ≡ leb (length frames) d.hold_counter
  unfolding after detect
  holding d [] a s = ground arith
  holding d ((pcm, prob) ∷ frames) a s = elim (Bool-cases (ltb 0 d.hold_counter)) [
    | inl more ↦
        ground (arith, holding (record d { hold_counter = d.hold_counter - 1 }) frames a s.1)
    | inr over ↦ ground (arith, silent_stays (record d { is_active = false }) frames)
  ]

  -- After a frame with voice the detector is active for as many silent frames as the configuration
  -- says, and is inactive after any longer run of silence.
  pub detect_hold :
      (d : VoiceActivityDetector fl) (pcm : List fl.F32) (prob : Option fl.F32)
      (silence : List Frame)
      → voice_detected fl d.config pcm prob ≡ true
      → IsSilent d.config silence
      → (after (detect fl d pcm prob).1 silence).is_active
        ≡ leb (length silence) d.config.hold_frames
  unfolding detect
  detect_hold d pcm prob silence v s =
      ground (
        arith,
        holding (record d { hold_counter = d.config.hold_frames; is_active = true }) silence,
      )
