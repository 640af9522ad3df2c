-- ===== src/Vad.antt =====
-- vc-core/src/vad.rs: voice activity detection.
pub mod Hold
use voicechat.Base.{
  ℕ, zero, suc, ◌+◌, ◌-◌, ◌*◌, ◌/◌, ◌%◌, ◌^◌, ◌≤◌, ◌<◌, List, ◌∷◌, [], ◌++◌, ◌≡◌, ◌≢◌, refl, sym,
  ap, ◌∙◌, Result, ok, err, panic, ◌>>=◌, length, length-append, take, drop, take-append,
  drop-append, replicate, get_elem?, some, none, Option, ltb, leb, ◌==◌, map, List-cases, ltb→lt,
  ltb→le, Bool-cases, Option-cases, if◌then◌else◌, Bool, true, false, not, ◌&&◌, ◌||◌, All, IsByte,
  IsU16, IsU32, IsArray, arith, ◌⊎◌, inl, inr,
}
use voicechat.Base.Floats.{Float32}

pub record VadConfig (fl : Float32) : Type 0 where
  pub energy_threshold_db : fl.F32
  pub hold_frames : ℕ
  pub rnnoise_threshold : fl.F32

pub record VoiceActivityDetector (fl : Float32) : Type 0 where
  pub config : VadConfig fl
  pub hold_counter : ℕ
  pub is_active : Bool

module _ (fl : Float32) where
  open fl use {F32, literal, neg, neg_infinity, of_ℕ, mul, div, sqrt, log10, sum, lt}

  unfoldable pub default_config : VadConfig fl
  default_config = record {
    energy_threshold_db = neg (literal 40 0);
    hold_frames = 20;
    rnnoise_threshold = literal 5 1;
  }

  unfoldable pub new : VadConfig fl → VoiceActivityDetector fl
  new config = record { config = config; hold_counter = 0; is_active = false }

  -- RMS energy in dB.
  unfoldable pub compute_energy_db : List F32 → F32
  compute_energy_db [] = neg_infinity
  compute_energy_db (x ∷ xs) =
      let rms = sqrt (div (sum (map (λ s. mul s s) (x ∷ xs))) (of_ℕ (length (x ∷ xs)))) in
      if lt rms (literal 1 10) then neg_infinity else mul (literal 20 0) (log10 rms)

  unfoldable pub voice_detected : VadConfig fl → List F32 → Option F32 → Bool
  voice_detected config pcm none = lt config.energy_threshold_db (compute_energy_db pcm)
  voice_detected config pcm (some vad_prob) =
      lt config.energy_threshold_db (compute_energy_db pcm) && lt config.rnnoise_threshold vad_prob

  -- The state after a frame, by whether voice was detected in it.
  unfoldable pub hold : VoiceActivityDetector fl → Bool → VoiceActivityDetector fl
  hold d detected =
      if detected
      then record d { hold_counter = d.config.hold_frames; is_active = true }
      else if ltb 0 d.hold_counter
      then record d { hold_counter = d.hold_counter - 1 }
      else record d { is_active = false }

  unfoldable pub detect :
      VoiceActivityDetector fl → List F32 → Option F32 → Bool × VoiceActivityDetector fl
  unfolding hold
  detect d pcm rnnoise_vad =
      let after = hold d (voice_detected d.config pcm rnnoise_vad) in (after.is_active, after)

  unfoldable pub set_config : VoiceActivityDetector fl → VadConfig fl → VoiceActivityDetector fl
  set_config d config = record d { config = config }
