-- ===== src/Dsp.antt =====
-- vc-core/src/dsp.rs: noise suppression in blocks of 480 samples around the nnnoiseless crate.
pub mod Stream
use voicechat.Base.{
  ℕ, zero, suc, ◌+◌, ◌-◌, ◌*◌, ◌/◌, ◌%◌, ◌^◌, ◌≤◌, ◌<◌, List, ◌∷◌, [], ◌++◌, ◌≡◌, ◌≢◌, refl, sym,
  ap, ◌∙◌, Result, ok, err, panic, ◌>>=◌, length, length-append, take, drop, take-append,
  drop-append, replicate, get_elem?, some, none, Option, ltb, leb, ◌==◌, map, List-cases, ltb→lt,
  ltb→le, Bool-cases, Option-cases, if◌then◌else◌, Bool, true, false, not, ◌&&◌, ◌||◌, All, IsByte,
  IsU16, IsU32, IsArray, arith, ◌⊎◌, inl, inr,
}
use voicechat.Base.Floats.{Float32}

abbrev pub denoise_frame_size : ℕ
denoise_frame_size = 480

-- `DenoiseState` of the crate: `process_frame` takes a block and returns the new state, the
-- denoised block and the voice probability.
pub record Denoiser (fl : Float32) : Type 1 where
  pub State : Type 0
  pub initial : State
  pub process_frame : State → List fl.F32 → State × List fl.F32 × fl.F32

pub record NoiseSuppressor (fl : Float32) (dn : Denoiser fl) : Type 0 where
  pub state : dn.State
  pub accum : List fl.F32
  pub output_buf : List fl.F32
  pub last_vad_prob : fl.F32
  pub enabled : Bool

module _ (fl : Float32) (dn : Denoiser fl) where
  open fl use {F32, literal, mul, div}

  unfoldable pub new : NoiseSuppressor fl dn
  new = record {
    state = dn.initial;
    accum = [];
    output_buf = [];
    last_vad_prob = literal 0 0;
    enabled = true;
  }

  unfoldable pub set_enabled : NoiseSuppressor fl dn → Bool → NoiseSuppressor fl dn
  set_enabled ns enabled = record ns { enabled = enabled }

  -- One block: scaled to the range of `i16`, processed, and scaled back.
  unfoldable pub process_block : NoiseSuppressor fl dn → NoiseSuppressor fl dn
  process_block ns =
      let block = map (λ s. mul s (literal 32768 0)) (take denoise_frame_size ns.accum) in
      let (state, output, prob) = dn.process_frame ns.state block in
      record ns {
        state = state;
        accum = drop denoise_frame_size ns.accum;
        output_buf = ns.output_buf ++ map (λ s. div s (literal 32768 0)) output;
        last_vad_prob = prob;
      }

  -- What waits for the consumer is handed out whole.
  unfoldable pub take_output :
      NoiseSuppressor fl dn → List F32 → Option (List F32) × NoiseSuppressor fl dn
  take_output ns [] = (none, ns)
  take_output ns (x ∷ xs) = (some (x ∷ xs), record ns { output_buf = [] })

  unfoldable pub process :
      NoiseSuppressor fl dn → List F32 → Option (List F32) × NoiseSuppressor fl dn
  process ns frame =
      if not ns.enabled
      then (some frame, ns)
      else let fed = record ns { accum = ns.accum ++ frame } in
        let done = if leb denoise_frame_size (length fed.accum) then process_block fed else fed in
        take_output done done.output_buf
