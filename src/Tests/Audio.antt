-- ===== src/Tests/Audio.antt =====
-- The theorems on the jitter buffer, latency, voice detection, noise suppression and the mixer, each
-- at one input.
use voicechat.Base.{
  ℕ, ◌/◌, List, ◌∷◌, [], ◌++◌, ◌≡◌, refl, replicate, none, some, Option, ltb, leb, true, false,
  arith, length, if◌then◌else◌, get_elem?, ◌==◌, ◌&&◌, not,
}
use voicechat.Tests.{fl, fl32}
use voicechat.Base.Int.{pos}
use voicechat.Base.Table
use voicechat.Jitter.{
  JitterFrame, JitterBuffer, wrapping_sub, wrapping_suc, half_u16, max_depth, push, pop,
}
use voicechat.Jitter
use voicechat.Jitter.Frames.{lookup, present, IsDistinct}
use voicechat.Jitter.Validity.{run-new-IsValid}
use voicechat.Jitter.Validity
use voicechat.Jitter.Playout.{lookup-push, pop-pops, pop_any_depth, pops}
use voicechat.Jitter.Insertion.{IsOrdered}
use voicechat.Jitter.Order.{push-IsOrdered}
use voicechat.Latency.{PicksKey, u64_max, ping_sent, pong_received}
use voicechat.Latency
use voicechat.Latency.Tracking.{new_tracker-IsValid, pong-ping}
use voicechat.Latency.Tracking
use voicechat.Latency.Statistics.{Summarises, samples_of, run_tracker-Summarises}
use voicechat.Vad.{VadConfig, VoiceActivityDetector, detect, voice_detected}
use voicechat.Vad
use voicechat.Vad.Hold.{detect_hold, after}
use voicechat.Dsp.{Denoiser, NoiseSuppressor}
use voicechat.Dsp.Stream.{process_all, joined_up, blocks, IsIdle, process_all-conserves}
use voicechat.Mixer.{mix_peers, mix_peers_soft, mix_peers-at, total_at}

abbrev frame : ℕ → JitterFrame
frame n = record { seq_num = n; pcm = pos n ∷ [] }

-- Playout is at 65535; 65535 is missing, 0 and 1 are there.
abbrev started : JitterBuffer fl
started = record {
  frames = frame 0 ∷ frame 1 ∷ [];
  target_depth = 1;
  next_playout_seq = some 65535;
  total_packets = 3;
  late_packets = 0;
  time_since_decrease = 0;
}

started-IsDistinct : IsDistinct started.frames
unfolding lookup
started-IsDistinct = ground arith

started-IsOrdered : IsOrdered 65535 started.frames
unfolding wrapping_sub
started-IsOrdered = ground arith

run-new-IsValid_example : Validity.IsValid fl (
    Validity.run fl
      (Jitter.new fl)
      (Validity.pushes 5 [] ∷ Validity.pops ∷ Validity.adapts 20 ∷ Validity.pushes 4 [] ∷ []))
run-new-IsValid_example =
    run-new-IsValid fl
      (Validity.pushes 5 [] ∷ Validity.pops ∷ Validity.adapts 20 ∷ Validity.pushes 4 [] ∷ [])

lookup-push_example : lookup 2 (push fl started 2 (pos 2 ∷ [])).frames ≡ (
    if leb (wrapping_sub 2 65535) half_u16
      && (not (present 2 started.frames) && (ltb (length started.frames) 8 && 2 == 2))
    then some (pos 2 ∷ [])
    else lookup 2 started.frames)
lookup-push_example = lookup-push fl started 65535 2 (pos 2 ∷ []) 2 refl

pop-pops_example : (pop fl (pops fl 2 started)).0 ≡ some (pos 1 ∷ [])
unfolding lookup
pop-pops_example =
    pop-pops fl 2 65535 started (pos 1 ∷ []) refl started-IsDistinct (omega arith) (omega arith)
      refl

pop_any_depth_example :
    pop fl (record started { target_depth = 4 })
    ≡ ((pop fl started).0, record ((pop fl started).1) { target_depth = 4 })
pop_any_depth_example = pop_any_depth fl started 65535 4 refl

push-IsOrdered_example : IsOrdered 65535 (push fl started 2 []).frames
push-IsOrdered_example =
    push-IsOrdered fl started 65535 2 [] refl (omega arith) (omega arith)
      (unfold wrapping_sub in ground arith) started-IsOrdered

abbrev waiting : JitterBuffer fl
waiting = record started { frames = [] }

-- The key that stands first.
abbrev first_key : List (ℕ × ℕ) → Option ℕ
first_key [] = none
first_key ((k, t) ∷ m) = some k

first_key-PicksKey : PicksKey first_key
first_key-PicksKey [] e = absurd (e refl)
first_key-PicksKey ((k, t) ∷ m) e = (k, t, refl, unfold Table.get in ground arith)

-- Two pings, answered after three and after one microseconds.
abbrev answered : List (Tracking.Call fl first_key first_key-PicksKey)
answered =
    Tracking.pings 5000 ∷ Tracking.pongs 8000 0 ∷ Tracking.pings 9000 ∷ Tracking.pongs 10000 1 ∷ []

run_tracker-Summarises_example :
    let t = Tracking.run fl first_key first_key-PicksKey (Latency.new fl) answered in
    Tracking.IsValid fl first_key first_key-PicksKey t
    × Summarises t.stats (samples_of fl first_key first_key-PicksKey (Latency.new fl) [] answered)
run_tracker-Summarises_example = run_tracker-Summarises fl first_key first_key-PicksKey answered

abbrev quiet : VoiceActivityDetector fl32
quiet = record {
  config = record { energy_threshold_db = 0; hold_frames = 2; rnnoise_threshold = 5 };
  hold_counter = 0;
  is_active = false;
}

detect_hold_example :
    (after fl32
      (detect fl32 quiet (1 ∷ []) (some 9)).1
      ((1 ∷ [], some 1) ∷ (1 ∷ [], some 2) ∷ (1 ∷ [], some 3) ∷ [])).is_active
    ≡ false
detect_hold_example =
    detect_hold fl32 quiet (1 ∷ []) (some 9)
      ((1 ∷ [], some 1) ∷ (1 ∷ [], some 2) ∷ (1 ∷ [], some 3) ∷ [])
      (unfold voice_detected in unfold Vad.compute_energy_db in ground arith)
      (unfold voice_detected in unfold Vad.compute_energy_db in ground arith)

abbrev pub same_block : Denoiser fl32
same_block = record { State = Unit {0}; initial = tt; process_frame = λ s block. (s, block, 0) }

abbrev suppressor : NoiseSuppressor fl32 same_block
suppressor = record {
  state = tt;
  accum = replicate 100 1;
  output_buf = [];
  last_vad_prob = 0;
  enabled = true;
}

abbrev two_frames : List (List ℕ)
two_frames = replicate 400 1 ∷ replicate 480 2 ∷ []

process_all-conserves_example :
    let (outs, last) = process_all fl32 same_block suppressor two_frames in
    let total = suppressor.accum ++ joined_up two_frames in
    ((outs, last.state, last.accum)
      ≡ blocks fl32 same_block (length total / 480) suppressor.state total)
    × IsIdle fl32 same_block last
process_all-conserves_example =
    process_all-conserves fl32 same_block two_frames suppressor
      (record { waiting = omega arith; emptied = refl; on = refl }) (omega arith, (omega arith, tt))

mix_peers-at_example :
    (get_elem? (mix_peers fl32 ((2 ∷ 3 ∷ []) ∷ (4 ∷ []) ∷ []) (9 ∷ 9 ∷ [])) 1 ≡ some 1)
    × (get_elem? (mix_peers_soft fl32 ((2 ∷ 3 ∷ []) ∷ (4 ∷ []) ∷ []) (9 ∷ 9 ∷ [])) 1
        ≡ some (total_at fl32 1 ((2 ∷ 3 ∷ []) ∷ (4 ∷ []) ∷ []) 0))
mix_peers-at_example = mix_peers-at fl32 ((2 ∷ 3 ∷ []) ∷ (4 ∷ []) ∷ []) (9 ∷ 9 ∷ []) 1
