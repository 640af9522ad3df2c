-- ===== src/Latency/Statistics.antt =====
-- The statistics of `LatencyTracker`, and the round trip times that they are of.
use voicechat.Base.{
  ℕ, ◌≤◌, List, ◌∷◌, [], ◌≡◌, refl, length, some, none, Option, Option-cases, min, max, arith, inl,
  inr,
}
use native.Mathlib.Decide.{ℕ_discrete}
use voicechat.Base.Floats.{Float64}
use voicechat.Base.Table
use voicechat.Latency.{
  u64_max, LatencyTracker, LatencyStats, no_stats, PicksKey, new, ping_sent, smooth, sampled,
  pong_received, reset,
}
use voicechat.Latency.Tracking
use voicechat.Latency.Tracking.{Call, pings, pongs, resets, run_tracker-IsValid}

-- The least and the greatest of some samples; where there is none, the values of a new tracker.
unfoldable pub least : List ℕ → ℕ
least [] = u64_max
least (x ∷ xs) = min x (least xs)

unfoldable pub greatest : List ℕ → ℕ
greatest [] = 0
greatest (x ∷ xs) = max x (greatest xs)

unfoldable pub latest : List ℕ → ℕ
latest [] = 0
latest (x ∷ xs) = x

-- The statistics are those of the samples, of which the latest is the first. The average and the
-- jitter are floating-point sums from the second sample on.
pub record Summarises (stats : LatencyStats) (samples : List ℕ) : Type 0 where
  pub counted : stats.sample_count ≡ length samples
  pub last : stats.last_rtt_us ≡ latest samples
  pub lowest : stats.min_rtt_us ≡ least samples
  pub highest : stats.max_rtt_us ≡ greatest samples
  pub first_average : (length samples ≤ 1 → stats.avg_rtt_us ≡ latest samples)
  pub first_jitter : (length samples ≤ 1 → stats.jitter_us ≡ 0)

module _ (fl : Float64) where
  no_stats-Summarises : Summarises no_stats []
  unfolding least greatest latest
  no_stats-Summarises = record {
    counted = refl;
    last = refl;
    lowest = refl;
    highest = refl;
    first_average = λ _. refl;
    first_jitter = λ _. refl;
  }

  sampled-Summarises :
      (t : LatencyTracker fl) (samples : List ℕ) (rtt : ℕ)
      → Summarises t.stats samples
      → Summarises (sampled fl t rtt) (rtt ∷ samples)
  unfolding sampled smooth least greatest latest
  sampled-Summarises t samples rtt v = record {
    counted = ground (arith, v.counted);
    last = ground (arith, v.last);
    lowest = ground (arith, v.lowest);
    highest = ground (arith, v.highest);
    first_average = λ few. ground (arith, v.counted);
    first_jitter = λ few. ground (arith, v.counted);
  }

  module _ (pick : List (ℕ × ℕ) → Option ℕ) (picks : PicksKey pick) where
    -- The samples after a call: what the answer to a pong is comes before the others.
    unfoldable pub sample : List ℕ → Option ℕ → List ℕ
    sample samples none = samples
    sample samples (some rtt) = rtt ∷ samples

    unfoldable pub samples_after : LatencyTracker fl → List ℕ → Call fl pick picks → List ℕ
    unfolding sample
    samples_after t samples (pings now) = samples
    samples_after t samples (pongs now ping_id) = sample samples (pong_received fl now ping_id t).0
    samples_after t samples resets = []

    -- The round trip times that calls answer from the last reset on.
    unfoldable pub samples_of : LatencyTracker fl → List ℕ → List (Call fl pick picks) → List ℕ
    unfolding samples_after
    samples_of t samples [] = samples
    samples_of t samples (c ∷ cs) =
        samples_of (Tracking.step fl pick picks t c) (samples_after t samples c) cs

    pong_received-Summarises :
        (now ping_id : ℕ) (t : LatencyTracker fl) (samples : List ℕ)
        → Summarises t.stats samples
        → Summarises
            (pong_received fl now ping_id t).1.stats
            (sample samples (pong_received fl now ping_id t).0)
    unfolding pong_received sample
    pong_received-Summarises now ping_id t samples v =
        elim (Option-cases (Table.get ℕ_discrete ping_id t.pending)) [
          | inl unknown ↦ rw (unknown, pong_received, sample) v
          | inr (sent, known) ↦ rw (known, pong_received, sample) (sampled-Summarises t samples _ v)
        ]

    step-Summarises :
        (t : LatencyTracker fl) (samples : List ℕ) (c : Call fl pick picks)
        → Summarises t.stats samples
        → Summarises (Tracking.step fl pick picks t c).stats (samples_after t samples c)
    unfolding Tracking.step samples_after ping_sent reset
    step-Summarises t samples (pings now) v = v
    step-Summarises t samples (pongs now ping_id) v =
        pong_received-Summarises now ping_id t samples v
    step-Summarises t samples resets v = no_stats-Summarises

    run-Summarises :
        (cs : List (Call fl pick picks)) (t : LatencyTracker fl) (samples : List ℕ)
        → Summarises t.stats samples
        → Summarises (Tracking.run fl pick picks t cs).stats (samples_of t samples cs)
    unfolding Tracking.run samples_of
    run-Summarises [] t samples v = v
    run-Summarises (c ∷ cs) t samples v =
        run-Summarises cs (Tracking.step fl pick picks t c) (samples_after t samples c)
          (step-Summarises t samples c v)

    -- After any pings, pongs and resets of a new tracker at most sixteen pings are pending, under distinct
    -- ids. Of the round trip times answered since the last reset, the statistics have their number, the
    -- latest, the least and the greatest; the average is the first one and the jitter 0 until the second.
    -- Before the first, all have the values of a new tracker.
    pub run_tracker-Summarises :
        (cs : List (Call fl pick picks))
        → let t = Tracking.run fl pick picks (new fl) cs in
          Tracking.IsValid fl pick picks t × Summarises t.stats (samples_of (new fl) [] cs)
    unfolding new
    run_tracker-Summarises cs =
        (run_tracker-IsValid fl pick picks cs, run-Summarises cs (new fl) [] no_stats-Summarises)
