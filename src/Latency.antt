-- ===== src/Latency.antt =====
-- `LatencyTracker` of vc-core/src/latency.rs. An `Instant` is a number of
-- nanoseconds; the time of a call is given with it.
pub mod Statistics
pub mod Tracking
use voicechat.Base.{
  ℕ, zero, suc, ◌+◌, ◌-◌, ◌*◌, ◌/◌, ◌%◌, ◌^◌, ◌≤◌, ◌<◌, List, ◌∷◌, [], ◌++◌, ◌≡◌, ◌≢◌, refl, sym,
  ap, ◌∙◌, Result, ok, err, panic, ◌>>=◌, length, length-append, take, drop, take-append,
  drop-append, replicate, get_elem?, some, none, Option, ltb, leb, ◌==◌, List-cases, ltb→lt, ltb→le,
  Bool-cases, Option-cases, if◌then◌else◌, Bool, true, false, not, ◌&&◌, ◌||◌, All, IsByte, IsU16,
  IsU32, IsArray, arith, ◌⊎◌, inl, inr,
}
use native.Mathlib.Decide.{ℕ_discrete}
use voicechat.Base.Floats.{Float64}
use voicechat.Base.Table

abbrev pub max_pending_pings : ℕ
max_pending_pings = 16

-- `u64::MAX`.
abbrev pub u64_max : ℕ
u64_max = 18446744073709551615

pub record LatencyStats : Type 0 where
  pub last_rtt_us : ℕ
  pub min_rtt_us : ℕ
  pub avg_rtt_us : ℕ
  pub max_rtt_us : ℕ
  pub jitter_us : ℕ
  pub sample_count : ℕ

pub record LatencyTracker (fl : Float64) : Type 0 where
  pub pending : List (ℕ × ℕ)
  pub next_ping_id : ℕ
  pub stats : LatencyStats
  pub alpha : fl.F64
  pub last_rtt : fl.F64

abbrev pub no_stats : LatencyStats
no_stats = record {
  last_rtt_us = 0;
  min_rtt_us = u64_max;
  avg_rtt_us = 0;
  max_rtt_us = 0;
  jitter_us = 0;
  sample_count = 0;
}

-- The key that `pending.keys().next()` names: any key of the map, in no order that is specified.
abbrev pub PicksKey : (List (ℕ × ℕ) → Option ℕ) → Type 0
PicksKey pick =
    (m : List (ℕ × ℕ))
    → m ≢ []
    → (k : ℕ) × (t : ℕ) × (pick m ≡ some k) × (Table.get ℕ_discrete k m ≡ some t)

module _ (fl : Float64) where
  open fl use {F64, of_u64, to_u64, literal, add, sub, mul, abs}

  unfoldable pub new : LatencyTracker fl
  new = record {
    pending = [];
    next_ping_id = 0;
    stats = no_stats;
    alpha = literal 125 3;
    last_rtt = literal 0 0;
  }

  -- The key that makes room among sixteen pending pings.
  unfoldable pub make_room : (List (ℕ × ℕ) → Option ℕ) → List (ℕ × ℕ) → List (ℕ × ℕ)
  make_room pick m =
      if leb max_pending_pings (length m)
      then elim (pick m) [ none ↦ m | some oldest ↦ Table.remove ℕ_discrete oldest m ]
      else m

  unfoldable pub ping_sent :
      (List (ℕ × ℕ) → Option ℕ) → ℕ → LatencyTracker fl → ℕ × LatencyTracker fl
  ping_sent pick now t =
      let id = t.next_ping_id in
      (
        id,
        record t {
          next_ping_id = (id + 1) % 4294967296;
          pending = Table.insert ℕ_discrete id now (make_room pick t.pending);
        },
      )

  -- The average and the jitter, with a new sample.
  unfoldable pub smooth : LatencyTracker fl → LatencyStats → ℕ → LatencyStats
  smooth t stats rtt_us =
      let rtt_f = of_u64 rtt_us in
      let keep = sub (literal 1 0) t.alpha in
      if stats.sample_count == 1
      then record stats { avg_rtt_us = rtt_us; jitter_us = 0 }
      else record stats {
        avg_rtt_us = to_u64 (add (mul (of_u64 stats.avg_rtt_us) keep) (mul rtt_f t.alpha));
        jitter_us =
            to_u64
              (add (mul (of_u64 stats.jitter_us) keep) (mul (abs (sub rtt_f t.last_rtt)) t.alpha));
      }

  -- The statistics with a new sample.
  unfoldable pub sampled : LatencyTracker fl → ℕ → LatencyStats
  unfolding smooth
  sampled t rtt_us =
      let s = t.stats in
      smooth t
        (record s {
          last_rtt_us = rtt_us;
          sample_count = s.sample_count + 1;
          min_rtt_us = if ltb rtt_us s.min_rtt_us then rtt_us else s.min_rtt_us;
          max_rtt_us = if ltb s.max_rtt_us rtt_us then rtt_us else s.max_rtt_us;
        })
        rtt_us

  unfoldable pub pong_received : ℕ → ℕ → LatencyTracker fl → Option ℕ × LatencyTracker fl
  unfolding sampled
  pong_received now ping_id t = elim (Table.get ℕ_discrete ping_id t.pending) [
    | none ↦ (none, t)
    | some send_time ↦
        let rtt_us = (now - send_time) / 1000 % 18446744073709551616 in
        (
          some rtt_us,
          record t {
            pending = Table.remove ℕ_discrete ping_id t.pending;
            stats = sampled t rtt_us;
            last_rtt = of_u64 rtt_us;
          },
        )
  ]

  unfoldable pub reset : LatencyTracker fl → LatencyTracker fl
  reset t = record t { pending = []; stats = no_stats; last_rtt = literal 0 0 }
