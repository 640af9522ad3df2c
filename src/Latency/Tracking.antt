-- ===== src/Latency/Tracking.antt =====
-- Pings and pongs, call by call.
use voicechat.Base.{
  ℕ, ◌+◌, ◌-◌, ◌/◌, ◌%◌, ◌≤◌, ◌<◌, List, ◌∷◌, [], ◌≡◌, length, some, none, Option, Option-cases,
  IsU32, arith, inl, inr,
}
use native.Mathlib.Decide.{ℕ_discrete}
use voicechat.Base.Floats.{Float64}
use voicechat.Base.Table
use voicechat.Latency.{
  max_pending_pings, u64_max, LatencyTracker, no_stats, PicksKey, new, make_room, ping_sent,
  sampled, pong_received, reset,
}

module _ (fl : Float64) (pick : List (ℕ × ℕ) → Option ℕ) (picks : PicksKey pick) where
  -- At most sixteen pings are pending, under distinct ids, and the extremes bound the last sample.
  pub record IsValid (t : LatencyTracker fl) : Type 0 where
    pub bounded : length t.pending ≤ max_pending_pings
    pub keyed : Table.IsMap ℕ_discrete t.pending
    pub id_range : IsU32 t.next_ping_id
    pub lowest : (0 < t.stats.sample_count → t.stats.min_rtt_us ≤ t.stats.last_rtt_us)
    pub highest : t.stats.last_rtt_us ≤ t.stats.max_rtt_us
    pub last_range : t.stats.last_rtt_us ≤ u64_max

  make_room_short :
      (m : List (ℕ × ℕ))
      → length m ≤ 16
      → Table.IsMap ℕ_discrete m
      → (length (make_room fl pick m) < 16) × Table.IsMap ℕ_discrete (make_room fl pick m)
  unfolding make_room
  make_room_short [] h k = (omega arith, k)
  make_room_short (p ∷ m) h k =
      let (key, t, chosen, held) = picks (p ∷ m) (λ e. cc) in
      ground (
        arith,
        chosen,
        Table.length-remove ℕ_discrete key (p ∷ m) t held,
        Table.remove-IsMap ℕ_discrete key (p ∷ m) k,
      )

  ping_sent-IsValid :
      (now : ℕ) (t : LatencyTracker fl) → IsValid t → IsValid (ping_sent fl pick now t).1
  unfolding ping_sent
  ping_sent-IsValid now t v =
      let room = make_room_short t.pending v.bounded v.keyed in
      record {
        bounded = ground (
          arith,
          Table.length-insert ℕ_discrete t.next_ping_id now (make_room fl pick t.pending),
          room.0,
        );
        keyed = Table.insert-IsMap ℕ_discrete _ now _ room.1;
        id_range = omega arith;
        lowest = v.lowest;
        highest = v.highest;
        last_range = v.last_range;
      }

  sampled_extremes :
      (t : LatencyTracker fl) (rtt : ℕ)
      → rtt ≤ u64_max
      → ((sampled fl t rtt).min_rtt_us ≤ rtt)
        × (rtt ≤ (sampled fl t rtt).max_rtt_us)
        × ((sampled fl t rtt).last_rtt_us ≡ rtt)
        × ((sampled fl t rtt).sample_count ≡ t.stats.sample_count + 1)
  unfolding sampled
  sampled_extremes t rtt h = ground arith

  pong_received-IsValid :
      (now ping_id : ℕ) (t : LatencyTracker fl)
      → IsValid t
      → IsValid (pong_received fl now ping_id t).1
  unfolding pong_received
  pong_received-IsValid now ping_id t v =
      elim (Option-cases (Table.get ℕ_discrete ping_id t.pending)) [
        | inl unknown ↦ rw (unknown, pong_received) v
        | inr (sent, known) ↦
            let rtt = (now - sent) / 1000 % 18446744073709551616 in
            let extremes = sampled_extremes t rtt (omega arith) in
            rw (known, pong_received)
              (record {
                bounded =
                    omega (arith, v.bounded, Table.length-remove-le ℕ_discrete ping_id t.pending);
                keyed = Table.remove-IsMap ℕ_discrete ping_id t.pending v.keyed;
                id_range = v.id_range;
                lowest = λ _. rw extremes.2 extremes.0;
                highest = rw extremes.2 extremes.1;
                last_range = rw extremes.2 (omega arith);
              })
      ]

  pub data Call : Type 0 where
    pings : (now : ℕ) → Call
    pongs : (now ping_id : ℕ) → Call
    resets : Call

  unfoldable pub step : LatencyTracker fl → Call → LatencyTracker fl
  step t (pings now) = (ping_sent fl pick now t).1
  step t (pongs now ping_id) = (pong_received fl now ping_id t).1
  step t resets = reset fl t

  unfoldable pub run : LatencyTracker fl → List Call → LatencyTracker fl
  run t [] = t
  run t (c ∷ cs) = run (step t c) cs

  step-IsValid : (t : LatencyTracker fl) (c : Call) → IsValid t → IsValid (step t c)
  unfolding step reset
  step-IsValid t (pings now) v = ping_sent-IsValid now t v
  step-IsValid t (pongs now ping_id) v = pong_received-IsValid now ping_id t v
  step-IsValid t resets v = ground arith

  run-IsValid : (t : LatencyTracker fl) (cs : List Call) → IsValid t → IsValid (run t cs)
  unfolding run
  run-IsValid t [] v = v
  run-IsValid t (c ∷ cs) v = run-IsValid (step t c) cs (step-IsValid t c v)

  pub new_tracker-IsValid : IsValid (new fl)
  unfolding new no_stats
  new_tracker-IsValid = ground arith

  -- A new tracker is valid, and stays so through any pings, pongs and resets in any order.
  pub run_tracker-IsValid : (cs : List Call) → IsValid (run (new fl) cs)
  unfolding new
  run_tracker-IsValid cs = run-IsValid (new fl) cs new_tracker-IsValid

  -- The pong that answers the last ping is worth the time between the two in microseconds and is counted; a second
  -- pong for the same ping is ignored.
  pub pong-ping :
      (sent now later : ℕ) (t : LatencyTracker fl)
      → IsValid t
      → (now - sent) / 1000 ≤ u64_max
      → let (id, pinged) = ping_sent fl pick sent t in
        let (rtt, answered) = pong_received fl now id pinged in
        (rtt ≡ some ((now - sent) / 1000))
        × (answered.stats.sample_count ≡ t.stats.sample_count + 1)
        × (answered.stats.last_rtt_us ≡ (now - sent) / 1000)
        × (pong_received fl later id answered ≡ (none, answered))
  unfolding ping_sent pong_received sampled
  pong-ping sent now later t v h =
      let room = make_room_short t.pending v.bounded v.keyed in
      let pending = Table.insert ℕ_discrete t.next_ping_id sent (make_room fl pick t.pending) in
      let keyed =
        Table.insert-IsMap ℕ_discrete t.next_ping_id sent (make_room fl pick t.pending) room.1 in
      ground (
        arith,
        Table.get-insert ℕ_discrete t.next_ping_id t.next_ping_id sent
            (make_room fl pick t.pending),
        Table.get-remove ℕ_discrete t.next_ping_id t.next_ping_id pending keyed,
      )
