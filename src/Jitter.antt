-- ===== src/Jitter.antt =====
-- vc-core/src/jitter.rs: the adaptive jitter buffer of one peer.
pub mod Frames
pub mod Validity
pub mod Playout
pub mod Insertion
pub mod Order
use voicechat.Base.{
  ℕ, zero, suc, ◌+◌, ◌-◌, ◌*◌, ◌/◌, ◌%◌, ◌^◌, ◌≤◌, ◌<◌, List, ◌∷◌, [], ◌++◌, ◌≡◌, ◌≢◌, refl, sym,
  ap, ◌∙◌, Result, ok, err, panic, ◌>>=◌, length, length-append, take, drop, take-append,
  drop-append, replicate, get_elem?, some, none, Option, ltb, leb, ◌==◌, ltb→lt, ltb→le, Bool-cases,
  Option-cases, if◌then◌else◌, Bool, true, false, not, ◌&&◌, ◌||◌, All, IsByte, IsU16, IsU32,
  IsArray, arith, ◌⊎◌, inl, inr,
}
use voicechat.Base.Int.{ℤ}
use voicechat.Base.Floats.{Float64}
use voicechat.Base.Seq.{position, any, insert, remove, unwrap_or}

abbrev pub max_depth : ℕ
max_depth = 4

abbrev pub initial_depth : ℕ
initial_depth = 1

-- `a.wrapping_sub(b)` and `a.wrapping_add(1)` on `u16`.
unfoldable pub wrapping_sub : ℕ → ℕ → ℕ
wrapping_sub a b = (a + 65536 - b) % 65536

unfoldable pub wrapping_suc : ℕ → ℕ
wrapping_suc a = (a + 1) % 65536

-- `u16::MAX / 2`.
abbrev pub half_u16 : ℕ
half_u16 = 32767

pub record JitterFrame : Type 0 where
  pub seq_num : ℕ
  pub pcm : List ℤ

-- The playout state, and the statistics of the adaptation.
pub record JitterBuffer (fl : Float64) : Type 0 where
  pub frames : List JitterFrame
  pub target_depth : ℕ
  pub next_playout_seq : Option ℕ
  pub total_packets : ℕ
  pub late_packets : ℕ
  pub time_since_decrease : fl.F64

-- Is the frame to be played after `seq_num`? (The test that finds the place of a new frame.)
unfoldable pub is_after : ℕ → JitterFrame → Bool
is_after seq_num f = let diff = wrapping_sub f.seq_num seq_num in ltb 0 diff && ltb diff half_u16

-- Is the packet older than what is expected next?
unfoldable pub is_late : Option ℕ → ℕ → Bool
is_late none seq_num = false
is_late (some next) seq_num = ltb half_u16 (wrapping_sub seq_num next)

-- The second half of `push`: the new frame goes into its place, unless it is there or there are
-- eight already.
unfoldable pub insert_frame : List JitterFrame → ℕ → List ℤ → List JitterFrame
insert_frame frames seq_num pcm =
    let pos = unwrap_or (position (is_after seq_num) frames) (length frames) in
    if any (λ f. f.seq_num == seq_num) frames
    then frames
    else if leb (max_depth * 2) (length frames)
    then frames
    else insert pos (record { seq_num = seq_num; pcm = pcm }) frames

-- The second half of `pop`: play the expected frame, or signal that it is missing.
unfoldable pub take_frame : List JitterFrame → ℕ → Option (List ℤ) × List JitterFrame
take_frame frames expected = elim (position (λ f. f.seq_num == expected) frames) [
  | none ↦ (none, frames)
  | some idx ↦ elim (remove idx frames) [
    | none ↦ (none, frames)
    | some (frame, rest) ↦ (some frame.pcm, rest)
  ]
]

module _ (fl : Float64) where
  open fl use {F64, of_u64, literal, add, div, lt, le}

  unfoldable pub new : JitterBuffer fl
  new = record {
    frames = [];
    target_depth = initial_depth;
    next_playout_seq = none;
    total_packets = 0;
    late_packets = 0;
    time_since_decrease = literal 0 0;
  }

  unfoldable pub push : JitterBuffer fl → ℕ → List ℤ → JitterBuffer fl
  push jb seq_num pcm =
      let counted = record jb { total_packets = jb.total_packets + 1 } in
      if is_late jb.next_playout_seq seq_num
      then record counted { late_packets = jb.late_packets + 1 }
      else record counted { frames = insert_frame jb.frames seq_num pcm }

  -- `pop` once the expected number is known.
  unfoldable pub pop_expected : JitterBuffer fl → ℕ → Option (List ℤ) × JitterBuffer fl
  pop_expected jb expected =
      let (played, rest) = take_frame jb.frames expected in
      (played, record jb { frames = rest; next_playout_seq = some (wrapping_suc expected) })

  -- The first playout waits for the target depth, and starts at the first frame.
  unfoldable pub pop_first :
      JitterBuffer fl → List JitterFrame → Option ℕ → Option (List ℤ) × JitterBuffer fl
  unfolding pop_expected
  pop_first jb [] next = (none, jb)
  pop_first jb (f ∷ fs) none =
      if ltb (length (f ∷ fs)) jb.target_depth then (none, jb) else pop_expected jb f.seq_num
  pop_first jb (f ∷ fs) (some expected) = pop_expected jb expected

  unfoldable pub pop : JitterBuffer fl → Option (List ℤ) × JitterBuffer fl
  unfolding pop_first
  pop jb = pop_first jb jb.frames jb.next_playout_seq

  unfoldable pub reset_stats : JitterBuffer fl → JitterBuffer fl
  reset_stats jb = record jb { total_packets = 0; late_packets = 0 }

  unfoldable pub adapt : JitterBuffer fl → F64 → JitterBuffer fl
  unfolding reset_stats
  adapt jb elapsed_secs =
      let jb = record jb { time_since_decrease = add jb.time_since_decrease elapsed_secs } in
      if ltb jb.total_packets 100
      then jb
      else let loss_rate = div (of_u64 jb.late_packets) (of_u64 jb.total_packets) in
        if lt (literal 2 2) loss_rate && ltb jb.target_depth max_depth
        then reset_stats (record jb { target_depth = jb.target_depth + 1 })
        else if lt loss_rate (literal 1 3)
            && ltb 1 jb.target_depth
            && le (literal 5 0) jb.time_since_decrease
        then reset_stats
            (record jb { target_depth = jb.target_depth - 1; time_since_decrease = literal 0 0 })
        else jb

  unfoldable pub reset : JitterBuffer fl → JitterBuffer fl
  unfolding reset_stats
  reset jb = reset_stats (record jb {
    frames = [];
    next_playout_seq = none;
    target_depth = initial_depth;
    time_since_decrease = literal 0 0;
  })
