-- ===== src/Jitter/Validity.antt =====
-- The bounds of the buffer, through every sequence of calls.
use voicechat.Base.{ℕ, ◌*◌, ◌≤◌, List, ◌∷◌, [], length, some, none, Option, arith}
use voicechat.Base.Int.{ℤ}
use voicechat.Base.Floats.{Float64}
use voicechat.Jitter.{max_depth, JitterFrame, JitterBuffer, new, push, pop_first, pop, adapt, reset}
use voicechat.Jitter.Frames.{
  IsDistinct, take_frame-IsDistinct, length-take_frame-le, insert_frame-IsDistinct,
  length-insert_frame,
}

module _ (fl : Float64) where
  -- At most eight frames, no number twice, a depth from 1 to 4, and no more late packets than
  -- packets.
  pub record IsValid (jb : JitterBuffer fl) : Type 0 where
    pub capacity : length jb.frames ≤ max_depth * 2
    pub distinct : IsDistinct jb.frames
    pub depth_low : 1 ≤ jb.target_depth
    pub depth_high : jb.target_depth ≤ max_depth
    pub late_le : jb.late_packets ≤ jb.total_packets

  pub data Call : Type 0 where
    pushes : ℕ → List ℤ → Call
    pops : Call
    adapts : fl.F64 → Call
    resets : Call

  pub step : JitterBuffer fl → Call → JitterBuffer fl
  step jb (pushes seq_num pcm) = push fl jb seq_num pcm
  step jb pops = (pop fl jb).1
  step jb (adapts elapsed_secs) = adapt fl jb elapsed_secs
  step jb resets = reset fl jb

  pub run : JitterBuffer fl → List Call → JitterBuffer fl
  run jb [] = jb
  run jb (c ∷ cs) = run (step jb c) cs

  push-IsValid :
      (jb : JitterBuffer fl) (seq_num : ℕ) (pcm : List ℤ)
      → IsValid jb
      → IsValid (push fl jb seq_num pcm)
  unfolding push
  push-IsValid jb seq_num pcm v = ground (
    arith,
    length-insert_frame jb.frames seq_num pcm,
    insert_frame-IsDistinct jb.frames seq_num pcm,
  )

  pop_first-IsValid :
      (jb : JitterBuffer fl) (fs : List JitterFrame) (next : Option ℕ)
      → IsValid jb
      → IsValid (pop_first fl jb fs next).1
  unfolding pop_first
  pop_first-IsValid jb [] next v = v
  pop_first-IsValid jb (f ∷ fs) none v = ground (
    arith,
    length-take_frame-le jb.frames f.seq_num,
    take_frame-IsDistinct jb.frames f.seq_num v.distinct,
  )
  pop_first-IsValid jb (f ∷ fs) (some k) v =
      ground (arith, length-take_frame-le jb.frames k, take_frame-IsDistinct jb.frames k v.distinct)

  adapt-IsValid : (jb : JitterBuffer fl) (t : fl.F64) → IsValid jb → IsValid (adapt fl jb t)
  unfolding adapt
  adapt-IsValid jb t v = ground arith

  step-IsValid : (jb : JitterBuffer fl) (c : Call) → IsValid jb → IsValid (step jb c)
  unfolding step pop reset
  step-IsValid jb (pushes seq_num pcm) v = push-IsValid jb seq_num pcm v
  step-IsValid jb pops v = pop_first-IsValid jb jb.frames jb.next_playout_seq v
  step-IsValid jb (adapts t) v = adapt-IsValid jb t v
  step-IsValid jb resets v = ground arith

  run-IsValid : (jb : JitterBuffer fl) (cs : List Call) → IsValid jb → IsValid (run jb cs)
  unfolding run
  run-IsValid jb [] v = v
  run-IsValid jb (c ∷ cs) v = run-IsValid (step jb c) cs (step-IsValid jb c v)

  -- A new buffer is within its bounds, and stays so through any calls in any order.
  pub run-new-IsValid : (cs : List Call) → IsValid (run (new fl) cs)
  unfolding new
  run-new-IsValid cs = run-IsValid (new fl) cs (ground arith)
