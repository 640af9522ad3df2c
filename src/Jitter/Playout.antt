-- ===== src/Jitter/Playout.antt =====
-- What a started buffer plays: the frames stored under the numbers that follow one another.
use voicechat.Base.{
  ℕ, zero, suc, ◌+◌, ◌%◌, ◌<◌, List, ◌∷◌, [], ◌≡◌, ◌≢◌, ap, ◌∙◌, length, some, none, ltb, leb, ◌==◌,
  if◌then◌else◌, false, not, ◌&&◌, IsU16, arith,
}
use voicechat.Base.Int.{ℤ}
use voicechat.Base.Floats.{Float64}
use voicechat.Jitter.{
  wrapping_sub, wrapping_suc, half_u16, JitterFrame, JitterBuffer, is_late, push, pop,
}
use voicechat.Jitter.Frames.{
  lookup, IsDistinct, present, take_frame_played, lookup-take_frame, take_frame-IsDistinct,
  lookup-insert_frame,
}

stored_ne_nil : (k : ℕ) (fs : List JitterFrame) {pcm : List ℤ} → lookup k fs ≡ some pcm → fs ≢ []
unfolding lookup
stored_ne_nil k [] h = cc
stored_ne_nil k (f ∷ fs) h = λ e. cc

-- A started buffer as a client sees it: the next number, and what is stored.
module _ (fl : Float64) where
  -- `push` on a started buffer stores the frame under its number when that is at most 32767 ahead of the
  -- next one modulo 2^16, is not stored yet, and fewer than eight frames are there; otherwise, and under
  -- every other number, what is stored stays as it was.
  pub lookup-push :
      (jb : JitterBuffer fl) (next seq_num : ℕ) (pcm : List ℤ) (k : ℕ)
      → jb.next_playout_seq ≡ some next
      → lookup k (push fl jb seq_num pcm).frames ≡ (
          if leb (wrapping_sub seq_num next) half_u16
            && (not (present seq_num jb.frames) && (ltb (length jb.frames) 8 && seq_num == k))
          then some pcm
          else lookup k jb.frames)
  unfolding push is_late
  lookup-push jb next seq_num pcm k e = ground (arith, lookup-insert_frame jb.frames seq_num pcm k)

  -- `pop` on a started buffer that is not empty: it plays what is stored under the next number or
  -- signals its absence, removes that frame alone, and moves on by one number.
  pub pop_started :
      (jb : JitterBuffer fl) (next : ℕ) (k : ℕ)
      → jb.next_playout_seq ≡ some next
      → jb.frames ≢ []
      → IsDistinct jb.frames
      → ((pop fl jb).0 ≡ lookup next jb.frames)
        × ((pop fl jb).1.next_playout_seq ≡ some (wrapping_suc next))
        × (lookup k (pop fl jb).1.frames ≡ (if next == k then none else lookup k jb.frames))
  unfolding pop
  pop_started jb next k e ne d =
      ground (arith, take_frame_played jb.frames next, lookup-take_frame jb.frames next k d)

  pop-IsDistinct :
      (jb : JitterBuffer fl) (next : ℕ)
      → jb.next_playout_seq ≡ some next
      → IsDistinct jb.frames
      → IsDistinct (pop fl jb).1.frames
  unfolding pop
  pop-IsDistinct jb next e d = ground (arith, take_frame-IsDistinct jb.frames next d)

  -- `n` calls of `pop`, for the last one's result.
  pub pops : ℕ → JitterBuffer fl → JitterBuffer fl
  pops zero jb = jb
  pops (suc n) jb = pops n (pop fl jb).1

  -- A frame stored `d` numbers after the next one is what the call after `d` calls plays.
  pub pop-pops :
      (d next : ℕ) (jb : JitterBuffer fl) (pcm : List ℤ)
      → jb.next_playout_seq ≡ some next
      → IsDistinct jb.frames
      → d < 65536
      → IsU16 next
      → lookup ((next + d) % 65536) jb.frames ≡ some pcm
      → (pop fl (pops d jb)).0 ≡ some pcm
  unfolding pops
  pop-pops zero next jb pcm e v h u l =
      let here : (next + 0) % 65536 ≡ next = omega arith in
      let stored : lookup next jb.frames ≡ some pcm = rw here at l in
      (pop_started jb next 0 e (stored_ne_nil next jb.frames stored) v).0 ∙ stored
  pop-pops (suc d) next jb pcm e v h u l =
      let ne = stored_ne_nil ((next + suc d) % 65536) jb.frames l in
      let (played, moved, left) = pop_started jb next ((next + suc d) % 65536) e ne v in
      let same : (wrapping_suc next + d) % 65536 ≡ (next + suc d) % 65536 =
        unfold wrapping_suc in omega arith in
      let other : next == (next + suc d) % 65536 ≡ false = ground arith in
      pop-pops d (wrapping_suc next) (pop fl jb).1 pcm moved (pop-IsDistinct jb next e v)
        (omega arith) (unfold wrapping_suc in omega arith)
        (ap (λ k. lookup k (pop fl jb).1.frames) same
          ∙ left
          ∙ ap (λ b. if b then none else lookup ((next + suc d) % 65536) jb.frames) other
          ∙ l)

  -- Once playout has started, the target depth has no effect on what is played: `pop` returns the
  -- same, and leaves the same buffer but for the depth.
  pub pop_any_depth :
      (jb : JitterBuffer fl) (next depth : ℕ)
      → jb.next_playout_seq ≡ some next
      → pop fl (record jb { target_depth = depth })
        ≡ ((pop fl jb).0, record ((pop fl jb).1) { target_depth = depth })
  unfolding pop
  pop_any_depth jb next depth e = ground arith
