-- ===== src/Jitter/Order.antt =====
-- The frames of the buffer stand in playout order.
use voicechat.Base.{
  ℕ, ◌+◌, ◌%◌, ◌<◌, List, ◌∷◌, [], ◌≡◌, ◌≢◌, refl, ap, some, none, Option, ◌==◌, map, Bool-cases,
  false, All, IsU16, arith, inl, inr,
}
use mathlib.Core.Path.{subst}
use voicechat.Base.Int.{ℤ}
use voicechat.Base.Floats.{Float64}
use voicechat.Base.Seq.{position, any, insert}
use voicechat.Jitter.{
  wrapping_sub, wrapping_suc, half_u16, JitterFrame, JitterBuffer, is_after, is_late, insert_frame,
  take_frame, push, pop_first, pop,
}
use voicechat.Jitter.Frames.{take_frame_cons}
use voicechat.Jitter.Insertion.{IsOrdered, All-further, insert_frame-IsOrdered}

-- All frames beyond `base` itself: one step on they are one number closer.
closer :
    (base k : ℕ)
    → IsU16 base
    → IsU16 k
    → 0 < wrapping_sub k base
    → wrapping_sub k (wrapping_suc base) + 1 ≡ wrapping_sub k base
unfolding wrapping_sub wrapping_suc
closer base k hb hk h = omega arith

abbrev Beyond : ℕ → ℕ → List JitterFrame → Type 0
Beyond base n = All (λ g. n < wrapping_sub g.seq_num base)

rebase_Beyond :
    (base m : ℕ) (fs : List JitterFrame)
    → IsU16 base
    → IsOrdered base fs
    → Beyond base (m + 1) fs
    → Beyond (wrapping_suc base) m fs
rebase_Beyond base m [] hb o a = tt
rebase_Beyond base m (f ∷ fs) hb o a =
    (omega (arith, closer base f.seq_num hb o.0 (omega arith)), rebase_Beyond base m fs hb o.3 a.1)

rebase-IsOrdered :
    (base : ℕ) (fs : List JitterFrame)
    → IsU16 base
    → Beyond base 0 fs
    → IsOrdered base fs
    → IsOrdered (wrapping_suc base) fs
rebase-IsOrdered base [] hb a o = tt
rebase-IsOrdered base (f ∷ fs) hb a o =
    let step = closer base f.seq_num hb o.0 a.0 in
    (
      o.0,
      omega (arith, step),
      rebase_Beyond base _ fs hb o.3 (rw step o.2),
      rebase-IsOrdered base fs hb a.1 o.3,
    )

take_frame_absent :
    (base : ℕ) (fs : List JitterFrame) → Beyond base 0 fs → (take_frame fs base).1 ≡ fs
take_frame_absent base [] a = unfold take_frame position in refl
take_frame_absent base (f ∷ fs) a =
    let other : f.seq_num == base ≡ false = unfold wrapping_sub in ground arith in
    rw (take_frame_cons f fs base) (rw other (ap (◌∷◌ f) (take_frame_absent base fs a.1)))

take_frame-IsOrdered :
    (base : ℕ) (fs : List JitterFrame)
    → IsU16 base
    → IsOrdered base fs
    → IsOrdered (wrapping_suc base) (take_frame fs base).1
take_frame-IsOrdered base [] hb o = unfold take_frame position in tt
take_frame-IsOrdered base (f ∷ fs) hb o = elim (Bool-cases (f.seq_num == base)) [
  | inl due ↦
      let zero_away : wrapping_sub f.seq_num base ≡ 0 = unfold wrapping_sub in ground arith in
      rw (take_frame_cons f fs base)
        (rw due (rebase-IsOrdered base fs hb (rw zero_away at o.2) o.3))
  | inr not_due ↦
      let away : 0 < wrapping_sub f.seq_num base = unfold wrapping_sub in ground arith in
      let beyond : Beyond base 0 fs = All-further base 0 _ fs (omega arith) o.2 in
      rw (take_frame_cons f fs base) (
        rw (not_due, take_frame_absent base fs beyond)
          (rebase-IsOrdered base (f ∷ fs) hb (away, beyond) o))
]

module _ (fl : Float64) where
  -- On a started buffer whose frames are in playout order, all fewer than 32767 ahead of the next number,
  -- `push` of any number but the one 32767 after the next keeps them so.
  pub push-IsOrdered :
      (jb : JitterBuffer fl) (next seq_num : ℕ) (pcm : List ℤ)
      → jb.next_playout_seq ≡ some next
      → IsU16 next
      → IsU16 seq_num
      → wrapping_sub seq_num next ≢ half_u16
      → IsOrdered next jb.frames
      → IsOrdered next (push fl jb seq_num pcm).frames
  unfolding push is_late
  push-IsOrdered jb next seq_num pcm e hn hk h o =
      ground (arith, insert_frame-IsOrdered next seq_num pcm jb.frames hn hk)

  pop_first-IsOrdered :
      (jb : JitterBuffer fl) (next : ℕ) (fs : List JitterFrame) (due : Option ℕ)
      → due ≡ some next
      → jb.next_playout_seq ≡ some next
      → IsU16 next
      → IsOrdered next jb.frames
      → (after : ℕ) × ((pop_first fl jb fs due).1.next_playout_seq ≡ some after)
        × IsOrdered after (pop_first fl jb fs due).1.frames
  unfolding pop_first
  pop_first-IsOrdered jb next [] due d e hn o = (next, e, o)
  pop_first-IsOrdered jb next (f ∷ fs) none d e hn o = cc
  pop_first-IsOrdered jb next (f ∷ fs) (some k) d e hn o =
      let same : k ≡ next = ground arith in
      (wrapping_suc k, refl, rw same (take_frame-IsOrdered next jb.frames hn o))

  -- `pop` on a started buffer whose frames are in order keeps them in order, after the number that
  -- is next then.
  pub pop-IsOrdered :
      (jb : JitterBuffer fl) (next : ℕ)
      → jb.next_playout_seq ≡ some next
      → IsU16 next
      → IsOrdered next jb.frames
      → (after : ℕ) × ((pop fl jb).1.next_playout_seq ≡ some after)
        × IsOrdered after (pop fl jb).1.frames
  unfolding pop
  pop-IsOrdered jb next e hn o = pop_first-IsOrdered jb next jb.frames jb.next_playout_seq e e hn o

  half_frames :
      (jb : JitterBuffer fl) (next : ℕ) (a b : List ℤ)
      → jb.next_playout_seq ≡ some next
      → jb.frames ≡ []
      → IsU16 next
      → (push fl (push fl jb ((next + half_u16) % 65536) a) next b).frames
        ≡ record { seq_num = (next + half_u16) % 65536; pcm = a }
          ∷ record { seq_num = next; pcm = b }
          ∷ []
  unfolding push is_late insert_frame position any insert is_after wrapping_sub
  half_frames jb next a b e n hn = ground arith

  -- The number 32767 after the next one is no late packet, but the test for the place of a new
  -- frame does not see it as later: where it is buffered first, the next frame itself is put behind
  -- it, out of order.
  pub push_half_unordered :
      (jb : JitterBuffer fl) (next : ℕ) (a b : List ℤ)
      → jb.next_playout_seq ≡ some next
      → jb.frames ≡ []
      → IsU16 next
      → let far = push fl jb ((next + half_u16) % 65536) a in
        (map (λ f. f.seq_num) (push fl far next b).frames ≡ (next + half_u16) % 65536 ∷ next ∷ [])
        × ¬ IsOrdered next (push fl far next b).frames
  unfolding wrapping_sub
  push_half_unordered jb next a b e n hn =
      let both = half_frames jb next a b e n hn in
      (
        ap (map (λ (f : JitterFrame). f.seq_num)) both,
        λ o. let swapped = subst (IsOrdered next) both o in absurd (omega arith),
      )
