-- ===== src/Jitter/Insertion.antt =====
-- What it is for frames to stand in playout order, and that putting a frame in its place keeps it.
use voicechat.Base.{
  ℕ, ◌*◌, ◌≤◌, ◌<◌, List, ◌∷◌, [], ◌≡◌, ◌≢◌, sym, ◌∙◌, length, ltb, leb, ltb→lt, Bool-cases,
  if◌then◌else◌, false, All, IsU16, arith, inl, inr,
}
use voicechat.Base.Int.{ℤ}
use voicechat.Base.Seq.{position, any, insert, unwrap_or}
use voicechat.Jitter.{max_depth, wrapping_sub, half_u16, JitterFrame, is_after, insert_frame, new}
use voicechat.Jitter.Frames.{present}

-- Every frame is less than half the number circle after `base`, each further than the one before.
abbrev pub IsOrdered : ℕ → List JitterFrame → Type 0
IsOrdered base [] = Unit {0}
IsOrdered base (f ∷ fs) =
    IsU16 f.seq_num
    × (wrapping_sub f.seq_num base < half_u16)
    × All (λ g. wrapping_sub f.seq_num base < wrapping_sub g.seq_num base) fs
    × IsOrdered base fs

is_after_lem :
    (base k : ℕ) (f : JitterFrame)
    → IsU16 base
    → IsU16 k
    → IsU16 f.seq_num
    → wrapping_sub k base < half_u16
    → wrapping_sub f.seq_num base < half_u16
    → is_after k f ≡ ltb (wrapping_sub k base) (wrapping_sub f.seq_num base)
unfolding is_after wrapping_sub
is_after_lem base k f hb hk hf dk df = ground arith

abbrev place : JitterFrame → List JitterFrame → List JitterFrame
place x fs = insert (unwrap_or (position (is_after x.seq_num) fs) (length fs)) x fs

place_cons :
    (x f : JitterFrame) (fs : List JitterFrame)
    → place x (f ∷ fs) ≡ (if is_after x.seq_num f then x ∷ f ∷ fs else f ∷ place x fs)
unfolding position insert
place_cons x f fs = ground arith

All-place {κ} :
    (P : JitterFrame → Type κ) (x : JitterFrame) (fs : List JitterFrame)
    → P x
    → All P fs
    → All P (place x fs)
All-place P x [] px h = unfold position insert in (px, h)
All-place P x (f ∷ fs) px h = elim (Bool-cases (is_after x.seq_num f)) [
  | inl after ↦ rw (place_cons x f fs) (rw after (px, h))
  | inr before ↦ rw (place_cons x f fs) (rw before (h.0, All-place P x fs px h.1))
]

pub All-further :
    (base m n : ℕ) (fs : List JitterFrame)
    → m ≤ n
    → All (λ g. n < wrapping_sub g.seq_num base) fs
    → All (λ g. m < wrapping_sub g.seq_num base) fs
All-further base m n [] h a = tt
All-further base m n (f ∷ fs) h a = (omega arith, All-further base m n fs h a.1)

same_distance :
    (base a b : ℕ)
    → IsU16 base
    → IsU16 a
    → IsU16 b
    → wrapping_sub a base ≡ wrapping_sub b base
    → a ≡ b
unfolding wrapping_sub
same_distance base a b h ha hb e = ground arith

place-IsOrdered :
    (base : ℕ) (x : JitterFrame) (fs : List JitterFrame)
    → IsU16 base
    → IsU16 x.seq_num
    → wrapping_sub x.seq_num base < half_u16
    → present x.seq_num fs ≡ false
    → IsOrdered base fs
    → IsOrdered base (place x fs)
place-IsOrdered base x [] hb hx d new o = unfold position insert in (hx, d, tt, tt)
place-IsOrdered base x (f ∷ fs) hb hx d new o =
    let test = is_after_lem base x.seq_num f hb hx o.0 d o.1 in
    elim (Bool-cases (is_after x.seq_num f)) [
      | inl after ↦
          let nearer : wrapping_sub x.seq_num base < wrapping_sub f.seq_num base =
            ltb→lt _ _ (sym test ∙ after) in
          rw (place_cons x f fs)
            (rw after (hx, d, (nearer, All-further base _ _ fs (omega arith) o.2), o))
      | inr before ↦
          let other : f.seq_num ≢ x.seq_num = unfold any in ground arith in
          let further : wrapping_sub f.seq_num base < wrapping_sub x.seq_num base =
            ground (arith, sym test ∙ before, same_distance base f.seq_num x.seq_num hb o.0 hx) in
          rw (place_cons x f fs) (
            rw before (
              o.0,
              o.1,
              All-place _ x fs further o.2,
              place-IsOrdered base x fs hb hx d (unfold any in ground arith) o.3,
            ))
    ]

pub insert_frame-IsOrdered :
    (base k : ℕ) (pcm : List ℤ) (fs : List JitterFrame)
    → IsU16 base
    → IsU16 k
    → wrapping_sub k base < half_u16
    → IsOrdered base fs
    → IsOrdered base (insert_frame fs k pcm)
unfolding insert_frame
insert_frame-IsOrdered base k pcm fs hb hk d o =
    let x : JitterFrame = record { seq_num = k; pcm = pcm } in
    elim (Bool-cases (present k fs)) [
      | inl old ↦ rw old o
      | inr new ↦ elim (Bool-cases (leb (max_depth * 2) (length fs))) [
        | inl full ↦ rw (new, full) o
        | inr room ↦ rw (new, room) (place-IsOrdered base x fs hb hk d new o)
      ]
    ]
