-- ===== src/Jitter/Frames.antt =====
-- What the buffer holds under each sequence number, and how inserting and taking change it.
use voicechat.Base.{
  ℕ, zero, suc, ◌≤◌, List, ◌∷◌, [], ◌≡◌, ◌≢◌, refl, length, some, none, Option, ltb, ◌==◌,
  if◌then◌else◌, Bool, true, false, not, ◌&&◌, arith,
}
use voicechat.Base.Int.{ℤ}
use voicechat.Base.Seq.{position, any, insert, remove, unwrap_or, length-insert}
use voicechat.Jitter.{JitterFrame, is_after, insert_frame, take_frame}

-- The samples stored under a sequence number.
unfoldable pub lookup : ℕ → List JitterFrame → Option (List ℤ)
lookup k [] = none
lookup k (f ∷ fs) = if f.seq_num == k then some f.pcm else lookup k fs

-- No sequence number twice.
abbrev pub IsDistinct : List JitterFrame → Type 0
IsDistinct [] = Unit {0}
IsDistinct (f ∷ fs) = (lookup f.seq_num fs ≡ none) × IsDistinct fs

abbrev pub present : ℕ → List JitterFrame → Bool
present k = any (λ f. f.seq_num == k)

pub present-lookup : (k : ℕ) (fs : List JitterFrame) → present k fs ≡ false → lookup k fs ≡ none
unfolding any lookup
present-lookup k [] h = refl
present-lookup k (f ∷ fs) h = ground (arith, present-lookup k fs)

pub lookup-present : (k : ℕ) (fs : List JitterFrame) → present k fs ≡ true → lookup k fs ≢ none
unfolding any lookup
lookup-present k [] h = cc
lookup-present k (f ∷ fs) h = ground (arith, lookup-present k fs)

pub take_frame_cons :
    (f : JitterFrame) (fs : List JitterFrame) (k : ℕ)
    → take_frame (f ∷ fs) k ≡ (
        if f.seq_num == k then (some f.pcm, fs) else ((take_frame fs k).0, f ∷ (take_frame fs k).1))
unfolding take_frame position remove
take_frame_cons f fs k = ground arith

-- Taking returns what is stored under the number, and removes that and nothing else.
pub take_frame_played : (fs : List JitterFrame) (k : ℕ) → (take_frame fs k).0 ≡ lookup k fs
unfolding lookup
take_frame_played [] k = unfold take_frame position in refl
take_frame_played (f ∷ fs) k = rw take_frame_cons (ground (arith, take_frame_played fs k))

pub lookup-take_frame :
    (fs : List JitterFrame) (k j : ℕ)
    → IsDistinct fs
    → lookup j (take_frame fs k).1 ≡ (if k == j then none else lookup j fs)
unfolding lookup
lookup-take_frame [] k j d = unfold take_frame position in ground arith
lookup-take_frame (f ∷ fs) k j d = rw take_frame_cons (ground (arith, lookup-take_frame fs k j d.1))

pub take_frame-IsDistinct :
    (fs : List JitterFrame) (k : ℕ) → IsDistinct fs → IsDistinct (take_frame fs k).1
unfolding lookup
take_frame-IsDistinct [] k d = unfold take_frame position in tt
take_frame-IsDistinct (f ∷ fs) k d =
    rw take_frame_cons
      (ground (arith, take_frame-IsDistinct fs k d.1, lookup-take_frame fs k f.seq_num d.1))

pub length-take_frame-le : (fs : List JitterFrame) (k : ℕ) → length (take_frame fs k).1 ≤ length fs
length-take_frame-le [] k = unfold take_frame position in omega arith
length-take_frame-le (f ∷ fs) k = rw take_frame_cons (ground (arith, length-take_frame-le fs k))

pub lookup-insert :
    (i : ℕ) (x : JitterFrame) (fs : List JitterFrame) (j : ℕ)
    → lookup x.seq_num fs ≡ none
    → lookup j (insert i x fs) ≡ (if x.seq_num == j then some x.pcm else lookup j fs)
unfolding lookup insert
lookup-insert zero x fs j h = refl
lookup-insert (suc i) x [] j h = refl
lookup-insert (suc i) x (f ∷ fs) j h = ground (arith, lookup-insert i x fs j)

pub insert-IsDistinct :
    (i : ℕ) (x : JitterFrame) (fs : List JitterFrame)
    → lookup x.seq_num fs ≡ none
    → IsDistinct fs
    → IsDistinct (insert i x fs)
unfolding lookup insert
insert-IsDistinct zero x fs h d = (h, d)
insert-IsDistinct (suc i) x [] h d = (refl, tt)
insert-IsDistinct (suc i) x (f ∷ fs) h d =
    ground (arith, insert-IsDistinct i x fs, lookup-insert i x fs f.seq_num)

-- A new frame is stored if its number is not there yet and there are fewer than eight frames.
pub lookup-insert_frame :
    (fs : List JitterFrame) (k : ℕ) (pcm : List ℤ) (j : ℕ)
    → lookup j (insert_frame fs k pcm)
      ≡ (if not (present k fs) && (ltb (length fs) 8 && k == j) then some pcm else lookup j fs)
unfolding insert_frame
lookup-insert_frame fs k pcm j = ground (
  arith,
  present-lookup k fs,
  lookup-insert (unwrap_or (position (is_after k) fs) (length fs))
      (record { seq_num = k; pcm = pcm }) fs j,
)

pub insert_frame-IsDistinct :
    (fs : List JitterFrame) (k : ℕ) (pcm : List ℤ)
    → IsDistinct fs
    → IsDistinct (insert_frame fs k pcm)
unfolding insert_frame
insert_frame-IsDistinct fs k pcm d = ground (
  arith,
  present-lookup k fs,
  insert-IsDistinct (unwrap_or (position (is_after k) fs) (length fs))
      (record { seq_num = k; pcm = pcm }) fs,
)

pub length-insert_frame :
    (fs : List JitterFrame) (k : ℕ) (pcm : List ℤ)
    → length fs ≤ 8
    → length (insert_frame fs k pcm) ≤ 8
unfolding insert_frame
length-insert_frame fs k pcm h = ground (
  arith,
  length-insert (unwrap_or (position (is_after k) fs) (length fs))
      (record { seq_num = k; pcm = pcm }) fs,
)
