-- ===== src/Session/Frames.antt =====
-- The loops of vc-core/src/lib.rs that cut samples into frames of 120: the `while` loop that drains
-- the captured samples, and the chunks of a denoised block.
use voicechat.Base.{
  ℕ, zero, suc, ◌*◌, ◌/◌, ◌≤◌, ◌<◌, List, ◌∷◌, [], ◌++◌, ◌≡◌, refl, ap, ◌∙◌, sym, length,
  length-drop, take, drop, drop-drop, ltb, if◌then◌else◌, Bool-cases, arith, false, inl, inr,
}
use voicechat.Codec.{frame_samples}

take-length : {A : Type 0} (xs : List A) → take (length xs) xs ≡ xs
take-length [] = refl
take-length (x ∷ xs) = ap (λ ys. x ∷ ys) (take-length xs)

ltb_whole :
    {A : Type 0} (samples : List A)
    → frame_samples ≤ length samples
    → ltb (length samples) frame_samples ≡ false
ltb_whole samples h = ground arith

module _ {A C O : Type 0} (body : List A → C → List O × C) where
  -- While a whole frame is there it is cut off and given to the body, whose outputs are collected.
  -- What is left comes last. The fuel is a bound on the number of frames.
  unfoldable pub frames : ℕ → List A → C → List O × C × List A
  frames zero samples c = ([], c, samples)
  frames (suc n) samples c =
      let (out, c') = body (take frame_samples samples) c in
      let (rest, last, left) = frames n (drop frame_samples samples) c' in
      if ltb (length samples) frame_samples then ([], c, samples) else (out ++ rest, last, left)

  -- With a whole frame there, one is cut off.
  pub frames_next :
      (n : ℕ) (samples : List A) (c : C)
      → frame_samples ≤ length samples
      → let next = body (take frame_samples samples) c in
        let rest = frames n (drop frame_samples samples) next.1 in
        frames (suc n) samples c ≡ (next.0 ++ rest.0, rest.1, rest.2)
  unfolding frames
  frames_next n samples c h =
      let whole : ltb (length samples) frame_samples ≡ false = ltb_whole samples h in rw whole refl

  -- One frame, whole.
  pub frames_one :
      (samples : List A) (c : C)
      → length samples ≡ frame_samples
      → let out = body samples c in
        frames 1 samples c ≡ (out.0 ++ [], out.1, drop frame_samples samples)
  frames_one samples c size =
      let whole : take frame_samples samples ≡ samples =
        ap (λ n. take n samples) (sym size) ∙ take-length samples in
      frames_next 0 samples c (omega arith)
      ∙ ap
          (λ (xs : List A).
            let out = body xs c in
            let rest = frames 0 (drop frame_samples samples) out.1 in
            (out.0 ++ rest.0, rest.1, rest.2))
          whole
      ∙ (unfold frames in refl)

  frames_short :
      (n : ℕ) (samples : List A) (c : C)
      → length samples < frame_samples
      → frames n samples c ≡ ([], c, samples)
  unfolding frames
  frames_short zero samples c h = refl
  frames_short (suc n) samples c h = ground arith

  -- Beyond the number of whole frames more fuel changes nothing.
  pub frames_fuel :
      (q n : ℕ) (samples : List A) (c : C)
      → length samples / frame_samples ≡ q
      → q ≤ n
      → frames n samples c ≡ frames q samples c
  frames_fuel zero n samples c e h =
      frames_short n samples c (omega arith) ∙ sym (frames_short zero samples c (omega arith))
  frames_fuel (suc q) zero samples c e h = absurd (omega arith)
  frames_fuel (suc q) (suc n) samples c e h =
      let next = body (take frame_samples samples) c in
      frames_next n samples c (omega arith)
      ∙ ap (λ (r : List O × C × List A). (next.0 ++ r.0, r.1, r.2))
          (frames_fuel q n (drop frame_samples samples) next.1
            (omega (arith, length-drop frame_samples samples)) (omega arith))
      ∙ sym (frames_next q samples c (omega arith))

  -- What is left is the end of the samples after the whole frames.
  pub frames_left :
      (q : ℕ) (samples : List A) (c : C)
      → length samples / frame_samples ≡ q
      → (frames q samples c).2 ≡ drop (frame_samples * q) samples
  frames_left zero samples c e = ap (λ r. r.2) (frames_short zero samples c (omega arith))
  frames_left (suc q) samples c e =
      let next = body (take frame_samples samples) c in
      ap (λ r. r.2) (frames_next q samples c (omega arith))
      ∙ frames_left q (drop frame_samples samples) next.1
          (omega (arith, length-drop frame_samples samples))
      ∙ drop-drop frame_samples (frame_samples * q) samples
      ∙ ap (λ m. drop m samples) (omega arith)

  -- The loop ends: on any fuel of at least the number of whole frames it returns what it returns on
  -- exactly that many, it leaves the samples after the last whole frame, and they are fewer than a
  -- frame, so that the condition of the loop is false.
  pub frames_end :
      (n : ℕ) (samples : List A) (c : C)
      → length samples / frame_samples ≤ n
      → (frames n samples c ≡ frames (length samples / frame_samples) samples c)
        × ((frames n samples c).2 ≡ drop (frame_samples * (length samples / frame_samples)) samples)
        × (length (frames n samples c).2 < frame_samples)
  frames_end n samples c h =
      let q = length samples / frame_samples in
      let same = frames_fuel q n samples c refl h in
      let left = ap (λ (r : List O × C × List A). r.2) same ∙ frames_left q samples c refl in
      (same, left, omega (arith, ap length left, length-drop (frame_samples * q) samples))

  -- A body that puts out nothing as long as its state is good, and keeps it good.
  pub frames_silent :
      (P : C → Type 0)
      → ((frame : List A) (c : C) → P c → ((body frame c).0 ≡ []) × P (body frame c).1)
      → (n : ℕ) (samples : List A) (c : C) → P c
      → ((frames n samples c).0 ≡ []) × P (frames n samples c).1
  unfolding frames
  frames_silent P quiet zero samples c h = (refl, h)
  frames_silent P quiet (suc n) samples c h =
      let next = body (take frame_samples samples) c in
      let (nothing, good) = quiet (take frame_samples samples) c h in
      let (silent, last) = frames_silent P quiet n (drop frame_samples samples) next.1 good in
      elim (Bool-cases (ltb (length samples) frame_samples)) [
        | inl short ↦ rw short (refl, h)
        | inr whole ↦ rw (whole, nothing) (silent, last)
      ]
