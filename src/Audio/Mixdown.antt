-- ===== src/Audio/Mixdown.antt =====
-- The playout callback of vc-core/src/audio.rs, sample by sample.
use voicechat.Base.{
  ℕ, zero, suc, ◌+◌, ◌*◌, ◌/◌, ◌<◌, List, ◌∷◌, [], ◌++◌, ◌≡◌, refl, sym, ap, ◌∙◌, length,
  length-append, length-replicate, take, drop, replicate, some, none, Option, get_elem?, arith,
  true, false, ◌==◌, Bool-cases, inl, inr,
}
use voicechat.Base.Floats.{Float32}
use voicechat.Audio.{padded, duplicate, playout_callback}

module _ {A : Type 0} where
  get_elem?-append_left :
      (xs ys : List A) (i : ℕ) → i < length xs → get_elem? (xs ++ ys) i ≡ get_elem? xs i
  get_elem?-append_left [] ys i h = absurd (omega arith)
  get_elem?-append_left (x ∷ xs) ys zero h = refl
  get_elem?-append_left (x ∷ xs) ys (suc i) h = get_elem?-append_left xs ys i (omega arith)

  get_elem?-append_right :
      (xs ys : List A) (n i : ℕ) → n ≡ length xs → get_elem? (xs ++ ys) (n + i) ≡ get_elem? ys i
  get_elem?-append_right [] ys zero i e = ap (get_elem? ys) (omega arith)
  get_elem?-append_right [] ys (suc n) i e = absurd (omega arith)
  get_elem?-append_right (x ∷ xs) ys zero i e = absurd (omega arith)
  get_elem?-append_right (x ∷ xs) ys (suc n) i e =
      let next : suc n + i ≡ suc (n + i) = omega arith in
      ap (get_elem? (x ∷ (xs ++ ys))) next ∙ get_elem?-append_right xs ys n i (omega arith)

  get_elem?-replicate : (n : ℕ) (a : A) (i : ℕ) → i < n → get_elem? (replicate n a) i ≡ some a
  get_elem?-replicate zero a i h = absurd (omega arith)
  get_elem?-replicate (suc n) a zero h = refl
  get_elem?-replicate (suc n) a (suc i) h = get_elem?-replicate n a i (omega arith)

  get_elem?-take : (n : ℕ) (xs : List A) (i : ℕ) → i < n → get_elem? (take n xs) i ≡ get_elem? xs i
  get_elem?-take zero xs i h = absurd (omega arith)
  get_elem?-take (suc n) [] i h = refl
  get_elem?-take (suc n) (x ∷ xs) zero h = refl
  get_elem?-take (suc n) (x ∷ xs) (suc i) h = get_elem?-take n xs i (omega arith)

frame_fits : (c frames j ch : ℕ) → ch < c → j < frames → j * c + ch < frames * c
frame_fits c zero j ch h b = absurd (omega arith)
frame_fits c (suc frames) zero ch h b = omega arith
frame_fits c (suc frames) (suc j) ch h b = omega (arith, frame_fits c frames j ch h (omega arith))

module _ (fl32 : Float32) where
  open fl32 use {F32, literal}

  -- A sample of the ring, or silence.
  pub sample_or_zero : Option F32 → F32
  sample_or_zero none = literal 0 0
  sample_or_zero (some x) = x

  padded-at :
      (n : ℕ) (xs : List F32) (i : ℕ)
      → i < n
      → get_elem? (padded fl32 n xs) i ≡ some (sample_or_zero (get_elem? xs i))
  unfolding padded sample_or_zero
  padded-at n [] i h = get_elem?-replicate n (literal 0 0) i h
  padded-at zero (x ∷ xs) i h = absurd (omega arith)
  padded-at (suc n) (x ∷ xs) zero h = refl
  padded-at (suc n) (x ∷ xs) (suc i) h = padded-at n xs i (omega arith)

  length-padded : (n : ℕ) (xs : List F32) → length (padded fl32 n xs) ≡ n
  unfolding padded
  length-padded n [] = length-replicate n (literal 0 0)
  length-padded zero (x ∷ xs) = refl
  length-padded (suc n) (x ∷ xs) = ap suc (length-padded n xs)

  length-duplicate : (c : ℕ) (xs : List F32) → length (duplicate fl32 c xs) ≡ length xs * c
  unfolding duplicate
  length-duplicate c [] = omega arith
  length-duplicate c (x ∷ xs) =
      length-append (replicate c x) (duplicate fl32 c xs)
      ∙ omega (arith, length-replicate c x, length-duplicate c xs)

  duplicate-at :
      (c : ℕ) (xs : List F32) (j ch : ℕ) (x : F32)
      → ch < c
      → get_elem? xs j ≡ some x
      → get_elem? (duplicate fl32 c xs) (j * c + ch) ≡ some x
  unfolding duplicate
  duplicate-at c [] j ch x h e = absurd (ground arith)
  duplicate-at c (y ∷ xs) zero ch x h e =
      ap (get_elem? (replicate c y ++ duplicate fl32 c xs)) (omega arith)
      ∙ get_elem?-append_left (replicate c y) (duplicate fl32 c xs) ch
          (omega (arith, length-replicate c y))
      ∙ get_elem?-replicate c y ch h
      ∙ e
  duplicate-at c (y ∷ xs) (suc j) ch x h e =
      ap (get_elem? (replicate c y ++ duplicate fl32 c xs)) (omega arith)
      ∙ get_elem?-append_right (replicate c y) (duplicate fl32 c xs) c (j * c + ch)
          (sym (length-replicate c y))
      ∙ duplicate-at c xs j ch x h e

  -- One position of the buffer: a whole frame holds in all its channels the sample of the ring that
  -- comes with the frame, or silence.
  whole_frame :
      (c frames : ℕ) (ring tail : List F32) (j ch : ℕ)
      → ch < c
      → j < frames
      → get_elem? (duplicate fl32 c (padded fl32 frames (take frames ring)) ++ tail) (j * c + ch)
        ≡ some (sample_or_zero (get_elem? ring j))
  whole_frame c frames ring tail j ch in_frame before =
      let bufs = padded fl32 frames (take frames ring) in
      let size : length (duplicate fl32 c bufs) ≡ frames * c =
        length-duplicate c bufs ∙ ap (λ n. n * c) (length-padded frames (take frames ring)) in
      get_elem?-append_left (duplicate fl32 c bufs) tail (j * c + ch)
        (omega (arith, size, frame_fits c frames j ch in_frame before))
      ∙ duplicate-at c bufs j ch _ in_frame (
          padded-at frames (take frames ring) j before
          ∙ ap (λ s. some (sample_or_zero s)) (get_elem?-take frames ring j before))

  one_channel :
      (ring buffer : List F32) (j ch : ℕ)
      → ch < 1
      → j < length buffer / 1
      → (get_elem? (padded fl32 (length buffer) (take (length buffer) ring)) (j * 1 + ch)
          ≡ some (sample_or_zero (get_elem? ring j)))
        × (drop (length buffer) ring ≡ drop (length buffer / 1) ring)
  one_channel ring buffer j ch in_frame before =
      let n = length buffer in
      let same : n ≡ n / 1 = omega arith in
      let position : j * 1 + ch ≡ j = omega arith in
      (
        ap (get_elem? (padded fl32 n (take n ring))) position
            ∙ padded-at n (take n ring) j (omega arith)
            ∙ ap (λ s. some (sample_or_zero s)) (get_elem?-take n ring j (omega arith)),
        ap (λ m. drop m ring) same,
      )

  -- What the device plays, sample by sample. On a running stream with any number of channels, the
  -- channels of the j-th whole frame of the buffer all hold the j-th sample of the ring, or silence
  -- when the ring has fewer; and the ring loses as many samples as the buffer has frames. On a stopped
  -- stream the buffer is silent and the ring keeps its samples.
  pub playout_callback-at :
      (channels : ℕ) (ring buffer : List F32) (j ch : ℕ)
      → ch < channels
      → j < length buffer / channels
      → (get_elem? (playout_callback fl32 true channels ring buffer).0 (j * channels + ch)
          ≡ some (sample_or_zero (get_elem? ring j)))
        × ((playout_callback fl32 true channels ring buffer).1
            ≡ drop (length buffer / channels) ring)
        × (playout_callback fl32 false channels ring buffer
            ≡ (replicate (length buffer) (literal 0 0), ring))
  unfolding playout_callback
  playout_callback-at channels ring buffer j ch in_frame before =
      elim (Bool-cases (channels == 1)) [
        | inl single ↦
            let one : channels ≡ 1 = ground arith in
            let at = one_channel ring buffer j ch (omega arith) (rw one at before) in
            rw (one, at.0, at.1) (refl, refl, refl)
        | inr many ↦
            let frames = length buffer / channels in
            rw many (
              whole_frame channels frames ring (drop (frames * channels) buffer) j ch in_frame
                  before,
              refl,
              refl,
            )
      ]
