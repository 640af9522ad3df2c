-- ===== src/Dsp/Stream.antt =====
-- The noise suppressor over any frames: the same as blocks of 480 samples cut from the whole.
use voicechat.Base.{
  ℕ, zero, suc, ◌/◌, ◌≤◌, ◌<◌, List, ◌∷◌, [], ◌++◌, ◌≡◌, refl, sym, ap, ◌∙◌, length, length-append,
  length-drop, take, drop, some, none, Option, leb, map, Bool-cases, true, false, All, arith, inl,
  inr,
}
use mathlib.Core.List.{append_assoc, append-nil}
use voicechat.Base.Floats.{Float32}
use voicechat.Dsp.{
  denoise_frame_size, Denoiser, NoiseSuppressor, process_block, take_output, process,
}

module _ {A : Type 0} where
  take_within : (n : ℕ) (xs ys : List A) → n ≤ length xs → take n (xs ++ ys) ≡ take n xs
  take_within zero xs ys h = refl
  take_within (suc n) [] ys h = absurd (omega arith)
  take_within (suc n) (x ∷ xs) ys h = ap (◌∷◌ x) (take_within n xs ys (omega arith))

  drop_within : (n : ℕ) (xs ys : List A) → n ≤ length xs → drop n (xs ++ ys) ≡ drop n xs ++ ys
  drop_within zero xs ys h = refl
  drop_within (suc n) [] ys h = absurd (omega arith)
  drop_within (suc n) (x ∷ xs) ys h = drop_within n xs ys (omega arith)

  -- Some frames, one behind the other.
  unfoldable pub joined_up : List (List A) → List A
  joined_up [] = []
  joined_up (f ∷ fs) = f ++ joined_up fs

  unfoldable pub handed_out : Option (List A) → List A
  handed_out none = []
  handed_out (some xs) = xs

module _ (fl : Float32) (dn : Denoiser fl) where
  open fl use {F32, literal, mul, div}

  -- The first `n` blocks of 480 samples, denoised one after the other by the crate, the crate's state
  -- then, and the samples behind them.
  unfoldable pub blocks : ℕ → dn.State → List F32 → List F32 × dn.State × List F32
  blocks zero s xs = ([], s, xs)
  blocks (suc n) s xs =
      let (s', block, prob) =
        dn.process_frame s (map (λ x. mul x (literal 32768 0)) (take 480 xs)) in
      let (outs, last, rest) = blocks n s' (drop 480 xs) in
      (map (λ x. div x (literal 32768 0)) block ++ outs, last, rest)

  -- `process` of one frame after the other: what is handed out, and the suppressor afterwards.
  unfoldable pub process_all :
      NoiseSuppressor fl dn → List (List F32) → List F32 × NoiseSuppressor fl dn
  process_all ns [] = ([], ns)
  process_all ns (f ∷ fs) =
      let (out, ns') = process fl dn ns f in
      let (outs, last) = process_all ns' fs in (handed_out out ++ outs, last)

  -- Enabled, with less than a block waiting and nothing that is done.
  pub record IsIdle (ns : NoiseSuppressor fl dn) : Type 0 where
    pub waiting : length ns.accum < denoise_frame_size
    pub emptied : ns.output_buf ≡ []
    pub on : ns.enabled ≡ true

  -- What a call hands out, and the crate's state and the samples waiting after it.
  abbrev after_call : Option (List F32) × NoiseSuppressor fl dn → List F32 × dn.State × List F32
  after_call (out, ns) = (handed_out out, ns.state, ns.accum)

  take_output_lem :
      (ns : NoiseSuppressor fl dn) (buf : List F32)
      → ns.output_buf ≡ buf
      → ns.enabled ≡ true
      → length ns.accum < 480
      → (after_call (take_output fl dn ns buf) ≡ (buf, ns.state, ns.accum))
        × IsIdle (take_output fl dn ns buf).1
  unfolding take_output handed_out
  take_output_lem ns [] e on short = (refl, record { waiting = short; emptied = e; on = on })
  take_output_lem ns (x ∷ xs) e on short =
      (refl, record { waiting = short; emptied = refl; on = on })

  module _ (ns : NoiseSuppressor fl dn) (f : List F32) (v : IsIdle ns) where
    abbrev fed : NoiseSuppressor fl dn
    fed = record ns { accum = ns.accum ++ f }

    process_short :
        length (ns.accum ++ f) < 480
        → (after_call (process fl dn ns f) ≡ ([], ns.state, ns.accum ++ f))
          × IsIdle (process fl dn ns f).1
    unfolding process
    process_short short =
        let few : leb 480 (length (ns.accum ++ f)) ≡ false = ground arith in
        rw (v.on, few)
          (let (same, idle) =
              take_output_lem (record fed { enabled = true }) ns.output_buf refl refl short in
            (same ∙ ap (λ buf. (buf, ns.state, ns.accum ++ f)) v.emptied, idle))

    process_full :
        480 ≤ length (ns.accum ++ f)
        → length f ≤ 480
        → (after_call (process fl dn ns f) ≡ blocks 1 ns.state (ns.accum ++ f))
          × IsIdle (process fl dn ns f).1
    unfolding process process_block blocks
    process_full full h =
        let enough : leb 480 (length (ns.accum ++ f)) ≡ true = ground arith in
        let done = process_block fl dn (record fed { enabled = true }) in
        let block =
          map (λ x. div x (literal 32768 0))
            (dn.process_frame ns.state
              (map (λ x. mul x (literal 32768 0)) (take 480 (ns.accum ++ f)))).1 in
        let short : length (drop 480 (ns.accum ++ f)) < 480 =
          omega (arith, v.waiting, length-drop 480 (ns.accum ++ f), length-append ns.accum f) in
        rw (v.on, enough)
          (let (same, idle) = take_output_lem done done.output_buf refl refl short in
            (
              same
                  ∙ ap (λ buf. (buf, done.state, done.accum))
                      (ap (λ buf. buf ++ block) v.emptied ∙ sym (append-nil block)),
              idle,
            ))

  -- What is handed out so far, and then the blocks of what waits and of what comes.
  abbrev followed : List F32 → List F32 × dn.State × List F32 → List F32 × dn.State × List F32
  followed coming (out, s, waiting) =
      let total = waiting ++ coming in
      let (outs, last, rest) = blocks (length total / 480) s total in (out ++ outs, last, rest)

  followed_full :
      (s : dn.State) (xs coming : List F32)
      → 480 ≤ length xs
      → followed coming (blocks 1 s xs) ≡ blocks (length (xs ++ coming) / 480) s (xs ++ coming)
  unfolding blocks
  followed_full s xs coming full =
      let behind = drop 480 xs ++ coming in
      let one_more : suc (length behind / 480) ≡ length (xs ++ coming) / 480 =
        omega (
          arith,
          length-append xs coming,
          length-append (drop 480 xs) coming,
          length-drop 480 xs,
        ) in
      let next = dn.process_frame s (map (λ x. mul x (literal 32768 0)) (take 480 xs)) in
      let block = map (λ x. div x (literal 32768 0)) next.1 in
      let (outs, last, rest) = blocks (length behind / 480) next.0 behind in
      ap (λ b. (b ++ outs, last, rest)) (append-nil block)
      ∙ ap
          (λ (c : List F32 × List F32).
            let s' = dn.process_frame s (map (λ x. mul x (literal 32768 0)) c.0) in
            let (outs, last, rest) = blocks (length behind / 480) s'.0 c.1 in
            (map (λ x. div x (literal 32768 0)) s'.1 ++ outs, last, rest))
          (λ i. (sym (take_within 480 xs coming full) i, sym (drop_within 480 xs coming full) i))
      ∙ ap (λ n. blocks n s (xs ++ coming)) one_more

  process_after :
      (ns : NoiseSuppressor fl dn) (f coming : List F32)
      → IsIdle ns
      → length f ≤ 480
      → let total = ns.accum ++ (f ++ coming) in
        (followed coming (after_call (process fl dn ns f))
          ≡ blocks (length total / 480) ns.state total)
        × IsIdle (process fl dn ns f).1
  process_after ns f coming v h =
      let whole =
        ap (λ total. blocks (length total / 480) ns.state total) (append_assoc ns.accum f coming) in
      elim (Bool-cases (leb 480 (length (ns.accum ++ f)))) [
        | inl full ↦
            let (e, idle) = process_full ns f v (ground arith) h in
            (
              ap (followed coming) e
                  ∙ followed_full ns.state (ns.accum ++ f) coming (ground arith)
                  ∙ whole,
              idle,
            )
        | inr few ↦
            let (e, idle) = process_short ns f v (ground arith) in
            (ap (followed coming) e ∙ whole, idle)
      ]

  -- An enabled suppressor that has less than a block waiting and is given any number of frames of at
  -- most 480 samples: all that it hands out is the whole blocks of 480 samples of what waited and came, in
  -- order, each denoised by the crate in the state that the block before left; the samples behind the
  -- last whole block are those that wait then, again less than a block, and nothing else is kept back.
  pub process_all-conserves :
      (frames : List (List F32)) (ns : NoiseSuppressor fl dn)
      → IsIdle ns
      → All (λ f. length f ≤ 480) frames
      → let (outs, last) = process_all ns frames in
        let total = ns.accum ++ joined_up frames in
        ((outs, last.state, last.accum) ≡ blocks (length total / 480) ns.state total) × IsIdle last
  unfolding process_all joined_up
  process_all-conserves [] ns v h =
      let none_whole : length (ns.accum ++ []) / 480 ≡ 0 =
        omega (arith, v.waiting, length-append ns.accum []) in
      (
        rw none_whole (unfold blocks in ap (λ xs. ([], ns.state, xs)) (sym (append-nil ns.accum))),
        v,
      )
  process_all-conserves (f ∷ frames) ns v h =
      let (e, idle) = process_after ns f (joined_up frames) v h.0 in
      let (rest, done) = process_all-conserves frames (process fl dn ns f).1 idle h.1 in
      (
        ap
              (λ (r : List F32 × dn.State × List F32).
                (handed_out (process fl dn ns f).0 ++ r.0, r.1, r.2))
              rest
            ∙ e,
        done,
      )
