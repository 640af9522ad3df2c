-- ===== src/Mixer.antt =====
-- vc-core/src/mixer.rs: the peers' frames summed into one.
use voicechat.Base.{
  ℕ, zero, suc, List, ◌∷◌, [], ◌≡◌, refl, ap, ◌∙◌, length, get_elem?, some, none, ltb, map,
  if◌then◌else◌, arith,
}
use mathlib.Core.Option
use voicechat.Base.Floats.{Float32}

module _ (fl : Float32) where
  open fl use {F32, literal, neg, add, clamp, tanh}

  -- `output[i] += buf[i]` for every `i` below both lengths.
  unfoldable pub add_into : List F32 → List F32 → List F32
  add_into [] buf = []
  add_into (o ∷ output) [] = o ∷ output
  add_into (o ∷ output) (b ∷ buf) = add o b ∷ add_into output buf

  -- The loop over the peers.
  unfoldable pub sum_peers : List (List F32) → List F32 → List F32
  sum_peers [] output = output
  sum_peers (buf ∷ bufs) output = sum_peers bufs (add_into output buf)

  unfoldable pub mix_peers : List (List F32) → List F32 → List F32
  mix_peers peer_buffers output =
      map (λ s. clamp s (neg (literal 1 0)) (literal 1 0))
        (sum_peers peer_buffers (map (λ s. literal 0 0) output))

  unfoldable pub mix_peers_soft : List (List F32) → List F32 → List F32
  mix_peers_soft peer_buffers output =
      map tanh (sum_peers peer_buffers (map (λ s. literal 0 0) output))

  -- The specification: one position, its samples added in the order of the peers.
  pub total_at : ℕ → List (List F32) → F32 → F32
  total_at i [] acc = acc
  total_at i (buf ∷ bufs) acc =
      total_at i bufs (elim (get_elem? buf i) [ none ↦ acc | some b ↦ add acc b ])

  get_elem?-map {ℓ κ} :
      {A : Type ℓ} {B : Type κ} (f : A → B) (xs : List A) (i : ℕ)
      → get_elem? (map f xs) i ≡ Option.map f (get_elem? xs i)
  get_elem?-map f [] i = refl
  get_elem?-map f (x ∷ xs) zero = refl
  get_elem?-map f (x ∷ xs) (suc i) = get_elem?-map f xs i

  add_into-at :
      (output buf : List F32) (i : ℕ)
      → get_elem? (add_into output buf) i
        ≡ Option.map
            (λ o. elim (get_elem? buf i) [ none ↦ o | some b ↦ add o b ])
            (get_elem? output i)
  unfolding add_into
  add_into-at [] buf i = refl
  add_into-at (o ∷ output) [] zero = refl
  add_into-at (o ∷ output) [] (suc i) = ground (arith, add_into-at output [] i)
  add_into-at (o ∷ output) (b ∷ buf) zero = refl
  add_into-at (o ∷ output) (b ∷ buf) (suc i) = add_into-at output buf i

  sum_peers-at :
      (bufs : List (List F32)) (output : List F32) (i : ℕ)
      → get_elem? (sum_peers bufs output) i ≡ Option.map (total_at i bufs) (get_elem? output i)
  unfolding sum_peers total_at
  sum_peers-at [] output i = ground arith
  sum_peers-at (buf ∷ bufs) output i =
      ground (arith, sum_peers-at bufs (add_into output buf) i, add_into-at output buf i)

  zeros-at :
      (output : List F32) (i : ℕ)
      → get_elem? (map (λ s. literal 0 0) output) i
        ≡ (if ltb i (length output) then some (literal 0 0) else none)
  zeros-at [] i = ground arith
  zeros-at (o ∷ output) zero = ground arith
  zeros-at (o ∷ output) (suc i) = ground (arith, zeros-at output i)

  -- At every position of the output both mixers put the sum of the samples that the peers have
  -- there, in the order of the peers and from zero: clamped to [-1, 1] by the one, through tanh by
  -- the other. Nothing of the old output is left, and its length is kept.
  pub mix_peers-at :
      (bufs : List (List F32)) (output : List F32) (i : ℕ)
      → (get_elem? (mix_peers bufs output) i ≡ (
          if ltb i (length output)
          then some (clamp (total_at i bufs (literal 0 0)) (neg (literal 1 0)) (literal 1 0))
          else none))
        × (get_elem? (mix_peers_soft bufs output) i
            ≡ (if ltb i (length output) then some (tanh (total_at i bufs (literal 0 0))) else none))
  unfolding mix_peers mix_peers_soft
  mix_peers-at bufs output i =
      let zeros = map (λ (s : F32). literal 0 0) output in
      let summed =
        sum_peers-at bufs zeros i ∙ ap (Option.map (total_at i bufs)) (zeros-at output i) in
      ground (
        arith,
        summed,
        get_elem?-map (λ s. clamp s (neg (literal 1 0)) (literal 1 0)) (sum_peers bufs zeros) i,
        get_elem?-map tanh (sum_peers bufs zeros) i,
      )
