-- ===== src/Session/Playout/Peers.antt =====
-- Which jitter buffers a playout of vc-core/src/lib.rs advances.
use voicechat.Base.{
  ℕ, List, ◌∷◌, [], ◌≡◌, refl, ap, some, none, Option, Bool-cases, Option-cases, inl, inr,
  if◌then◌else◌,
}
use mathlib.Core.Option
use native.Mathlib.Decide.{ℕ_discrete}
use voicechat.Base.Table
use voicechat.Base.Floats.{Float64, Float32}
use voicechat.Base.Int.{ℤ}
use voicechat.Codec.{Opus}
use voicechat.Jitter
use voicechat.Peer.{RemotePeer, PeerManager, get_peer, is_connected}
use voicechat.Session.Playout.{play_all, play_peers, play_peer, frame_or_plc}

module _ (fl : Float64) (fl32 : Float32) (op : Opus) where
  -- Playing a peer changes its jitter buffer and its decoder.
  frame_or_plc_keeps :
      (popped : Option (List ℤ)) (p : RemotePeer fl op)
      → let after = (frame_or_plc fl fl32 op popped p).1 in
        (after.id ≡ p.id) × (after.addr ≡ p.addr) × (after.jitter_buffer ≡ p.jitter_buffer)
  unfolding frame_or_plc
  frame_or_plc_keeps none p = (refl, refl, refl)
  frame_or_plc_keeps (some pcm) p = (refl, refl, refl)

  pub play_peer_lem :
      (p : RemotePeer fl op)
      → let after = (play_peer fl fl32 op p).1 in
        (after.id ≡ p.id)
        × (after.addr ≡ p.addr)
        × (after.jitter_buffer
            ≡ (if is_connected fl op p then (Jitter.pop fl p.jitter_buffer).1 else p.jitter_buffer))
  unfolding play_peer
  play_peer_lem p = elim (Bool-cases (is_connected fl op p)) [
    | inl plays ↦ rw plays (frame_or_plc_keeps _ _)
    | inr silent ↦ rw silent (refl, refl, refl)
  ]

  pub play_peers-map_values :
      (m : List (ℕ × RemotePeer fl op))
      → (play_peers fl fl32 op m).1
        ≡ Table.map_values ℕ_discrete (λ p. (play_peer fl fl32 op p).1) m
  unfolding play_peers Table.map_values
  play_peers-map_values [] = refl
  play_peers-map_values ((k, p) ∷ m) =
      ap (λ rest. (k, (play_peer fl fl32 op p).1) ∷ rest) (play_peers-map_values m)

  -- A playout takes one frame from the jitter buffer of every connected peer, and leaves the buffers of
  -- all other peers as they are; no peer comes or goes.
  pub play_all-get_peer :
      (pm : PeerManager fl op) (i : ℕ)
      → Option.map (λ p. p.jitter_buffer) (get_peer fl op (play_all fl fl32 op pm).1 i)
        ≡ Option.map
            (λ p.
              if is_connected fl op p then (Jitter.pop fl p.jitter_buffer).1 else p.jitter_buffer)
            (get_peer fl op pm i)
  unfolding play_all get_peer
  play_all-get_peer pm i =
      let played = Table.get-map_values ℕ_discrete i (λ p. (play_peer fl fl32 op p).1) pm.peers in
      rw (play_peers-map_values pm.peers, played)
        (elim (Option-cases (Table.get ℕ_discrete i pm.peers)) [
          | inl absent ↦ rw absent refl
          | inr (p, known) ↦ rw known (ap some (play_peer_lem p).2)
        ])
