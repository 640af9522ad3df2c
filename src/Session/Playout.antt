-- ===== src/Session/Playout.antt =====
-- The playout side of `Session::run` of vc-core/src/lib.rs: one frame of every connected peer, mixed
-- for the ring buffer of the output device.
pub mod Peers
use voicechat.Base.{
  ℕ, List, ◌∷◌, [], Result, ok, err, panic, replicate, take, some, none, Option, if◌then◌else◌,
}
use voicechat.Base.Floats.{Float64, Float32}
use voicechat.Base.Int.{ℤ}
use voicechat.Codec.{Opus, frame_samples, i16_to_f32}
use voicechat.Codec
use voicechat.Jitter
use voicechat.Mixer.{mix_peers}
use voicechat.Peer.{RemotePeer, PeerManager, is_connected}

module _ (fl : Float64) (fl32 : Float32) (op : Opus) where
  open fl32 use {F32}

  -- A concealed frame; a failure is logged, and the peer is left out of the mix.
  unfoldable pub concealed : Result (List ℤ) → Option (List F32)
  concealed (ok plc) = some (i16_to_f32 fl32 plc)
  concealed (err e) = none
  concealed panic = none

  -- A frame of the jitter buffer, or concealment by the peer's decoder.
  unfoldable pub frame_or_plc :
      Option (List ℤ) → RemotePeer fl op → Option (List F32) × RemotePeer fl op
  unfolding concealed
  frame_or_plc (some pcm_i16) p = (some (i16_to_f32 fl32 pcm_i16), p)
  frame_or_plc none p =
      let (plc, decoder) = Codec.decode_plc op p.decoder in
      (concealed plc, record p { decoder = decoder })

  -- Only a connected peer is played.
  unfoldable pub play_peer : RemotePeer fl op → Option (List F32) × RemotePeer fl op
  unfolding frame_or_plc
  play_peer p =
      let (popped, jitter_buffer) = Jitter.pop fl p.jitter_buffer in
      if is_connected fl op p
      then frame_or_plc popped (record p { jitter_buffer = jitter_buffer })
      else (none, p)

  -- `peer_bufs.push(..)` of a peer that has a frame.
  unfoldable pub push_some : Option (List F32) → List (List F32) → List (List F32)
  push_some none bufs = bufs
  push_some (some buf) bufs = buf ∷ bufs

  -- The loop over `peer_mgr.peers.values_mut()`.
  unfoldable pub play_peers :
      List (ℕ × RemotePeer fl op) → List (List F32) × List (ℕ × RemotePeer fl op)
  unfolding push_some
  play_peers [] = ([], [])
  play_peers ((k, p) ∷ m) =
      let (buf, p') = play_peer p in
      let (bufs, m') = play_peers m in (push_some buf bufs, (k, p') ∷ m')

  unfoldable pub play_all : PeerManager fl op → Result (List (List F32)) × PeerManager fl op
  unfolding play_peers
  play_all pm = let (bufs, peers) = play_peers pm.peers in (ok bufs, record pm { peers = peers })

  -- What goes into the ring buffer that has `room` samples of room.
  unfoldable pub mixed_frame : ℕ → List (List F32) → List F32
  mixed_frame room [] = []
  mixed_frame room (buf ∷ bufs) =
      take room (mix_peers fl32 (buf ∷ bufs) (replicate frame_samples (fl32.literal 0 0)))
