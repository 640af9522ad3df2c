-- ===== src/Session/Audio.antt =====
-- The PKT_AUDIO arm of `handle_incoming`.
use voicechat.Base.{
  ℕ, List, Result, ok, err, panic, some, none, Option, if◌then◌else◌, Bool, true, false, not,
}
use voicechat.Base.Int.{ℤ}
use voicechat.Base.Bytes.{replay_detected}
use voicechat.Codec.{Opus}
use voicechat.Codec
use voicechat.Crypto.Context.{CryptoContext}
use voicechat.Crypto.Replay.{ReplayFilter, check_and_accept}
use voicechat.Jitter
use voicechat.Net.Header.{PacketHeader}
use voicechat.Peer.{RemotePeer, touch, get_peer}
use voicechat.Session.World.{Env, World, M, ◌>>=◌, ◌>>◌, pure, lift, gets, update_peer, unseal}

module _ (env : Env) where
  abbrev Peer : Type 0
  Peer = RemotePeer env.fl env.op

  -- The peer's own context, if the key exchange has given one.
  unfoldable pub peer_context : Option Peer → Option CryptoContext
  peer_context none = none
  peer_context (some p) = if p.kx_received then p.peer_crypto else none

  -- The plaintext, and whether the peer's own context opened it; the shared context is tried second.
  unfoldable pub open_audio : World env → PacketHeader → List ℕ → List ℕ → Result (List ℕ × Bool)
  unfolding peer_context unseal
  open_audio w header header_bytes ciphertext =
      let shared : Result (List ℕ × Bool) =
        elim (unseal env w.crypto_ctx header header_bytes ciphertext) [
          | ok pt ↦ ok (pt, false)
          | err e ↦ err e
          | panic ↦ panic
        ] in
      elim (peer_context (get_peer env.fl env.op w.peer_mgr header.peer_id)) [
        | none ↦ shared
        | some peer_ctx ↦ elim (unseal env peer_ctx header header_bytes ciphertext) [
          | ok pt ↦ ok (pt, true)
          | err e ↦ shared
          | panic ↦ panic
        ]
      ]

  -- The replay filter of the context that opened the packet.
  unfoldable pub filter_of : Bool → Peer → ReplayFilter
  filter_of true p = p.peer_replay_filter
  filter_of false p = p.replay_filter

  unfoldable pub set_filter : Bool → ReplayFilter → Peer → Peer
  set_filter true f p = record p { peer_replay_filter = f }
  set_filter false f p = record p { replay_filter = f }

  -- A decoded frame goes into the jitter buffer.
  unfoldable pub buffer_frame : ℕ → Result (List ℤ) → Peer → Result (Unit {0}) × Peer
  buffer_frame seq_num (ok pcm) p =
      (ok tt, record p { jitter_buffer = Jitter.push env.fl p.jitter_buffer seq_num pcm })
  buffer_frame seq_num (err e) p = (err e, p)
  buffer_frame seq_num panic p = (panic, p)

  -- What the opened packet does to its peer: it is seen, checked for replay, decoded and buffered.
  unfoldable pub hear : PacketHeader → List ℕ → Bool → Peer → Result (Unit {0}) × Peer
  unfolding buffer_frame touch
  hear header plaintext used_peer_ctx peer =
      let p = touch env.fl env.op env.now peer in
      let (fresh, filter) = check_and_accept (filter_of used_peer_ctx p) header.counter in
      let p' = set_filter used_peer_ctx filter p in
      let (decoded, decoder) = Codec.decode env.op p'.decoder plaintext in
      if not fresh
      then (err replay_detected, p')
      else buffer_frame header.seq_num decoded (record p' { decoder = decoder })

  -- `if let Some(peer) = peer_mgr.get_peer_mut(peer_id)`; audio of an unknown peer is dropped.
  unfoldable pub hear_known : PacketHeader → List ℕ → Bool → Option Peer → M env (Unit {0})
  hear_known header plaintext used_peer_ctx none = pure tt
  hear_known header plaintext used_peer_ctx (some peer) = do
    update_peer header.peer_id (λ p. (hear header plaintext used_peer_ctx p).1)
    lift (hear header plaintext used_peer_ctx peer).0

  unfoldable pub handle_audio : PacketHeader → List ℕ → List ℕ → M env (Unit {0})
  unfolding hear_known
  handle_audio header header_bytes ciphertext = do
    w ← gets (λ w. w)
    (plaintext, used_peer_ctx) ← lift (open_audio w header header_bytes ciphertext)
    peer ← gets (λ w. get_peer env.fl env.op w.peer_mgr header.peer_id)
    hear_known header plaintext used_peer_ctx peer
