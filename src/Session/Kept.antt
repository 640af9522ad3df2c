-- ===== src/Session/Kept.antt =====
-- What every step of a session keeps: a property of the peer tables and the shared context that the
-- operations on them keep is kept by the steps that are built from them.
pub mod Packets
pub mod Sends
pub mod Rounds
use voicechat.Base.{
  ℕ, List, ◌≡◌, refl, Result, ok, err, panic, Bool-cases, Bool, true, false, arith, inl, inr,
}
use native.Mathlib.Decide.{ℕ_discrete}
use voicechat.Base.Floats.{Float64}
use voicechat.Base.Int.{ℤ}
use voicechat.Base.Table
use voicechat.Codec.{Opus}
use voicechat.Codec
use voicechat.Crypto.Context.{CryptoContext, next_counter}
use voicechat.Crypto.Replay.{ReplayFilter, check_and_accept}
use voicechat.Net.Addr.{SocketAddr}
use voicechat.Net.Header.{PacketHeader}
use voicechat.Peer.{
  hello_sent, RemotePeer, PeerManager, touch, modify_peer, add_peer, allocate_peer_id,
}
use voicechat.Session.World.{Env, World, with_peers, update_peers, update_peer, send_to}
use voicechat.Session.Audio.{filter_of, set_filter, buffer_frame, hear}
use voicechat.Session.Handshake.{connect}
use voicechat.Session.Control.{reserve_counter, measure, install_key}
use voicechat.Session.Keeps.{Keeps}

module _ (fl : Float64) (op : Opus) where
  -- A change of a peer that leaves its id and its address.
  abbrev pub IsInPlace : (RemotePeer fl op → RemotePeer fl op) → Type 0
  IsInPlace f = (p : RemotePeer fl op) → ((f p).id ≡ p.id) × ((f p).addr ≡ p.addr)

  -- The operations that a session calls on its peer tables and on its shared context keep `Q`; the one
  -- that gives a joiner its identity is left out.
  pub record Kept (Q : PeerManager fl op → CryptoContext → Type 0) : Type 0 where
    pub modified :
        (pm : PeerManager fl op) (ctx : CryptoContext) (id : ℕ)
        (f : RemotePeer fl op → RemotePeer fl op)
        → IsInPlace f
        → Q pm ctx
        → Q (modify_peer fl op id f pm) ctx
    pub mapped :
        (pm : PeerManager fl op) (ctx : CryptoContext) (f : RemotePeer fl op → RemotePeer fl op)
        → IsInPlace f
        → Q pm ctx
        → Q (record pm { peers = Table.map_values ℕ_discrete f pm.peers }) ctx
    pub added :
        (pm : PeerManager fl op) (ctx : CryptoContext) (now id : ℕ) (addr : SocketAddr)
        → Q pm ctx
        → Q (add_peer fl op now pm id addr).1 ctx
    pub allocated :
        (pm : PeerManager fl op) (ctx : CryptoContext)
        → Q pm ctx
        → Q (allocate_peer_id fl op pm).1 ctx
    pub reserved :
        (pm : PeerManager fl op) (ctx : CryptoContext) → Q pm ctx → Q pm (next_counter ctx).1

module _ (env : Env) (Q : PeerManager env.fl env.op → CryptoContext → Type 0) where
  -- `Q` of the tables and the context of a session.
  unfoldable pub Holds : World env → Type 0
  Holds w = Q w.peer_mgr w.crypto_ctx

  module _ (kept : Kept env.fl env.op Q) where
    pub update_peer-Keeps :
        (id : ℕ) (f : RemotePeer env.fl env.op → RemotePeer env.fl env.op)
        → IsInPlace env.fl env.op f
        → Keeps Holds (update_peer id f)
    unfolding Holds update_peers
    update_peer-Keeps id f same = record {
      at = λ w v. kept.modified w.peer_mgr w.crypto_ctx id f same v;
    }

    pub map_peers-Keeps :
        (g : PeerManager env.fl env.op → PeerManager env.fl env.op)
        (f : RemotePeer env.fl env.op → RemotePeer env.fl env.op)
        → IsInPlace env.fl env.op f
        → ((pm : PeerManager env.fl env.op)
            → g pm ≡ record pm { peers = Table.map_values ℕ_discrete f pm.peers })
        → Keeps Holds (update_peers g)
    unfolding Holds update_peers
    map_peers-Keeps g f same e = record {
      at = λ w v. rw (e w.peer_mgr) (kept.mapped w.peer_mgr w.crypto_ctx f same v);
    }

    pub add_peer-Keeps :
        (id : ℕ) (addr : SocketAddr)
        → Keeps Holds (with_peers (λ pm. add_peer env.fl env.op env.now pm id addr))
    unfolding Holds with_peers
    add_peer-Keeps id addr = record {
      at = λ w v. kept.added w.peer_mgr w.crypto_ctx env.now id addr v;
    }

    pub allocate-Keeps : Keeps Holds (with_peers (allocate_peer_id env.fl env.op))
    unfolding Holds with_peers
    allocate-Keeps = record { at = λ w v. kept.allocated w.peer_mgr w.crypto_ctx v }

    pub reserve_counter-Keeps : Keeps Holds (reserve_counter env)
    unfolding Holds reserve_counter
    reserve_counter-Keeps = record { at = λ w v. kept.reserved w.peer_mgr w.crypto_ctx v }

    pub greeted-Keeps :
        (id : ℕ) → Keeps Holds (update_peer id (λ p. record p { state = hello_sent }))
    greeted-Keeps id = update_peer-Keeps id _ (λ p. (refl, refl))

    pub key_sent-Keeps : (id : ℕ) → Keeps Holds (update_peer id (λ p. record p { kx_sent = true }))
    key_sent-Keeps id = update_peer-Keeps id _ (λ p. (refl, refl))

  pub send_to-Keeps : (wire : List ℕ) (addr : SocketAddr) → Keeps Holds (send_to env wire addr)
  unfolding Holds send_to
  send_to-Keeps wire addr = record {
    at = λ w v. elim (Bool-cases (env.sendable wire addr)) [
      | inl goes ↦ rw goes v
      | inr stays ↦ rw stays v
    ];
  }

module _ (env : Env) where
  pub buffer_frame_keeps :
      (seq_num : ℕ) (r : Result (List ℤ)) (p : RemotePeer env.fl env.op)
      → ((buffer_frame env seq_num r p).1.id ≡ p.id)
        × ((buffer_frame env seq_num r p).1.addr ≡ p.addr)
  unfolding buffer_frame
  buffer_frame_keeps seq_num (ok pcm) p = (refl, refl)
  buffer_frame_keeps seq_num (err e) p = (refl, refl)
  buffer_frame_keeps seq_num panic p = (refl, refl)

  pub set_filter_keeps :
      (used : Bool) (f : ReplayFilter) (p : RemotePeer env.fl env.op)
      → ((set_filter env used f p).id ≡ p.id) × ((set_filter env used f p).addr ≡ p.addr)
  unfolding set_filter
  set_filter_keeps true f p = (refl, refl)
  set_filter_keeps false f p = (refl, refl)

  pub hear_keeps :
      (header : PacketHeader) (plaintext : List ℕ) (used : Bool) (p : RemotePeer env.fl env.op)
      → ((hear env header plaintext used p).1.id ≡ p.id)
        × ((hear env header plaintext used p).1.addr ≡ p.addr)
  unfolding hear
  hear_keeps header plaintext used p =
      let seen = touch env.fl env.op env.now p in
      let checked = check_and_accept (filter_of env used seen) header.counter in
      let p' = set_filter env used checked.1 seen in
      let decoded = Codec.decode env.op p'.decoder plaintext in
      unfold touch in
      ground (
        arith,
        set_filter_keeps used checked.1 seen,
        buffer_frame_keeps header.seq_num decoded.0 (record p' { decoder = decoded.1 }),
      )

  pub connect_keeps :
      (p : RemotePeer env.fl env.op) → ((connect env p).id ≡ p.id) × ((connect env p).addr ≡ p.addr)
  unfolding connect
  connect_keeps p = unfold touch in (refl, refl)

  pub touch_keeps :
      (p : RemotePeer env.fl env.op)
      → ((touch env.fl env.op env.now p).id ≡ p.id)
        × ((touch env.fl env.op env.now p).addr ≡ p.addr)
  unfolding touch
  touch_keeps p = (refl, refl)

  pub measure_keeps :
      (ping_id : ℕ) (p : RemotePeer env.fl env.op)
      → ((measure env ping_id p).id ≡ p.id) × ((measure env ping_id p).addr ≡ p.addr)
  unfolding measure touch
  measure_keeps ping_id p = (refl, refl)

  pub install_key_keeps :
      (derived_key session_id : List ℕ) (p : RemotePeer env.fl env.op)
      → ((install_key env derived_key session_id p).id ≡ p.id)
        × ((install_key env derived_key session_id p).addr ≡ p.addr)
  unfolding install_key
  install_key_keeps derived_key session_id p = (refl, refl)
