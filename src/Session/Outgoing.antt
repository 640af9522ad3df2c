-- ===== src/Session/Outgoing.antt =====
-- What `Session::run` of vc-core/src/lib.rs sends to each connected peer: audio, keepalives, pings and
-- its public key.
use voicechat.Base.{
  ℕ, List, ◌∷◌, [], Result, ok, err, panic, some, none, Option, if◌then◌else◌, ◌&&◌,
}
use voicechat.Crypto.Context.{CryptoContext}
use voicechat.Crypto.Context
use voicechat.Latency
use voicechat.Net.Addr.{SocketAddr}
use voicechat.Net.Header.{pkt_audio, pkt_keepalive, pkt_ping}
use voicechat.Net.PeerList.{PeerEntry}
use voicechat.Net.Ping
use voicechat.Peer.{RemotePeer, get_peer, connected_peers, next_seq, check_timeouts}
use voicechat.Session.World.{
  Env, M, ◌>>=◌, ◌>>◌, pure, attempt, gets, update_peers, update_peer, send_to, seal,
}
use voicechat.Session.Control.{reserve_counter, or_done, tried, needs_key, send_key}

module _ (env : Env) where
  abbrev Peer : Type 0
  Peer = RemotePeer env.fl env.op

  -- `for (peer_id, peer_addr) in &connected`.
  unfoldable pub for_each : (PeerEntry → M env (Unit {0})) → List PeerEntry → M env (Unit {0})
  for_each body [] = pure tt
  for_each body (p ∷ ps) = body p >> for_each body ps

  -- A packet under a counter that the shared context reserves for it; failures are logged.
  unfoldable pub send_counted : ℕ → ℕ → ℕ → List ℕ → SocketAddr → M env (Unit {0})
  unfolding or_done tried reserve_counter
  send_counted pkt_type local_id seq payload addr = do
    reserved ← tried env (reserve_counter env)
    or_done env reserved λ counter. do
      ctx ← gets (λ w. w.crypto_ctx)
      or_done env
          (seal env ctx
            (record { pkt_type = pkt_type; peer_id = local_id; seq_num = seq; counter = counter })
            payload)
          (λ wire. attempt (send_to env wire addr))

  -- An audio packet under the next counter of a peer's own context.
  unfoldable pub seal_audio : CryptoContext → ℕ → ℕ → List ℕ → Result (List ℕ) × CryptoContext
  seal_audio peer_ctx local_id seq opus_data =
      let (reserved, ctx) = Context.next_counter peer_ctx in
      (
        elim reserved [
          | ok counter ↦
              seal env ctx
                (record {
                  pkt_type = pkt_audio;
                  peer_id = local_id;
                  seq_num = seq;
                  counter = counter;
                })
                opus_data
          | err e ↦ err e
          | panic ↦ panic
        ],
        ctx,
      )

  -- `use_peer_key`, with the context that it stands for.
  unfoldable pub pair_context : Peer → Option CryptoContext
  pair_context p = if p.kx_sent && p.kx_received then p.peer_crypto else none

  unfoldable pub send_audio_by :
      Option CryptoContext → ℕ → ℕ → List ℕ → PeerEntry → M env (Unit {0})
  unfolding send_counted seal_audio or_done
  send_audio_by none local_id seq opus_data (peer_id, addr) =
      send_counted pkt_audio local_id seq opus_data addr
  send_audio_by (some peer_ctx) local_id seq opus_data (peer_id, addr) = do
    update_peer peer_id
        (λ p. record p { peer_crypto = some (seal_audio peer_ctx local_id seq opus_data).1 })
    or_done env (seal_audio peer_ctx local_id seq opus_data).0
        (λ wire. attempt (send_to env wire addr))

  unfoldable pub send_audio_known : ℕ → List ℕ → PeerEntry → Option Peer → M env (Unit {0})
  unfolding send_audio_by pair_context next_seq
  send_audio_known local_id opus_data entry none = pure tt
  send_audio_known local_id opus_data entry (some peer) = do
    update_peer entry.0 (λ p. (next_seq env.fl env.op p).1)
    send_audio_by (pair_context peer) local_id (next_seq env.fl env.op peer).0 opus_data entry

  -- An encoded frame goes to every connected peer.
  unfoldable pub broadcast_audio : List ℕ → M env (Unit {0})
  unfolding for_each send_audio_known
  broadcast_audio opus_data = do
    local_id ← gets (λ w. w.peer_mgr.local_id)
    connected ← gets (λ w. connected_peers env.fl env.op w.peer_mgr)
    for_each
        (λ (entry : PeerEntry). do
          peer ← gets (λ w. get_peer env.fl env.op w.peer_mgr entry.0)
          send_audio_known local_id opus_data entry peer)
        connected

  unfoldable pub broadcast_all : List (List ℕ) → M env (Unit {0})
  unfolding broadcast_audio
  broadcast_all [] = pure tt
  broadcast_all (opus_data ∷ rest) = broadcast_audio opus_data >> broadcast_all rest

  -- The keepalive block.
  unfoldable pub keepalive : M env (Unit {0})
  unfolding for_each send_counted
  keepalive = do
    local_id ← gets (λ w. w.peer_mgr.local_id)
    connected ← gets (λ w. connected_peers env.fl env.op w.peer_mgr)
    for_each (λ (entry : PeerEntry). send_counted pkt_keepalive local_id 0 [] entry.1) connected
    update_peers (check_timeouts env.fl env.op env.now)

  -- `latency_tracker.ping_sent()` of a peer, and the packet with the id that it gives.
  unfoldable pub ping_known :
      (List (ℕ × ℕ) → Option ℕ) → ℕ → PeerEntry → Option Peer → M env (Unit {0})
  unfolding send_counted
  ping_known pick local_id entry none = pure tt
  ping_known pick local_id entry (some peer) = do
    update_peer entry.0 (λ p. record p {
      latency_tracker = (Latency.ping_sent env.fl pick env.now p.latency_tracker).1;
    })
    send_counted pkt_ping local_id 0
        (Ping.to_bytes
          (record { ping_id = (Latency.ping_sent env.fl pick env.now peer.latency_tracker).0 }))
        entry.1

  unfoldable pub send_pings : (List (ℕ × ℕ) → Option ℕ) → M env (Unit {0})
  unfolding for_each ping_known
  send_pings pick = do
    local_id ← gets (λ w. w.peer_mgr.local_id)
    connected ← gets (λ w. connected_peers env.fl env.op w.peer_mgr)
    for_each
        (λ (entry : PeerEntry). do
          peer ← gets (λ w. get_peer env.fl env.op w.peer_mgr entry.0)
          ping_known pick local_id entry peer)
        connected

  unfoldable pub offer_key : ℕ → PeerEntry → M env (Unit {0})
  unfolding needs_key send_key
  offer_key local_id entry = do
    needs_kx ← gets (λ w. needs_key env (get_peer env.fl env.op w.peer_mgr entry.0))
    session_id ← gets (λ w. w.peer_mgr.session_id)
    if needs_kx then send_key env session_id local_id entry.0 entry.1 else pure tt

  -- The key offers that follow the pings.
  unfoldable pub offer_keys : M env (Unit {0})
  unfolding for_each offer_key
  offer_keys = do
    local_id ← gets (λ w. w.peer_mgr.local_id)
    connected ← gets (λ w. connected_peers env.fl env.op w.peer_mgr)
    for_each (offer_key local_id) connected
