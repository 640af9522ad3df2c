-- ===== src/Session/Control.antt =====
-- The arms PKT_KEEPALIVE, PKT_PING, PKT_PONG and PKT_KEY_EXCHANGE of `handle_incoming`.
use voicechat.Base.{
  ℕ, List, Result, ok, err, panic, some, none, Option, if◌then◌else◌, Bool, true, false, not,
}
use voicechat.Crypto.Context.{CryptoContext}
use voicechat.Crypto.Context
use voicechat.KeyExchange.{derive_peer_key, public_key_bytes}
use voicechat.Latency
use voicechat.Net.Addr.{SocketAddr}
use voicechat.Net.Header.{PacketHeader, pkt_pong, pkt_key_exchange}
use voicechat.Net.Ping.{PingPayload}
use voicechat.Net.Ping
use voicechat.Net.KeyExchangePayload
use voicechat.Peer.{RemotePeer, touch, get_peer, peer_by_addr}
use voicechat.Session.World.{
  Env, M, ◌>>=◌, ◌>>◌, pure, lift, attempt, gets, update_peer, send_to, seal, unseal,
}
use voicechat.Session.Handshake.{psk_ctx}

module _ (env : Env) where
  abbrev Peer : Type 0
  Peer = RemotePeer env.fl env.op

  unfoldable pub touch_found : Option ℕ → M env (Unit {0})
  unfolding touch
  touch_found none = pure tt
  touch_found (some peer_id) = update_peer peer_id (touch env.fl env.op env.now)

  -- The peer that an address leads to is seen.
  unfoldable pub touch_by_addr : SocketAddr → M env (Unit {0})
  unfolding touch_found
  touch_by_addr src_addr = do
    found ← gets (λ w. peer_by_addr env.fl env.op w.peer_mgr src_addr)
    touch_found found

  unfoldable pub handle_keepalive : SocketAddr → M env (Unit {0})
  unfolding touch_by_addr
  handle_keepalive src_addr = touch_by_addr src_addr

  -- `crypto_ctx.next_counter()`.
  unfoldable pub reserve_counter : M env ℕ
  reserve_counter w =
      let (r, ctx) = Context.next_counter w.crypto_ctx in (r, record w { crypto_ctx = ctx })

  -- `Ok` of a result goes on; a failure is logged, and the packet is done with.
  unfoldable pub or_done : {A : Type 0} → Result A → (A → M env (Unit {0})) → M env (Unit {0})
  or_done (ok a) f = f a
  or_done (err e) f = pure tt
  or_done panic f = lift panic

  -- The result of a step, as a value.
  unfoldable pub tried : {A : Type 0} → M env A → M env (Result A)
  tried m w = let (r, w') = m w in (ok r, w')

  -- The answer to a ping; failures are logged.
  unfoldable pub send_pong : ℕ → ℕ → List ℕ → SocketAddr → M env (Unit {0})
  unfolding or_done
  send_pong local_id counter payload src_addr = do
    ctx ← gets (λ w. w.crypto_ctx)
    or_done
        (seal env ctx
          (record { pkt_type = pkt_pong; peer_id = local_id; seq_num = 0; counter = counter })
          payload)
        (λ wire. attempt (send_to env wire src_addr))

  -- With no counter left the ping is dropped, with no error.
  unfoldable pub handle_ping : PacketHeader → List ℕ → List ℕ → SocketAddr → M env (Unit {0})
  unfolding unseal send_pong touch_by_addr tried reserve_counter
  handle_ping header header_bytes ciphertext src_addr = do
    ctx ← gets (λ w. w.crypto_ctx)
    plaintext ← lift (unseal env ctx header header_bytes ciphertext)
    ping ← lift (Ping.from_bytes plaintext)
    local_id ← gets (λ w. w.peer_mgr.local_id)
    reserved ← tried reserve_counter
    or_done reserved λ counter. do
      send_pong local_id counter (Ping.to_bytes ping) src_addr
      touch_by_addr src_addr

  -- A pong is measured by its peer's tracker.
  unfoldable pub measure : ℕ → Peer → Peer
  unfolding touch
  measure ping_id p =
      let seen = touch env.fl env.op env.now p in
      record seen {
        latency_tracker = (Latency.pong_received env.fl env.now ping_id seen.latency_tracker).1;
      }

  unfoldable pub handle_pong : PacketHeader → List ℕ → List ℕ → M env (Unit {0})
  unfolding unseal measure
  handle_pong header header_bytes ciphertext = do
    ctx ← gets (λ w. w.crypto_ctx)
    plaintext ← lift (unseal env ctx header header_bytes ciphertext)
    pong ← lift (Ping.from_bytes plaintext)
    update_peer header.peer_id (measure pong.ping_id)

  -- A peer's own context, from its public key.
  unfoldable pub install_key : List ℕ → List ℕ → Peer → Peer
  install_key derived_key session_id p = record p {
    peer_crypto = some (Context.new derived_key session_id);
    kx_received = true;
  }

  -- Has this peer not been sent our public key?
  unfoldable pub needs_key : Option Peer → Bool
  needs_key none = false
  needs_key (some p) = not p.kx_sent

  -- Our public key, sealed for the session; it counts as sent if it could be sealed.
  unfoldable pub send_key : List ℕ → ℕ → ℕ → SocketAddr → M env (Unit {0})
  unfolding psk_ctx or_done
  send_key session_id local_id peer_id addr =
      or_done
        (seal env (psk_ctx env session_id)
          (record { pkt_type = pkt_key_exchange; peer_id = local_id; seq_num = 0; counter = 0 })
          (KeyExchangePayload.to_bytes (record { public_key = public_key_bytes env.key_exchange })))
        λ wire. do
          attempt (send_to env wire addr)
          update_peer peer_id (λ p. record p { kx_sent = true })

  unfoldable pub handle_key_exchange :
      PacketHeader → List ℕ → List ℕ → SocketAddr → M env (Unit {0})
  unfolding psk_ctx unseal install_key needs_key send_key
  handle_key_exchange header header_bytes ciphertext src_addr = do
    session_id ← gets (λ w. w.peer_mgr.session_id)
    local_id ← gets (λ w. w.peer_mgr.local_id)
    plaintext ← lift (unseal env (psk_ctx env session_id) header header_bytes ciphertext)
    kx ← lift (KeyExchangePayload.from_bytes plaintext)
    derived_key ←
        lift
          (derive_peer_key env.dh env.key_exchange kx.public_key session_id local_id header.peer_id)
    update_peer header.peer_id (install_key derived_key session_id)
    needs_send ← gets (λ w. needs_key (get_peer env.fl env.op w.peer_mgr header.peer_id))
    if needs_send then send_key session_id local_id header.peer_id src_addr else pure tt
