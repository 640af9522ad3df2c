-- ===== src/Session/Handshake.antt =====
-- The arms PKT_JOIN, PKT_PEER_LIST, PKT_HELLO and PKT_HELLO_ACK of `handle_incoming`.
use voicechat.Base.{
  ℕ, max, List, ◌∷◌, [], Result, ok, err, panic, replicate, some, none, Option, ◌==◌, if◌then◌else◌,
  not,
}
use voicechat.Base.Bytes.{non_host_join, no_local_ip, empty_peer_list}
use voicechat.Crypto.Context.{CryptoContext}
use voicechat.Crypto.Context
use voicechat.Net.Addr.{SocketAddr, ip, port, with_port, is_unspecified}
use voicechat.Net.Header.{PacketHeader, pkt_hello, pkt_peer_list, pkt_hello_ack}
use voicechat.Net.Join
use voicechat.Net.PeerList.{PeerEntry, PeerListPayload}
use voicechat.Net.PeerList
use voicechat.Peer.{
  hello_sent, connected, RemotePeer, touch, set_identity, get_peer, add_peer, allocate_peer_id,
  build_peer_list,
}
use voicechat.Session.World.{
  Env, M, ◌>>=◌, ◌>>◌, pure, raise, lift, gets, with_peers, update_peer, send_to, seal, unseal,
}

-- The greatest id of a peer list.
unfoldable pub greatest_id : List PeerEntry → Option ℕ
greatest_id [] = none
greatest_id ((id, addr) ∷ ps) = elim (greatest_id ps) [ none ↦ some id | some m ↦ some (max id m) ]

module _ (env : Env) where
  abbrev Peer : Type 0
  Peer = RemotePeer env.fl env.op

  -- A fresh context of the shared key, for one packet.
  unfoldable pub psk_ctx : List ℕ → CryptoContext
  psk_ctx session_id = Context.new env.key session_id

  abbrev pub zero_session : List ℕ
  zero_session = replicate 8 0

  -- A control packet whose sequence number and counter are 0, sealed by a fresh context.
  unfoldable pub send_control : List ℕ → ℕ → ℕ → List ℕ → SocketAddr → M env (Unit {0})
  unfolding psk_ctx
  send_control session_id pkt_type local_id payload addr = do
    wire ← lift (
        seal env (psk_ctx session_id)
          (record { pkt_type = pkt_type; peer_id = local_id; seq_num = 0; counter = 0 }) payload)
    send_to env wire addr

  unfoldable pub connect : Peer → Peer
  unfolding touch
  connect p = touch env.fl env.op env.now (record p { state = connected })

  -- The address to give for ourselves: the bound one, or a routable one if it is unspecified.
  unfoldable pub own_addr : SocketAddr → Result SocketAddr
  own_addr src_addr = elim env.local_addr [
    | err e ↦ err e
    | panic ↦ panic
    | ok local_addr ↦
        if is_unspecified (ip local_addr)
        then elim (env.resolve_local_ip src_addr) [
          | none ↦ err no_local_ip
          | some routable ↦ ok (with_port routable (port local_addr))
        ]
        else ok local_addr
  ]

  unfoldable pub handle_join : PacketHeader → List ℕ → List ℕ → SocketAddr → M env (Unit {0})
  unfolding psk_ctx unseal
  handle_join header header_bytes ciphertext src_addr = do
    is_host ← gets (λ w. w.peer_mgr.is_host)
    if not is_host then raise non_host_join else do
      plaintext ← lift (unseal env (psk_ctx zero_session) header header_bytes ciphertext)
      join ← lift (Join.from_bytes plaintext)
      new_id ← with_peers (allocate_peer_id env.fl env.op)
      with_peers (λ pm. add_peer env.fl env.op env.now pm new_id src_addr)
      update_peer new_id connect
      host_addr ← lift (own_addr src_addr)
      pm ← gets (λ w. w.peer_mgr)
      send_control zero_session pkt_peer_list pm.local_id
          (PeerList.to_bytes (build_peer_list env.fl env.op pm host_addr)) src_addr

  -- One round of the loop over a received peer list.
  unfoldable pub greet : ℕ → List ℕ → ℕ → SocketAddr → PeerEntry → M env (Unit {0})
  greet my_id session_id sender src_addr (id, addr) =
      if id == my_id
      then pure tt
      else let peer_addr = if id == sender then src_addr else addr in
        do
          with_peers (λ pm. add_peer env.fl env.op env.now pm id peer_addr)
          send_control session_id pkt_hello my_id [] peer_addr
          update_peer id (λ p. record p { state = hello_sent })

  unfoldable pub greet_all : ℕ → List ℕ → ℕ → SocketAddr → List PeerEntry → M env (Unit {0})
  greet_all my_id session_id sender src_addr [] = pure tt
  greet_all my_id session_id sender src_addr (p ∷ ps) = do
    greet my_id session_id sender src_addr p
    greet_all my_id session_id sender src_addr ps

  -- The joiner's id and session, and the context of that session.
  unfoldable pub adopt : ℕ → List ℕ → M env (Unit {0})
  unfolding set_identity
  adopt my_id session_id w = (
    ok tt,
    record w {
      peer_mgr = set_identity env.fl env.op w.peer_mgr my_id session_id;
      crypto_ctx = Context.new env.key session_id;
    },
  )

  unfoldable pub handle_peer_list : PacketHeader → List ℕ → List ℕ → SocketAddr → M env (Unit {0})
  unfolding psk_ctx unseal
  handle_peer_list header header_bytes ciphertext src_addr = do
    plaintext ← lift (unseal env (psk_ctx zero_session) header header_bytes ciphertext)
    pl ← lift (PeerList.from_bytes plaintext)
    my_id ← lift (elim (greatest_id pl.peers) [ none ↦ err empty_peer_list | some id ↦ ok id ])
    adopt my_id pl.session_id
    greet_all my_id pl.session_id header.peer_id src_addr pl.peers

  -- `if peer_mgr.get_peer(peer_id).is_none() { peer_mgr.add_peer(peer_id, src_addr)?; }`
  unfoldable pub add_unknown : ℕ → SocketAddr → Option Peer → M env (Unit {0})
  add_unknown peer_id src_addr none =
      with_peers (λ pm. add_peer env.fl env.op env.now pm peer_id src_addr)
  add_unknown peer_id src_addr (some p) = pure tt

  unfoldable pub handle_hello : PacketHeader → List ℕ → List ℕ → SocketAddr → M env (Unit {0})
  unfolding psk_ctx unseal add_unknown
  handle_hello header header_bytes ciphertext src_addr = do
    session_id ← gets (λ w. w.peer_mgr.session_id)
    lift (unseal env (psk_ctx session_id) header header_bytes ciphertext) >>= λ _. do
      known ← gets (λ w. get_peer env.fl env.op w.peer_mgr header.peer_id)
      add_unknown header.peer_id src_addr known
      update_peer header.peer_id connect
      local_id ← gets (λ w. w.peer_mgr.local_id)
      send_control session_id pkt_hello_ack local_id [] src_addr

  unfoldable pub handle_hello_ack : PacketHeader → List ℕ → List ℕ → M env (Unit {0})
  unfolding psk_ctx unseal
  handle_hello_ack header header_bytes ciphertext = do
    session_id ← gets (λ w. w.peer_mgr.session_id)
    lift (unseal env (psk_ctx session_id) header header_bytes ciphertext) >>= λ _.
        update_peer header.peer_id connect
