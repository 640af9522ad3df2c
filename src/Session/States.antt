-- ===== src/Session/States.antt =====
-- Which packets change the state of a peer.
use voicechat.Base.{
  ℕ, List, ◌∷◌, ◌≡◌, ◌≢◌, refl, Result, ok, err, panic, take, get_elem?, some, none, Option, ◌==◌,
  Bool-cases, Option-cases, Bool, true, false, arith, inl, inr,
}
use native.Mathlib.Decide.{ℕ_discrete}
use voicechat.Base.Int.{ℤ}
use voicechat.Base.Table
use voicechat.Base.Bytes.{packet_too_short, u16_from_be_bytes, u32_from_be_bytes}
use voicechat.Codec.{Opus}
use voicechat.Codec
use voicechat.Crypto.Replay.{ReplayFilter, check_and_accept}
use voicechat.Net.Addr.{SocketAddr}
use voicechat.Net.Header.{
  PacketHeader, pkt_audio, pkt_join, pkt_hello, pkt_peer_list, pkt_keepalive, pkt_hello_ack,
  pkt_ping, pkt_pong, pkt_key_exchange,
}
use voicechat.Net.Header
use voicechat.Net.Wire.{parse_wire_packet}
use voicechat.Peer.{PeerState, RemotePeer, touch, get_peer, modify_peer}
use voicechat.Session.World.{Env, World, update_peers, update_peer, send_to}
use voicechat.Session.Audio.{filter_of, set_filter, buffer_frame, hear, hear_known, handle_audio}
use voicechat.Session.Control.{
  touch_found, touch_by_addr, handle_keepalive, reserve_counter, send_pong, handle_ping, measure,
  handle_pong, install_key, send_key, handle_key_exchange,
}
use voicechat.Session.Incoming.{dispatch, handle_incoming}
use voicechat.Session.Keeps.{Keeps, Keeps-fail, Keeps-other, Keeps-go, keeps_rules}

module _ (env : Env) where
  -- The state of the peer with an id, if there is one.
  unfoldable pub state_of : World env → ℕ → Option PeerState
  state_of w i = elim (get_peer env.fl env.op w.peer_mgr i) [ none ↦ none | some p ↦ some p.state ]

  -- Every peer is in the state that it is in in another world.
  unfoldable pub SameStates : World env → World env → Type 0
  SameStates before w = (i : ℕ) → state_of w i ≡ state_of before i

module _ (env : Env) (before : World env) where
  update_peer-SameStates :
      (id : ℕ) (f : RemotePeer env.fl env.op → RemotePeer env.fl env.op)
      → ((p : RemotePeer env.fl env.op) → (f p).state ≡ p.state)
      → Keeps (SameStates env before) (update_peer id f)
  unfolding SameStates state_of update_peers modify_peer get_peer
  update_peer-SameStates id f same = record {
    at = λ w h i.
        let found = Table.get-modify ℕ_discrete id i f w.peer_mgr.peers in
        elim (Option-cases (Table.get ℕ_discrete i w.peer_mgr.peers)) [
          | inl absent ↦ ground (arith, found, h i)
          | inr (p, known) ↦ ground (arith, found, h i, same p)
        ];
  }

  reserve_counter-SameStates : Keeps (SameStates env before) (reserve_counter env)
  unfolding SameStates state_of reserve_counter
  reserve_counter-SameStates = record { at = λ w h. h }

  send_to-SameStates :
      (wire : List ℕ) (addr : SocketAddr) → Keeps (SameStates env before) (send_to env wire addr)
  unfolding SameStates state_of send_to
  send_to-SameStates wire addr = record {
    at = λ w h. elim (Bool-cases (env.sendable wire addr)) [
      | inl yes_sent ↦ rw yes_sent h
      | inr not_sent ↦ rw not_sent h
    ];
  }

module _ (env : Env) where
  buffer_frame_state :
      (seq_num : ℕ) (r : Result (List ℤ)) (p : RemotePeer env.fl env.op)
      → (buffer_frame env seq_num r p).1.state ≡ p.state
  unfolding buffer_frame
  buffer_frame_state seq_num (ok pcm) p = refl
  buffer_frame_state seq_num (err e) p = refl
  buffer_frame_state seq_num panic p = refl

  set_filter_state :
      (used : Bool) (f : ReplayFilter) (p : RemotePeer env.fl env.op)
      → (set_filter env used f p).state ≡ p.state
  unfolding set_filter
  set_filter_state true f p = refl
  set_filter_state false f p = refl

  hear_state :
      (header : PacketHeader) (plaintext : List ℕ) (used : Bool) (p : RemotePeer env.fl env.op)
      → (hear env header plaintext used p).1.state ≡ p.state
  unfolding hear
  hear_state header plaintext used p =
      let seen = touch env.fl env.op env.now p in
      let checked = check_and_accept (filter_of env used seen) header.counter in
      let p' = set_filter env used checked.1 seen in
      let decoded = Codec.decode env.op p'.decoder plaintext in
      unfold touch in
      ground (
        arith,
        set_filter_state used checked.1 seen,
        buffer_frame_state header.seq_num decoded.0 (record p' { decoder = decoded.1 }),
      )

  touch_state : (p : RemotePeer env.fl env.op) → (touch env.fl env.op env.now p).state ≡ p.state
  unfolding touch
  touch_state p = refl

  measure_state :
      (ping_id : ℕ) (p : RemotePeer env.fl env.op) → (measure env ping_id p).state ≡ p.state
  unfolding measure touch
  measure_state ping_id p = refl

  install_key_state :
      (derived_key session_id : List ℕ) (p : RemotePeer env.fl env.op)
      → (install_key env derived_key session_id p).state ≡ p.state
  unfolding install_key
  install_key_state derived_key session_id p = refl

module _ (env : Env) (before : World env) where
  key_sent-SameStates :
      (id : ℕ) → Keeps (SameStates env before) (update_peer id (λ p. record p { kx_sent = true }))
  key_sent-SameStates id = update_peer-SameStates env before id _ (λ p. refl)

  hear_known-SameStates :
      (header : PacketHeader) (plaintext : List ℕ) (used : Bool)
      (peer : Option (RemotePeer env.fl env.op))
      → Keeps (SameStates env before) (hear_known env header plaintext used peer)
  unfolding hear_known
  hear_known-SameStates header plaintext used none = search keeps_rules
  hear_known-SameStates header plaintext used (some p) =
      search (keeps_rules, update_peer-SameStates, hear_state)

  audio-SameStates :
      (header : PacketHeader) (header_bytes ciphertext : List ℕ)
      → Keeps (SameStates env before) (handle_audio env header header_bytes ciphertext)
  unfolding handle_audio
  audio-SameStates header header_bytes ciphertext = search (keeps_rules, hear_known-SameStates)

  touch_found-SameStates :
      (found : Option ℕ) → Keeps (SameStates env before) (touch_found env found)
  unfolding touch_found
  touch_found-SameStates none = search keeps_rules
  touch_found-SameStates (some peer_id) =
      update_peer-SameStates env before peer_id _ (touch_state env)

  touch_by_addr-SameStates :
      (src_addr : SocketAddr) → Keeps (SameStates env before) (touch_by_addr env src_addr)
  unfolding touch_by_addr
  touch_by_addr-SameStates src_addr = search (keeps_rules, touch_found-SameStates)

  send_pong-SameStates :
      (local_id counter : ℕ) (payload : List ℕ) (src_addr : SocketAddr)
      → Keeps (SameStates env before) (send_pong env local_id counter payload src_addr)
  unfolding send_pong
  send_pong-SameStates local_id counter payload src_addr =
      search (keeps_rules, send_to-SameStates) depth 10

  ping-SameStates :
      (header : PacketHeader) (header_bytes ciphertext : List ℕ) (src_addr : SocketAddr)
      → Keeps (SameStates env before) (handle_ping env header header_bytes ciphertext src_addr)
  unfolding handle_ping
  ping-SameStates header header_bytes ciphertext src_addr =
      search
        (keeps_rules, reserve_counter-SameStates, send_pong-SameStates, touch_by_addr-SameStates)
        depth 20

  pong-SameStates :
      (header : PacketHeader) (header_bytes ciphertext : List ℕ)
      → Keeps (SameStates env before) (handle_pong env header header_bytes ciphertext)
  unfolding handle_pong
  pong-SameStates header header_bytes ciphertext =
      search (keeps_rules, update_peer-SameStates, measure_state) depth 20

  send_key-SameStates :
      (session_id : List ℕ) (local_id peer_id : ℕ) (addr : SocketAddr)
      → Keeps (SameStates env before) (send_key env session_id local_id peer_id addr)
  unfolding send_key
  send_key-SameStates session_id local_id peer_id addr =
      search (keeps_rules, send_to-SameStates, key_sent-SameStates) depth 10

  key_exchange-SameStates :
      (header : PacketHeader) (header_bytes ciphertext : List ℕ) (src_addr : SocketAddr)
      → Keeps
          (SameStates env before)
          (handle_key_exchange env header header_bytes ciphertext src_addr)
  unfolding handle_key_exchange
  key_exchange-SameStates header header_bytes ciphertext src_addr =
      search (keeps_rules, update_peer-SameStates, install_key_state, send_key-SameStates) depth 20

  dispatch-SameStates :
      (header : PacketHeader) (header_bytes ciphertext : List ℕ) (src_addr : SocketAddr)
      → (header.pkt_type == pkt_join) ≡ false
      → (header.pkt_type == pkt_peer_list) ≡ false
      → (header.pkt_type == pkt_hello) ≡ false
      → (header.pkt_type == pkt_hello_ack) ≡ false
      → Keeps (SameStates env before) (dispatch env header header_bytes ciphertext src_addr)
  unfolding dispatch handle_keepalive
  dispatch-SameStates header header_bytes ciphertext src_addr join list hello ack =
      search
        (
          keeps_rules, Keeps-other, audio-SameStates, ping-SameStates, pong-SameStates,
          key_exchange-SameStates, touch_by_addr-SameStates,
        )
        depth 30

  -- The first byte of a packet is the type of no packet of the handshake.
  unfoldable pub IsNoHandshake : List ℕ → Type 0
  IsNoHandshake bytes =
      (get_elem? bytes 0 ≢ some pkt_join)
      × (get_elem? bytes 0 ≢ some pkt_peer_list)
      × (get_elem? bytes 0 ≢ some pkt_hello)
      × (get_elem? bytes 0 ≢ some pkt_hello_ack)

  packet-SameStates :
      (bytes : List ℕ) (src_addr : SocketAddr)
      → IsNoHandshake bytes
      → Keeps (SameStates env before) (handle_incoming env bytes src_addr)
  unfolding handle_incoming parse_wire_packet Header.from_bytes IsNoHandshake
  packet-SameStates (t ∷ p ∷ a ∷ b ∷ c ∷ d ∷ e ∷ f ∷ rest) src_addr (join, list, hello, ack) =
      let bytes = t ∷ p ∷ a ∷ b ∷ c ∷ d ∷ e ∷ f ∷ rest in
      let header : PacketHeader = record {
        pkt_type = t;
        peer_id = p;
        seq_num = u16_from_be_bytes a b;
        counter = u32_from_be_bytes c d e f;
      } in
      Keeps-go (parse_wire_packet bytes) (take 8 bytes, rest) _ (ground arith)
        (Keeps-go (Header.from_bytes (take 8 bytes)) header _ refl (
          dispatch-SameStates header (take 8 bytes) rest src_addr (ground arith) (ground arith)
            (ground arith) (ground arith)))
  packet-SameStates bytes src_addr other =
      Keeps-fail packet_too_short (parse_wire_packet bytes) _ (ground arith)

  -- Only packets of the handshake change a peer's state: a packet whose first byte is the type of none
  -- of JOIN, PEER_LIST, HELLO and HELLO_ACK leaves every peer in its state, a disconnected one too,
  -- and adds and drops no peer.
  pub handle_incoming_states :
      (bytes : List ℕ) (src_addr : SocketAddr)
      → IsNoHandshake bytes
      → (i : ℕ)
      → state_of env (handle_incoming env bytes src_addr before).1 i ≡ state_of env before i
  unfolding SameStates
  handle_incoming_states bytes src_addr other =
      (packet-SameStates bytes src_addr other).at before (λ i. refl)
