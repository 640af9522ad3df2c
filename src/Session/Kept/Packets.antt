-- ===== src/Session/Kept/Packets.antt =====
-- What the handling of a packet keeps.
use voicechat.Base.{ℕ, List, ◌∷◌, [], some, none, Option, Bool, ok, ◌==◌, ◌≡◌, true}
use voicechat.Crypto.Context.{CryptoContext}
use voicechat.Net.Addr.{SocketAddr}
use voicechat.Net.Header.{PacketHeader, pkt_peer_list}
use voicechat.Net.Header
use voicechat.Net.Wire.{parse_wire_packet}
use voicechat.Net.PeerList.{PeerEntry}
use voicechat.Peer.{RemotePeer, PeerManager}
use voicechat.Session.World.{Env}
use voicechat.Session.Audio.{hear_known, handle_audio}
use voicechat.Session.Handshake.{
  send_control, handle_join, greet, greet_all, handle_peer_list, handle_hello, handle_hello_ack,
  add_unknown,
}
use voicechat.Session.Control.{
  touch_found, touch_by_addr, handle_keepalive, send_pong, handle_ping, handle_pong, send_key,
  handle_key_exchange,
}
use voicechat.Session.Incoming.{dispatch, handle_incoming}
use voicechat.Session.Keeps.{Keeps, Keeps-bind, Keeps-raise, Keeps-test, Keeps-opened, keeps_rules}
use voicechat.Session.Kept.{
  Kept, Holds, update_peer-Keeps, add_peer-Keeps, allocate-Keeps, reserve_counter-Keeps,
  send_to-Keeps, hear_keeps, connect_keeps, touch_keeps, measure_keeps, install_key_keeps,
  greeted-Keeps, key_sent-Keeps,
}

module _ (env : Env) (Q : PeerManager env.fl env.op → CryptoContext → Type 0)
    (kept : Kept env.fl env.op Q) where
  hear_known-Keeps :
      (header : PacketHeader) (plaintext : List ℕ) (used : Bool)
      (peer : Option (RemotePeer env.fl env.op))
      → Keeps (Holds env Q) (hear_known env header plaintext used peer)
  unfolding hear_known
  hear_known-Keeps header plaintext used none = search keeps_rules
  hear_known-Keeps header plaintext used (some p) =
      search (keeps_rules, update_peer-Keeps env Q kept, hear_keeps)

  audio-Keeps :
      (header : PacketHeader) (header_bytes ciphertext : List ℕ)
      → Keeps (Holds env Q) (handle_audio env header header_bytes ciphertext)
  unfolding handle_audio
  audio-Keeps header header_bytes ciphertext = search (keeps_rules, hear_known-Keeps)

  pub send_control-Keeps :
      (session_id : List ℕ) (pkt_type local_id : ℕ) (payload : List ℕ) (addr : SocketAddr)
      → Keeps (Holds env Q) (send_control env session_id pkt_type local_id payload addr)
  unfolding send_control
  send_control-Keeps session_id pkt_type local_id payload addr = search (keeps_rules, send_to-Keeps)

  join-Keeps :
      (header : PacketHeader) (header_bytes ciphertext : List ℕ) (src_addr : SocketAddr)
      → Keeps (Holds env Q) (handle_join env header header_bytes ciphertext src_addr)
  unfolding handle_join
  join-Keeps header header_bytes ciphertext src_addr =
      search
        (
          keeps_rules,
          allocate-Keeps,
          add_peer-Keeps env Q kept,
          update_peer-Keeps env Q kept,
          connect_keeps,
          send_control-Keeps,
        )
        depth 20

  greet-Keeps :
      (my_id : ℕ) (session_id : List ℕ) (sender : ℕ) (src_addr : SocketAddr) (p : PeerEntry)
      → Keeps (Holds env Q) (greet env my_id session_id sender src_addr p)
  unfolding greet
  greet-Keeps my_id session_id sender src_addr (id, addr) =
      search (keeps_rules, add_peer-Keeps env Q kept, send_control-Keeps, greeted-Keeps env Q kept)
        depth 12

  pub greet_all-Keeps :
      (my_id : ℕ) (session_id : List ℕ) (sender : ℕ) (src_addr : SocketAddr) (ps : List PeerEntry)
      → Keeps (Holds env Q) (greet_all env my_id session_id sender src_addr ps)
  unfolding greet_all
  greet_all-Keeps my_id session_id sender src_addr [] = search keeps_rules
  greet_all-Keeps my_id session_id sender src_addr (p ∷ ps) =
      Keeps-bind _ _ (greet-Keeps my_id session_id sender src_addr p)
        (λ done. greet_all-Keeps my_id session_id sender src_addr ps)

  add_unknown-Keeps :
      (peer_id : ℕ) (src_addr : SocketAddr) (known : Option (RemotePeer env.fl env.op))
      → Keeps (Holds env Q) (add_unknown env peer_id src_addr known)
  unfolding add_unknown
  add_unknown-Keeps peer_id src_addr none = add_peer-Keeps env Q kept peer_id src_addr
  add_unknown-Keeps peer_id src_addr (some p) = search keeps_rules

  hello-Keeps :
      (header : PacketHeader) (header_bytes ciphertext : List ℕ) (src_addr : SocketAddr)
      → Keeps (Holds env Q) (handle_hello env header header_bytes ciphertext src_addr)
  unfolding handle_hello
  hello-Keeps header header_bytes ciphertext src_addr =
      search
        (
          keeps_rules,
          add_unknown-Keeps,
          update_peer-Keeps env Q kept,
          connect_keeps,
          send_control-Keeps,
        )
        depth 20

  hello_ack-Keeps :
      (header : PacketHeader) (header_bytes ciphertext : List ℕ)
      → Keeps (Holds env Q) (handle_hello_ack env header header_bytes ciphertext)
  unfolding handle_hello_ack
  hello_ack-Keeps header header_bytes ciphertext =
      search (keeps_rules, update_peer-Keeps env Q kept, connect_keeps) depth 20

  touch_found-Keeps : (found : Option ℕ) → Keeps (Holds env Q) (touch_found env found)
  unfolding touch_found
  touch_found-Keeps none = search keeps_rules
  touch_found-Keeps (some peer_id) = update_peer-Keeps env Q kept peer_id _ (touch_keeps env)

  touch_by_addr-Keeps : (src_addr : SocketAddr) → Keeps (Holds env Q) (touch_by_addr env src_addr)
  unfolding touch_by_addr
  touch_by_addr-Keeps src_addr = search (keeps_rules, touch_found-Keeps)

  send_pong-Keeps :
      (local_id counter : ℕ) (payload : List ℕ) (src_addr : SocketAddr)
      → Keeps (Holds env Q) (send_pong env local_id counter payload src_addr)
  unfolding send_pong
  send_pong-Keeps local_id counter payload src_addr = search (keeps_rules, send_to-Keeps) depth 10

  ping-Keeps :
      (header : PacketHeader) (header_bytes ciphertext : List ℕ) (src_addr : SocketAddr)
      → Keeps (Holds env Q) (handle_ping env header header_bytes ciphertext src_addr)
  unfolding handle_ping
  ping-Keeps header header_bytes ciphertext src_addr =
      search (keeps_rules, reserve_counter-Keeps, send_pong-Keeps, touch_by_addr-Keeps) depth 20

  pong-Keeps :
      (header : PacketHeader) (header_bytes ciphertext : List ℕ)
      → Keeps (Holds env Q) (handle_pong env header header_bytes ciphertext)
  unfolding handle_pong
  pong-Keeps header header_bytes ciphertext =
      search (keeps_rules, update_peer-Keeps env Q kept, measure_keeps) depth 20

  pub send_key-Keeps :
      (session_id : List ℕ) (local_id peer_id : ℕ) (addr : SocketAddr)
      → Keeps (Holds env Q) (send_key env session_id local_id peer_id addr)
  unfolding send_key
  send_key-Keeps session_id local_id peer_id addr =
      search (keeps_rules, send_to-Keeps, key_sent-Keeps env Q kept) depth 10

  key_exchange-Keeps :
      (header : PacketHeader) (header_bytes ciphertext : List ℕ) (src_addr : SocketAddr)
      → Keeps (Holds env Q) (handle_key_exchange env header header_bytes ciphertext src_addr)
  unfolding handle_key_exchange
  key_exchange-Keeps header header_bytes ciphertext src_addr =
      search (keeps_rules, update_peer-Keeps env Q kept, install_key_keeps, send_key-Keeps) depth 20

  -- The arm for a peer list, which gives an identity, is left to the property.
  dispatch-Keeps :
      (header : PacketHeader) (header_bytes ciphertext : List ℕ) (src_addr : SocketAddr)
      → ((header.pkt_type == pkt_peer_list) ≡ true
          → Keeps (Holds env Q) (handle_peer_list env header header_bytes ciphertext src_addr))
      → Keeps (Holds env Q) (dispatch env header header_bytes ciphertext src_addr)
  unfolding dispatch handle_keepalive
  dispatch-Keeps header header_bytes ciphertext src_addr listed =
      search
        (
          Keeps-test, Keeps-raise, audio-Keeps, join-Keeps, listed, hello-Keeps, hello_ack-Keeps,
          ping-Keeps, pong-Keeps, key_exchange-Keeps, touch_by_addr-Keeps,
        )
        depth 30

  pub packet-Keeps :
      (bytes : List ℕ) (src_addr : SocketAddr)
      → ((header : PacketHeader) (header_bytes ct : List ℕ)
          → parse_wire_packet bytes ≡ ok (header_bytes, ct)
          → Header.from_bytes header_bytes ≡ ok header
          → (header.pkt_type == pkt_peer_list) ≡ true
          → Keeps (Holds env Q) (handle_peer_list env header header_bytes ct src_addr))
      → Keeps (Holds env Q) (handle_incoming env bytes src_addr)
  unfolding handle_incoming
  packet-Keeps bytes src_addr listed = Keeps-opened _ _ λ parts split.
      Keeps-opened _ _ λ header read.
        dispatch-Keeps header parts.0 parts.1 src_addr (listed header parts.0 parts.1 split read)
