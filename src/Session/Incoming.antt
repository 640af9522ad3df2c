-- ===== src/Session/Incoming.antt =====
-- `Session::handle_incoming` of vc-core/src/lib.rs.
use voicechat.Base.{ℕ, List, ◌==◌, if◌then◌else◌}
use voicechat.Base.Bytes.{unknown_packet_type}
use voicechat.Net.Addr.{SocketAddr}
use voicechat.Net.Header.{
  PacketHeader, pkt_audio, pkt_join, pkt_hello, pkt_peer_list, pkt_keepalive, pkt_hello_ack,
  pkt_ping, pkt_pong, pkt_key_exchange,
}
use voicechat.Net.Header
use voicechat.Net.Wire.{parse_wire_packet}
use voicechat.Session.World.{Env, M, ◌>>=◌, raise, lift}
use voicechat.Session.Audio.{handle_audio}
use voicechat.Session.Handshake.{handle_join, handle_peer_list, handle_hello, handle_hello_ack}
use voicechat.Session.Control.{handle_keepalive, handle_ping, handle_pong, handle_key_exchange}

module _ (env : Env) where
  -- The `match header.pkt_type`.
  unfoldable pub dispatch : PacketHeader → List ℕ → List ℕ → SocketAddr → M env (Unit {0})
  dispatch header header_bytes ciphertext src_addr =
      if header.pkt_type == pkt_audio
      then handle_audio env header header_bytes ciphertext
      else if header.pkt_type == pkt_join
      then handle_join env header header_bytes ciphertext src_addr
      else if header.pkt_type == pkt_peer_list
      then handle_peer_list env header header_bytes ciphertext src_addr
      else if header.pkt_type == pkt_hello
      then handle_hello env header header_bytes ciphertext src_addr
      else if header.pkt_type == pkt_hello_ack
      then handle_hello_ack env header header_bytes ciphertext
      else if header.pkt_type == pkt_keepalive
      then handle_keepalive env src_addr
      else if header.pkt_type == pkt_ping
      then handle_ping env header header_bytes ciphertext src_addr
      else if header.pkt_type == pkt_pong
      then handle_pong env header header_bytes ciphertext
      else if header.pkt_type == pkt_key_exchange
      then handle_key_exchange env header header_bytes ciphertext src_addr
      else raise unknown_packet_type

  unfoldable pub handle_incoming : List ℕ → SocketAddr → M env (Unit {0})
  unfolding dispatch
  handle_incoming bytes src_addr = do
    (header_bytes, ciphertext) ← lift (parse_wire_packet bytes)
    header ← lift (Header.from_bytes header_bytes)
    dispatch header header_bytes ciphertext src_addr
