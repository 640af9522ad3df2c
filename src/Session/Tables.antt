-- ===== src/Session/Tables.antt =====
-- The peer tables through the handling of a packet.
use voicechat.Base.{ℕ, List, refl, arith}
use voicechat.Crypto.Context.{CryptoContext}
use voicechat.Net.Addr.{SocketAddr}
use voicechat.Net.Header.{PacketHeader}
use voicechat.Peer.{PeerManager, allocate_peer_id, set_identity}
use voicechat.Peer.Validity.{
  IsValid, modify_peer-IsValid, add_peer-IsValid, map_values-IsValid, same_tables,
}
use voicechat.Session.World.{Env, World}
use voicechat.Session.Handshake.{adopt, handle_peer_list}
use voicechat.Session.Incoming.{handle_incoming}
use voicechat.Session.Keeps.{Keeps, keeps_rules}
use voicechat.Session.Kept.{Kept, Holds}
use voicechat.Session.Kept.Packets.{greet_all-Keeps, packet-Keeps}

module _ (env : Env) where
  abbrev pub ValidTables : PeerManager env.fl env.op → CryptoContext → Type 0
  ValidTables pm ctx = IsValid env.fl env.op pm

  -- The peer tables of the session are valid.
  abbrev pub Tables : World env → Type 0
  Tables = Holds env ValidTables

  pub tables-Kept : Kept env.fl env.op ValidTables
  unfolding allocate_peer_id
  tables-Kept = record {
    modified = λ pm ctx id f same v.
        modify_peer-IsValid env.fl env.op pm v id f (λ p. (same p).0) (λ p. (same p).1);
    mapped = λ pm ctx f same v. map_values-IsValid env.fl env.op pm v f same;
    added = λ pm ctx now id addr v. add_peer-IsValid env.fl env.op pm v now id addr;
    allocated = λ pm ctx v. same_tables env.fl env.op pm _ (ground arith) (ground arith) v;
    reserved = λ pm ctx v. v;
  }

  adopt-Keeps : (my_id : ℕ) (session_id : List ℕ) → Keeps Tables (adopt env my_id session_id)
  unfolding Holds adopt set_identity
  adopt-Keeps my_id session_id = record {
    at = λ w v. same_tables env.fl env.op w.peer_mgr _ refl refl v;
  }

  peer_list-Keeps :
      (header : PacketHeader) (header_bytes ciphertext : List ℕ) (src_addr : SocketAddr)
      → Keeps Tables (handle_peer_list env header header_bytes ciphertext src_addr)
  unfolding handle_peer_list
  peer_list-Keeps header header_bytes ciphertext src_addr =
      search (keeps_rules, adopt-Keeps, greet_all-Keeps env ValidTables tables-Kept) depth 20

  pub incoming-Keeps :
      (bytes : List ℕ) (src_addr : SocketAddr) → Keeps Tables (handle_incoming env bytes src_addr)
  incoming-Keeps bytes src_addr =
      packet-Keeps env ValidTables tables-Kept bytes src_addr
        λ header header_bytes ct split read list. peer_list-Keeps header header_bytes ct src_addr

  -- Whatever bytes come from whatever address, and however `handle_incoming` ends, valid peer tables
  -- stay valid.
  pub handle_incoming-Tables :
      (bytes : List ℕ) (src_addr : SocketAddr) (w : World env)
      → Tables w
      → Tables (handle_incoming env bytes src_addr w).1
  handle_incoming-Tables bytes src_addr w v = (incoming-Keeps bytes src_addr).at w v
