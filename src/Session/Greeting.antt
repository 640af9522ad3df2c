-- ===== src/Session/Greeting.antt =====
-- A HELLO between two sessions, and the HELLO_ACK that answers it.
pub mod Exchanged
use voicechat.Base.{
  ℕ, List, [], ◌∷◌, ◌++◌, ◌≡◌, refl, sym, ap, ◌∙◌, Result, ok, some, Option, true, arith, IsByte,
}
use voicechat.Crypto.Aead.{Opens}
use voicechat.Crypto.Context
use voicechat.Net.Addr.{SocketAddr}
use voicechat.Net.Header.{PacketHeader, IsHeader, pkt_hello, pkt_hello_ack}
use voicechat.Net.Header
use voicechat.Peer.{RemotePeer, touch, get_peer, modify_peer}
use voicechat.Session.World.{Env, World, ◌>>=◌, lift, gets, update_peers, seal, unseal}
use voicechat.Session.Handshake.{psk_ctx, connect, add_unknown, handle_hello, handle_hello_ack}
use voicechat.Session.Incoming.{dispatch, handle_incoming}
use voicechat.Session.Counted.{bind_at}
use voicechat.Session.Delivery.{sealed_arrives}
use voicechat.Session.Pairing.{modified}
use voicechat.Session.Welcome.{control_sent, connected_now}

-- The headers of the two packets.
abbrev pub hello_header : ℕ → PacketHeader
hello_header local_id = record {
  pkt_type = pkt_hello;
  peer_id = local_id;
  seq_num = 0;
  counter = 0;
}

abbrev pub ack_header : ℕ → PacketHeader
ack_header local_id = record {
  pkt_type = pkt_hello_ack;
  peer_id = local_id;
  seq_num = 0;
  counter = 0;
}

pub hello_header-IsHeader : (id : ℕ) → IsByte id → IsHeader (hello_header id)
hello_header-IsHeader id byte = record {
  pkt_type_range = omega arith;
  peer_id_range = omega arith;
  seq_num_range = omega arith;
  counter_range = omega arith;
}

pub ack_header-IsHeader : (id : ℕ) → IsByte id → IsHeader (ack_header id)
ack_header-IsHeader id byte = record {
  pkt_type_range = omega arith;
  peer_id_range = omega arith;
  seq_num_range = omega arith;
  counter_range = omega arith;
}

module _ (env : Env) where
  -- A session after it was greeted by a peer, and has sent what it sends.
  abbrev pub greeted_by : ℕ → World env → List (List ℕ × SocketAddr) → World env
  greeted_by id w sent = record w {
    peer_mgr = modify_peer env.fl env.op id (connected_now env) w.peer_mgr;
    sent = sent;
  }

  -- The arm for a HELLO that opens, from a peer that is known or can be added.
  pub hello_answered :
      (header : PacketHeader) (header_bytes ct plaintext ack : List ℕ) (src_addr : SocketAddr)
      (w w' : World env)
      → unseal env (psk_ctx env w.peer_mgr.session_id) header header_bytes ct ≡ ok plaintext
      → add_unknown env header.peer_id src_addr (get_peer env.fl env.op w.peer_mgr header.peer_id) w
        ≡ (ok tt, w')
      → seal env (psk_ctx env w.peer_mgr.session_id) (ack_header w'.peer_mgr.local_id) [] ≡ ok ack
      → env.sendable ack src_addr ≡ true
      → handle_hello env header header_bytes ct src_addr w
        ≡ (ok tt, greeted_by header.peer_id w' (w'.sent ++ (ack, src_addr) ∷ []))
  unfolding handle_hello gets lift update_peers modify_peer connect touch
  hello_answered header header_bytes ct plaintext ack src_addr w w' opened added sealed goes =
      bind_at _ _ w w.peer_mgr.session_id w refl
      ∙ bind_at _ _ w plaintext w (ap (λ r. (r, w)) opened)
      ∙ bind_at _ _ w _ w refl
      ∙ bind_at _ _ w tt w' added
      ∙ bind_at _ _ w' tt (greeted_by header.peer_id w' w'.sent) refl
      ∙ bind_at _ _ _ w'.peer_mgr.local_id _ refl
      ∙ control_sent env (greeted_by header.peer_id w' w'.sent) w.peer_mgr.session_id
          (ack_header w'.peer_mgr.local_id) [] ack src_addr refl refl sealed goes

  pub ack_connects :
      (header : PacketHeader) (header_bytes ct plaintext : List ℕ) (w : World env)
      → unseal env (psk_ctx env w.peer_mgr.session_id) header header_bytes ct ≡ ok plaintext
      → handle_hello_ack env header header_bytes ct w ≡ (ok tt, greeted_by header.peer_id w w.sent)
  unfolding handle_hello_ack gets lift update_peers connect touch
  ack_connects header header_bytes ct plaintext w opened =
      bind_at _ _ w w.peer_mgr.session_id w refl
      ∙ bind_at _ _ w plaintext w (ap (λ r. (r, w)) opened)
