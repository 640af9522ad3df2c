-- ===== src/Session/Greeting/Exchanged.antt =====
-- The whole exchange of a HELLO and a HELLO_ACK.
use voicechat.Base.{ℕ, List, [], ◌∷◌, ◌++◌, ◌≡◌, sym, ap, ◌∙◌, Result, ok, some, true, IsByte}
use voicechat.Crypto.Aead.{Opens}
use voicechat.Crypto.Context
use voicechat.Net.Addr.{SocketAddr}
use voicechat.Net.Header
use voicechat.Peer.{RemotePeer, get_peer}
use voicechat.Session.World.{Env, World, seal}
use voicechat.Session.Handshake.{psk_ctx, add_unknown}
use voicechat.Session.Incoming.{dispatch, handle_incoming}
use voicechat.Session.Delivery.{sealed_arrives}
use voicechat.Session.Pairing.{modified}
use voicechat.Session.Welcome.{connected_now}
use voicechat.Session.Greeting.{
  hello_header, ack_header, hello_header-IsHeader, ack_header-IsHeader, greeted_by, hello_answered,
  ack_connects,
}

module _ (here there : Env) (same_cipher : there.aead ≡ here.aead) (same_key : there.key ≡ here.key)
    (opens : Opens here.aead) (w : World here) (v v' : World there)
    (same_session : v.peer_mgr.session_id ≡ w.peer_mgr.session_id) where
  -- A HELLO for a session of the same passphrase and session id that knows the greeter, or can add it: the
  -- receiver has the greeter connected and sends one packet back, and the greeter who handles that packet
  -- has the receiver connected, if it knows it.
  pub hello_exchanged :
      (hello ack : List ℕ) (src_here src_there : SocketAddr) (p : RemotePeer here.fl here.op)
      (q : RemotePeer there.fl there.op)
      → seal here (psk_ctx here w.peer_mgr.session_id) (hello_header w.peer_mgr.local_id) []
        ≡ ok hello
      → seal there (psk_ctx there v.peer_mgr.session_id) (ack_header v'.peer_mgr.local_id) []
        ≡ ok ack
      → IsByte w.peer_mgr.local_id
      → IsByte v'.peer_mgr.local_id
      → add_unknown there w.peer_mgr.local_id src_here
          (get_peer there.fl there.op v.peer_mgr w.peer_mgr.local_id)
          v
        ≡ (ok tt, v')
      → get_peer there.fl there.op v'.peer_mgr w.peer_mgr.local_id ≡ some q
      → there.sendable ack src_here ≡ true
      → get_peer here.fl here.op w.peer_mgr v'.peer_mgr.local_id ≡ some p
      → let after = greeted_by there w.peer_mgr.local_id v' (v'.sent ++ (ack, src_here) ∷ []) in
        (handle_incoming there hello src_here v ≡ (ok tt, after))
        × (get_peer there.fl there.op after.peer_mgr w.peer_mgr.local_id
            ≡ some (connected_now there q))
        × (get_peer here.fl here.op
              (handle_incoming here ack src_there w).1.peer_mgr
              v'.peer_mgr.local_id
            ≡ some (connected_now here p))
  unfolding dispatch psk_ctx Context.new
  hello_exchanged hello ack src_here src_there p q greets answers byte byte' added held goes known =
      let header = hello_header w.peer_mgr.local_id in
      let header' = ack_header v'.peer_mgr.local_id in
      let (ct, arrives, opened) =
        sealed_arrives here there same_cipher opens (psk_ctx here w.peer_mgr.session_id) header
          (hello_header-IsHeader w.peer_mgr.local_id byte) [] hello greets in
      let (ct', arrives', opened') =
        sealed_arrives there here (sym same_cipher) (rw same_cipher opens)
          (psk_ctx there v.peer_mgr.session_id) header'
          (ack_header-IsHeader v'.peer_mgr.local_id byte') [] ack answers in
      (
        arrives src_here v
            ∙ hello_answered there header (Header.to_bytes header) ct [] ack src_here v v'
                (opened (psk_ctx there v.peer_mgr.session_id) (sym same_key) (sym same_session))
                added answers goes,
        modified there w.peer_mgr.local_id (connected_now there) v'.peer_mgr q held,
        ap
              (λ (r : Result (Unit {0}) × World here).
                get_peer here.fl here.op r.1.peer_mgr v'.peer_mgr.local_id)
              (arrives' src_there w
                ∙ ack_connects here header' (Header.to_bytes header') ct' [] w
                    (opened' (psk_ctx here w.peer_mgr.session_id) same_key same_session))
            ∙ modified here v'.peer_mgr.local_id (connected_now here) w.peer_mgr p known,
      )
