-- ===== src/Session/Pairing/Agreed.antt =====
-- Both sides of an exchange of public keys.
use voicechat.Base.{ℕ, List, ◌≡◌, sym, ap, ◌∙◌, ok, some, IsArray, IsByte}
use voicechat.Crypto.Aead.{Opens}
use voicechat.KeyExchange.{Agrees, derive_peer_key, derive_peer_key_agree, public_key_bytes}
use voicechat.KeyExchange
use voicechat.Net.Addr.{SocketAddr}
use voicechat.Peer.{RemotePeer, get_peer}
use voicechat.Session.World.{Env, World}
use voicechat.Session.Incoming.{handle_incoming}
use voicechat.Session.Pairing.{paired, offer, offer_arrives}

module _ (here there : Env) (same_cipher : there.aead ≡ here.aead) (same_key : there.key ≡ here.key)
    (opens : Opens here.aead) (same_dh : there.dh ≡ here.dh) (agrees : Agrees here.dh)
    (a b : List ℕ) (mine : here.key_exchange ≡ KeyExchange.new here.dh a)
    (theirs : there.key_exchange ≡ KeyExchange.new here.dh b) (w : World here) (v : World there)
    (same_session : v.peer_mgr.session_id ≡ w.peer_mgr.session_id) where
  derived_there :
      (key : List ℕ)
      → derive_peer_key here.dh here.key_exchange
          (public_key_bytes there.key_exchange)
          w.peer_mgr.session_id
          w.peer_mgr.local_id
          v.peer_mgr.local_id
        ≡ ok key
      → derive_peer_key there.dh there.key_exchange
          (public_key_bytes here.key_exchange)
          v.peer_mgr.session_id
          v.peer_mgr.local_id
          w.peer_mgr.local_id
        ≡ ok key
  derived_there key derived =
      rw (same_dh, theirs, mine, same_session)
        (sym (
            derive_peer_key_agree here.dh a b w.peer_mgr.session_id w.peer_mgr.local_id
              v.peer_mgr.local_id agrees)
          ∙ rw (sym theirs, sym mine) derived)

  -- Two sessions of one passphrase and one session id that know each other exchange public keys. When
  -- each handles the packet by which the other offers its key, and one of them can derive a key, then
  -- both hold the other as a peer with a new context of that one key for the session, marked as sent
  -- and received; whether or not they had sent their own keys before, and whether or not the system
  -- takes the packets sent in reply.
  pub keys_agree :
      (offered_here offered_there key : List ℕ) (src_here src_there : SocketAddr)
      (p : RemotePeer here.fl here.op) (q : RemotePeer there.fl there.op)
      → offer here w.peer_mgr.session_id w.peer_mgr.local_id ≡ ok offered_here
      → offer there v.peer_mgr.session_id v.peer_mgr.local_id ≡ ok offered_there
      → IsByte w.peer_mgr.local_id
      → IsByte v.peer_mgr.local_id
      → IsArray 32 (public_key_bytes here.key_exchange)
      → IsArray 32 (public_key_bytes there.key_exchange)
      → get_peer here.fl here.op w.peer_mgr v.peer_mgr.local_id ≡ some p
      → get_peer there.fl there.op v.peer_mgr w.peer_mgr.local_id ≡ some q
      → derive_peer_key here.dh here.key_exchange
          (public_key_bytes there.key_exchange)
          w.peer_mgr.session_id
          w.peer_mgr.local_id
          v.peer_mgr.local_id
        ≡ ok key
      → (get_peer here.fl here.op
            (handle_incoming here offered_there src_there w).1.peer_mgr
            v.peer_mgr.local_id
          ≡ some (paired here key w.peer_mgr.session_id p))
        × (get_peer there.fl there.op
              (handle_incoming there offered_here src_here v).1.peer_mgr
              w.peer_mgr.local_id
            ≡ some (paired there key w.peer_mgr.session_id q))
  keys_agree offered_here offered_there key src_here src_there p q sealed_here sealed_there
        byte_here byte_there size_here size_there known_here known_there derived =
      (
        offer_arrives there here (sym same_cipher) (sym same_key) (rw same_cipher opens) v w
            (sym same_session) offered_there offered_here key src_there p sealed_there sealed_here
            byte_there size_there known_here derived,
        offer_arrives here there same_cipher same_key opens w v same_session offered_here
              offered_there key src_here q sealed_here sealed_there byte_here size_here known_there
              (derived_there key derived)
            ∙ ap (λ s. some (paired there key s q)) same_session,
      )
