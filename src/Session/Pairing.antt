-- ===== src/Session/Pairing.antt =====
-- The exchange of public keys between two sessions, and the key of the pair.
pub mod Agreed
use voicechat.Base.{
  ℕ, List, [], ◌∷◌, ◌++◌, ◌≡◌, refl, sym, ap, ◌∙◌, Result, ok, some, none, Option, true, false,
  Bool, not, Bool-cases, inl, inr, arith, IsArray, IsByte, if◌then◌else◌,
}
use mathlib.Core.List.{append-nil}
use mathlib.Core.Option
use native.Mathlib.Decide.{ℕ_discrete}
use voicechat.Base.Table
use voicechat.Crypto.Aead.{Opens}
use voicechat.Crypto.Context.{CryptoContext}
use voicechat.Crypto.Context
use voicechat.KeyExchange.{
  Dh, KeyExchange, Agrees, derive_peer_key, derive_peer_key_agree, public_key_bytes,
}
use voicechat.KeyExchange
use voicechat.Net.Addr.{SocketAddr}
use voicechat.Net.Header.{PacketHeader, IsHeader, pkt_key_exchange}
use voicechat.Net.Header
use voicechat.Net.KeyExchangePayload.{KeyExchangePayload, key_round_trip}
use voicechat.Net.KeyExchangePayload
use voicechat.Peer.{RemotePeer, PeerManager, get_peer, modify_peer}
use voicechat.Session.World.{
  Env, World, ◌>>=◌, pure, lift, gets, update_peers, update_peer, attempt, attempted, send_to, seal,
  unseal,
}
use voicechat.Session.Handshake.{psk_ctx}
use voicechat.Session.Control.{install_key, needs_key, send_key, or_done, handle_key_exchange}
use voicechat.Session.Counted.{bind_at}
use voicechat.Session.Delivery.{sealed_arrives}
use voicechat.Session.Incoming.{dispatch, handle_incoming}

module _ (env : Env) where
  -- A peer with a new context of the key of the pair, which has sent its key and was sent ours.
  unfoldable pub paired : List ℕ → List ℕ → RemotePeer env.fl env.op → RemotePeer env.fl env.op
  paired key session_id p = record p {
    peer_crypto = some (Context.new key session_id);
    kx_received = true;
    kx_sent = true;
  }

  abbrev pub offer_header : ℕ → PacketHeader
  offer_header local_id = record {
    pkt_type = pkt_key_exchange;
    peer_id = local_id;
    seq_num = 0;
    counter = 0;
  }

  -- The packet that offers the own public key.
  abbrev pub offer : List ℕ → ℕ → Result (List ℕ)
  offer session_id local_id =
      seal env (psk_ctx env session_id) (offer_header local_id)
        (KeyExchangePayload.to_bytes (record { public_key = public_key_bytes env.key_exchange }))

  pub modified :
      (id : ℕ) (f : RemotePeer env.fl env.op → RemotePeer env.fl env.op)
      (pm : PeerManager env.fl env.op) (p : RemotePeer env.fl env.op)
      → get_peer env.fl env.op pm id ≡ some p
      → get_peer env.fl env.op (modify_peer env.fl env.op id f pm) id ≡ some (f p)
  unfolding get_peer modify_peer
  modified id f pm p known = ground (arith, Table.get-modify ℕ_discrete id id f pm.peers)

  -- Sending, whether or not the system takes the packet, changes no peer.
  pub sent_peers :
      (wire : List ℕ) (addr : SocketAddr) (w : World env)
      → (sent : List (List ℕ × SocketAddr)) × (attempt (send_to env wire addr) w
          ≡ (ok tt, record w { sent = sent }))
  unfolding attempt attempted send_to
  sent_peers wire addr w = elim (Bool-cases (env.sendable wire addr)) [
    | inl goes ↦ (w.sent ++ (wire, addr) ∷ [], rw goes refl)
    | inr stays ↦ (w.sent, rw stays refl)
  ]

  module _ (session_id wire : List ℕ) (local_id id : ℕ) (addr : SocketAddr)
      (offered : offer session_id local_id ≡ ok wire) (w : World env) (p : RemotePeer env.fl env.op)
      (known : get_peer env.fl env.op w.peer_mgr id ≡ some p) where
    -- The peer after our key was offered to it.
    offered_to :
        get_peer env.fl env.op (send_key env session_id local_id id addr w).1.peer_mgr id
        ≡ some (record p { kx_sent = true })
    unfolding send_key or_done update_peers
    offered_to =
        let (sent, goes) = sent_peers wire addr w in
        ap
          (λ (r : Result (List ℕ)).
            get_peer env.fl env.op
              (or_done env r
                (λ wire. attempt (send_to env wire addr) >>= λ done.
                  update_peer id (λ q. record q { kx_sent = true }))
                w).1.peer_mgr
              id)
          offered
        ∙ ap (λ (r : Result (Unit {0}) × World env). get_peer env.fl env.op r.1.peer_mgr id)
            (bind_at _ _ w tt (record w { sent = sent }) goes)
        ∙ modified id (λ q. record q { kx_sent = true }) w.peer_mgr p known

  module _ (header : PacketHeader) (header_bytes ct payload wire key : List ℕ)
      (kx : KeyExchangePayload) (w : World env) (p : RemotePeer env.fl env.op)
      (opened : unseal env (psk_ctx env w.peer_mgr.session_id) header header_bytes ct ≡ ok payload)
      (read : KeyExchangePayload.from_bytes payload ≡ ok kx)
      (derived : derive_peer_key env.dh env.key_exchange kx.public_key w.peer_mgr.session_id
          w.peer_mgr.local_id header.peer_id
        ≡ ok key)
      (offered : offer w.peer_mgr.session_id w.peer_mgr.local_id ≡ ok wire)
      (known : get_peer env.fl env.op w.peer_mgr header.peer_id ≡ some p) where
    abbrev installed : RemotePeer env.fl env.op
    installed = install_key env key w.peer_mgr.session_id p

    abbrev keyed : World env
    keyed = record w {
      peer_mgr =
          modify_peer env.fl env.op header.peer_id (install_key env key w.peer_mgr.session_id)
            w.peer_mgr;
    }

    keyed_peer : get_peer env.fl env.op keyed.peer_mgr header.peer_id ≡ some installed
    keyed_peer =
        modified header.peer_id (install_key env key w.peer_mgr.session_id) w.peer_mgr p known

    -- Our own key follows if the peer was not sent it before.
    replied :
        (src_addr : SocketAddr) (needs : Bool)
        → not p.kx_sent ≡ needs
        → get_peer env.fl env.op
            ((if needs
                then send_key env w.peer_mgr.session_id w.peer_mgr.local_id header.peer_id src_addr
                else pure tt)
              keyed).1.peer_mgr
            header.peer_id
          ≡ some (paired key w.peer_mgr.session_id p)
    unfolding paired pure install_key
    replied src_addr true e =
        offered_to w.peer_mgr.session_id wire w.peer_mgr.local_id header.peer_id src_addr offered
          keyed installed keyed_peer
    replied src_addr false e =
        let before : p.kx_sent ≡ true = ground arith in
        keyed_peer
        ∙ ap (λ b. some (record (install_key env key w.peer_mgr.session_id p) { kx_sent = b }))
            before

    -- The arm for a key exchange that opens, is read, and gives a key.
    pub key_arrives :
        (src_addr : SocketAddr)
        → get_peer env.fl env.op
            (handle_key_exchange env header header_bytes ct src_addr w).1.peer_mgr
            header.peer_id
          ≡ some (paired key w.peer_mgr.session_id p)
    unfolding handle_key_exchange gets lift update_peers
    key_arrives src_addr =
        let needs : needs_key env (get_peer env.fl env.op keyed.peer_mgr header.peer_id)
            ≡ not p.kx_sent =
          ap (needs_key env) keyed_peer in
        ap
          (λ (r : Result (Unit {0}) × World env).
            get_peer env.fl env.op r.1.peer_mgr header.peer_id)
          (bind_at _ _ w w.peer_mgr.session_id w refl
            ∙ bind_at _ _ w w.peer_mgr.local_id w refl
            ∙ bind_at _ _ w payload w (ap (λ r. (r, w)) opened)
            ∙ bind_at _ _ w kx w (ap (λ r. (r, w)) read)
            ∙ bind_at _ _ w key w (ap (λ r. (r, w)) derived)
            ∙ bind_at _ _ w tt keyed refl
            ∙ bind_at _ _ keyed (not p.kx_sent) keyed (ap (λ b. (ok b, keyed)) needs))
        ∙ replied src_addr (not p.kx_sent) refl

offer_header-IsHeader : (env : Env) (id : ℕ) → IsByte id → IsHeader (offer_header env id)
offer_header-IsHeader env id byte = record {
  pkt_type_range = omega arith;
  peer_id_range = omega arith;
  seq_num_range = omega arith;
  counter_range = omega arith;
}

module _ (here there : Env) (same_cipher : there.aead ≡ here.aead) (same_key : there.key ≡ here.key)
    (opens : Opens here.aead) (w : World here) (v : World there)
    (same_session : v.peer_mgr.session_id ≡ w.peer_mgr.session_id) where
  -- What `here` sends to offer its key arrives `there`.
  pub offer_arrives :
      (wire own key : List ℕ) (src_addr : SocketAddr) (q : RemotePeer there.fl there.op)
      → offer here w.peer_mgr.session_id w.peer_mgr.local_id ≡ ok wire
      → offer there v.peer_mgr.session_id v.peer_mgr.local_id ≡ ok own
      → IsByte w.peer_mgr.local_id
      → IsArray 32 (public_key_bytes here.key_exchange)
      → get_peer there.fl there.op v.peer_mgr w.peer_mgr.local_id ≡ some q
      → derive_peer_key there.dh there.key_exchange
          (public_key_bytes here.key_exchange)
          v.peer_mgr.session_id
          v.peer_mgr.local_id
          w.peer_mgr.local_id
        ≡ ok key
      → get_peer there.fl there.op
          (handle_incoming there wire src_addr v).1.peer_mgr
          w.peer_mgr.local_id
        ≡ some (paired there key v.peer_mgr.session_id q)
  unfolding dispatch psk_ctx Context.new
  offer_arrives wire own key src_addr q sealed ready byte size known derived =
      let header = offer_header here w.peer_mgr.local_id in
      let kx : KeyExchangePayload = record { public_key = public_key_bytes here.key_exchange } in
      let (ct, arrives, opened) =
        sealed_arrives here there same_cipher opens (psk_ctx here w.peer_mgr.session_id) header
          (offer_header-IsHeader here w.peer_mgr.local_id byte) (KeyExchangePayload.to_bytes kx)
          wire sealed in
      let read =
        ap KeyExchangePayload.from_bytes (sym (append-nil (KeyExchangePayload.to_bytes kx)))
        ∙ key_round_trip kx [] size in
      ap
        (λ (r : Result (Unit {0}) × World there).
          get_peer there.fl there.op r.1.peer_mgr w.peer_mgr.local_id)
        (arrives src_addr v)
      ∙ key_arrives there header (Header.to_bytes header) ct (KeyExchangePayload.to_bytes kx) own
          key kx v q
          (opened (psk_ctx there v.peer_mgr.session_id) (sym same_key) (sym same_session)) read
          derived ready known src_addr
