-- ===== src/Session/Joining.antt =====
-- A peer list on its way from the host to a joiner.
use voicechat.Base.{ℕ, List, ◌∷◌, [], ◌≡◌, refl, ap, ◌∙◌, ok, some, arith, replicate}
use voicechat.Crypto.Aead.{Opens}
use voicechat.Crypto.Context.{CryptoContext}
use voicechat.Crypto.Context
use voicechat.Net.Addr.{SocketAddr}
use voicechat.Net.Header.{PacketHeader, IsHeader, pkt_peer_list}
use voicechat.Net.Header
use voicechat.Net.PeerList.{PeerListPayload, PeerEntry}
use voicechat.Net.PeerList
use voicechat.Peer.{RemotePeer, modify_peer, add_peer, set_identity}
use voicechat.Peer.Identity.{identity-add_peer}
use voicechat.Session.World.{
  Env, World, ◌>>=◌, lift, with_peers, update_peers, update_peer, send_to, seal, unseal,
}
use voicechat.Session.Handshake.{
  greatest_id, psk_ctx, zero_session, adopt, greet, greet_all, send_control, handle_peer_list,
}
use voicechat.Session.Incoming.{dispatch, handle_incoming}
use voicechat.Session.Delivery.{sealed_arrives}
use voicechat.Session.Keeps.{Keeps, Keeps-bind, keeps_rules}

module _ (env : Env) (my_id : ℕ) (session_id : List ℕ) where
  -- The id and the session that a peer list has given, with the context of that session.
  pub record Adopted (w : World env) : Type 0 where
    pub id : w.peer_mgr.local_id ≡ my_id
    pub session : w.peer_mgr.session_id ≡ session_id
    pub context : w.crypto_ctx ≡ Context.new env.key session_id

  send_to-Adopted : (wire : List ℕ) (addr : SocketAddr) → Keeps Adopted (send_to env wire addr)
  unfolding send_to
  send_to-Adopted wire addr = record { at = λ w h. ground arith }

  update_peer-Adopted :
      (id : ℕ) (f : RemotePeer env.fl env.op → RemotePeer env.fl env.op)
      → Keeps Adopted (update_peer id f)
  unfolding update_peers modify_peer
  update_peer-Adopted id f = record {
    at = λ w h. record { id = h.id; session = h.session; context = h.context };
  }

  add_peer-Adopted :
      (id : ℕ) (addr : SocketAddr)
      → Keeps Adopted (with_peers (λ pm. add_peer env.fl env.op env.now pm id addr))
  unfolding with_peers
  add_peer-Adopted id addr = record {
    at = λ w h.
        let same = identity-add_peer env.fl env.op w.peer_mgr env.now id addr in
        record {
          id = ap (λ i. i.0) same ∙ h.id;
          session = ap (λ i. i.1) same ∙ h.session;
          context = h.context;
        };
  }

  send_control-Adopted :
      (session : List ℕ) (pkt_type local_id : ℕ) (payload : List ℕ) (addr : SocketAddr)
      → Keeps Adopted (send_control env session pkt_type local_id payload addr)
  unfolding send_control
  send_control-Adopted session pkt_type local_id payload addr =
      search (keeps_rules, send_to-Adopted)

  greet_all-Adopted :
      (own : ℕ) (session : List ℕ) (sender : ℕ) (src_addr : SocketAddr) (ps : List PeerEntry)
      → Keeps Adopted (greet_all env own session sender src_addr ps)
  unfolding greet_all greet
  greet_all-Adopted own session sender src_addr [] = search keeps_rules
  greet_all-Adopted own session sender src_addr ((id, addr) ∷ ps) =
      Keeps-bind _ _
        (search (keeps_rules, add_peer-Adopted, send_control-Adopted, update_peer-Adopted) depth 12)
        (λ done. greet_all-Adopted own session sender src_addr ps)

module _ (env : Env) (header : PacketHeader) (header_bytes ct payload : List ℕ)
    (pl : PeerListPayload) (my_id : ℕ) where
  -- The arm for a peer list that opens, is read, and is not empty.
  listed-Adopted :
      (src_addr : SocketAddr) (w : World env)
      → unseal env (psk_ctx env (zero_session env)) header header_bytes ct ≡ ok payload
      → PeerList.from_bytes payload ≡ ok pl
      → greatest_id pl.peers ≡ some my_id
      → Adopted env my_id pl.session_id (handle_peer_list env header header_bytes ct src_addr w).1
  unfolding handle_peer_list ◌>>=◌ lift adopt set_identity
  listed-Adopted src_addr w opened read own =
      let joined : World env = (adopt env my_id pl.session_id w).1 in
      rw (opened, read, own)
        ((greet_all-Adopted env my_id pl.session_id my_id pl.session_id header.peer_id src_addr
            pl.peers).at
          joined (record { id = refl; session = refl; context = refl }))

module _ (here there : Env) (same_cipher : there.aead ≡ here.aead) (opens : Opens here.aead)
    (ctx : CryptoContext) (header : PacketHeader) (valid : IsHeader header) (payload wire : List ℕ)
    (sealed : seal here ctx header payload ≡ ok wire) where
  -- Whoever handles a non-empty peer list that was sealed with its own key for the zero session has
  -- afterwards the greatest id of the list, the list's session, and a new shared context of that session,
  -- whose counter starts at 0: whatever the state was before, and whether or not the greetings that
  -- follow can be sent.
  pub peer_list_adopted :
      (src_addr : SocketAddr) (w : World there) (pl : PeerListPayload) (my_id : ℕ)
      → header.pkt_type ≡ pkt_peer_list
      → ctx.cipher ≡ there.key
      → ctx.session_id ≡ replicate 8 0
      → PeerList.from_bytes payload ≡ ok pl
      → greatest_id pl.peers ≡ some my_id
      → let after = (handle_incoming there wire src_addr w).1 in
        (after.peer_mgr.local_id ≡ my_id)
        × (after.peer_mgr.session_id ≡ pl.session_id)
        × (after.crypto_ctx ≡ Context.new there.key pl.session_id)
  unfolding dispatch psk_ctx Context.new
  peer_list_adopted src_addr w pl my_id type key zero read own =
      let (ct, arrives, opened) =
        sealed_arrives here there same_cipher opens ctx header valid payload wire sealed in
      let listed =
        listed-Adopted there header (Header.to_bytes header) ct payload pl my_id src_addr w
          (opened (psk_ctx there (zero_session there)) key zero) read own in
      let here_goes : dispatch there header (Header.to_bytes header) ct src_addr w
          ≡ handle_peer_list there header (Header.to_bytes header) ct src_addr w =
        ground arith in
      rw (arrives src_addr w, here_goes) (listed.id, listed.session, listed.context)
