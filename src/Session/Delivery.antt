-- ===== src/Session/Delivery.antt =====
-- A packet on its way: what `seal` made, as `handle_incoming` of the receiver sees it.
use voicechat.Base.{
  ℕ, List, [], ◌≡◌, refl, sym, ◌∙◌, Result, ok, err, panic, some, none, Bool, true, false, ◌==◌,
  arith, IsArray,
}
use voicechat.Crypto.Aead.{Opens}
use voicechat.Crypto.Context.{CryptoContext, decrypt-encrypt}
use voicechat.Net.Addr.{SocketAddr}
use voicechat.Net.Header.{PacketHeader, IsHeader, pkt_audio, from_bytes-to_bytes}
use voicechat.Net.Header
use voicechat.Net.Wire.{build_wire_packet, parse-build_wire_packet}
use voicechat.Peer.{RemotePeer, get_peer, modify_peer}
use voicechat.Session.World.{Env, World, ◌>>=◌, lift, gets, update_peers, seal, unseal}
use voicechat.Session.Audio.{peer_context, open_audio, hear, hear_known, handle_audio}
use voicechat.Session.Incoming.{dispatch, handle_incoming}

-- The ciphertext in a packet that could be sealed.
packet_parts :
    (header_bytes wire : List ℕ) (r : Result (List ℕ))
    → (elim r [
      | ok encrypted ↦ ok (build_wire_packet header_bytes encrypted)
      | err e ↦ err e
      | panic ↦ panic
    ])
      ≡ ok wire
    → (ct : List ℕ) × (r ≡ ok ct) × (build_wire_packet header_bytes ct ≡ wire)
packet_parts header_bytes wire (ok ct) e = (ct, refl, ground arith)
packet_parts header_bytes wire (err x) e = absurd (ground arith)
packet_parts header_bytes wire panic e = absurd (ground arith)

header-IsArray : (h : PacketHeader) → IsHeader h → IsArray 8 (Header.to_bytes h)
unfolding Header.to_bytes
header-IsArray h v = refl

header_back : (h : PacketHeader) → IsHeader h → Header.from_bytes (Header.to_bytes h) ≡ ok h
unfolding Header.to_bytes
header_back h v = from_bytes-to_bytes h [] v

module _ (here there : Env) (same_cipher : there.aead ≡ here.aead) (opens : Opens here.aead)
    (ctx : CryptoContext) (header : PacketHeader) (valid : IsHeader header) (payload wire : List ℕ)
    (sealed : seal here ctx header payload ≡ ok wire) where
  -- The receiver takes the header and the ciphertext out of the packet, and a context with the key and
  -- the session of the sender's opens it.
  pub sealed_arrives :
      (ct : List ℕ) × ((src_addr : SocketAddr) (w : World there)
        → handle_incoming there wire src_addr w
          ≡ dispatch there header (Header.to_bytes header) ct src_addr w)
      × ((receiver : CryptoContext)
          → ctx.cipher ≡ receiver.cipher
          → ctx.session_id ≡ receiver.session_id
          → unseal there receiver header (Header.to_bytes header) ct ≡ ok payload)
  unfolding handle_incoming ◌>>=◌ lift seal unseal
  sealed_arrives =
      let (ct, encrypted, built) = packet_parts (Header.to_bytes header) wire _ sealed in
      (
        ct,
        λ src_addr w.
            rw
              (
                sym built,
                parse-build_wire_packet (Header.to_bytes header) ct (header-IsArray header valid),
                header_back header valid,
              )
              refl,
        λ receiver k s. rw same_cipher (
            decrypt-encrypt here.aead ctx receiver (Header.to_bytes header) payload ct
              header.peer_id header.seq_num header.counter opens k s encrypted),
      )

  open_shared :
      (ct : List ℕ) (w : World there) (p : RemotePeer there.fl there.op)
      → get_peer there.fl there.op w.peer_mgr header.peer_id ≡ some p
      → peer_context there (some p) ≡ none
      → unseal there w.crypto_ctx header (Header.to_bytes header) ct ≡ ok payload
      → open_audio there w header (Header.to_bytes header) ct ≡ ok (payload, false)
  unfolding open_audio
  open_shared ct w p known no_key opened = ground arith

  open_pair :
      (ct : List ℕ) (w : World there) (p : RemotePeer there.fl there.op) (own : CryptoContext)
      → get_peer there.fl there.op w.peer_mgr header.peer_id ≡ some p
      → peer_context there (some p) ≡ some own
      → unseal there own header (Header.to_bytes header) ct ≡ ok payload
      → open_audio there w header (Header.to_bytes header) ct ≡ ok (payload, true)
  unfolding open_audio
  open_pair ct w p own known pair opened = ground arith

  -- What the arm for audio does with an opened packet of a known peer.
  heard_state :
      (w : World there) → Bool → RemotePeer there.fl there.op → Result (Unit {0}) × World there
  heard_state w used p = (
    (hear there header payload used p).0,
    record w {
      peer_mgr =
          modify_peer there.fl there.op header.peer_id (λ q. (hear there header payload used q).1)
            w.peer_mgr;
    },
  )

  audio_opened :
      (ct : List ℕ) (src_addr : SocketAddr) (w : World there) (used : Bool)
      (p : RemotePeer there.fl there.op)
      → header.pkt_type ≡ pkt_audio
      → get_peer there.fl there.op w.peer_mgr header.peer_id ≡ some p
      → open_audio there w header (Header.to_bytes header) ct ≡ ok (payload, used)
      → dispatch there header (Header.to_bytes header) ct src_addr w ≡ heard_state w used p
  unfolding dispatch handle_audio hear_known ◌>>=◌ lift gets update_peers heard_state
  audio_opened ct src_addr w used p type known opened =
      let audio : (header.pkt_type == pkt_audio) ≡ true = ground arith in
      rw (audio, opened, known) refl

  -- An audio packet that a peer sealed with the shared context arrives: for a receiver who has a
  -- context of the same key and session and no key of its own for that peer, the outcome is what `hear`
  -- makes of exactly the sender's payload under the sender's header, and nothing else of the receiver's
  -- state changes.
  pub shared_audio_heard :
      (src_addr : SocketAddr) (w : World there) (p : RemotePeer there.fl there.op)
      → header.pkt_type ≡ pkt_audio
      → ctx.cipher ≡ w.crypto_ctx.cipher
      → ctx.session_id ≡ w.crypto_ctx.session_id
      → get_peer there.fl there.op w.peer_mgr header.peer_id ≡ some p
      → peer_context there (some p) ≡ none
      → handle_incoming there wire src_addr w ≡ (
        (hear there header payload false p).0,
        record w {
          peer_mgr =
              modify_peer there.fl there.op header.peer_id
                (λ q. (hear there header payload false q).1)
                w.peer_mgr;
        },
      )
  unfolding heard_state
  shared_audio_heard src_addr w p type key session known no_key =
      let (ct, arrives, opened) = sealed_arrives in
      arrives src_addr w
      ∙ audio_opened ct src_addr w false p type known
          (open_shared ct w p known no_key (opened w.crypto_ctx key session))

  -- The same of a packet that was sealed with the pair's own key, for a receiver who has that key: `hear`
  -- goes by the replay filter of the pair.
  pub pair_audio_heard :
      (src_addr : SocketAddr) (w : World there) (p : RemotePeer there.fl there.op)
      (own : CryptoContext)
      → header.pkt_type ≡ pkt_audio
      → get_peer there.fl there.op w.peer_mgr header.peer_id ≡ some p
      → peer_context there (some p) ≡ some own
      → ctx.cipher ≡ own.cipher
      → ctx.session_id ≡ own.session_id
      → handle_incoming there wire src_addr w ≡ (
        (hear there header payload true p).0,
        record w {
          peer_mgr =
              modify_peer there.fl there.op header.peer_id
                (λ q. (hear there header payload true q).1)
                w.peer_mgr;
        },
      )
  unfolding heard_state
  pair_audio_heard src_addr w p own type known pair key session =
      let (ct, arrives, opened) = sealed_arrives in
      arrives src_addr w
      ∙ audio_opened ct src_addr w true p type known
          (open_pair ct w p own known pair (opened own key session))
