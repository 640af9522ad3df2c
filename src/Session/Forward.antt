-- ===== src/Session/Forward.antt =====
-- The shared context of a session as its loop runs: what rewinds its counter, and what does not.
use voicechat.Base.{
  ℕ, ◌≤◌, List, ◌∷◌, [], ◌≡◌, ◌≢◌, refl, ap, ◌∙◌, ok, arith, some, none, Option, All,
}
use voicechat.Base.Floats.{Float64, Float32}
use voicechat.Codec.{Opus}
use voicechat.Crypto.Context.{CryptoContext, next_counter}
use voicechat.Dsp.{Denoiser}
use voicechat.Net.Addr.{SocketAddr}
use voicechat.Net.Header.{PacketHeader, pkt_peer_list}
use voicechat.Net.Header
use voicechat.Net.Wire.{parse_wire_packet}
use voicechat.Peer.{PeerManager, modify_peer, allocate_peer_id}
use voicechat.Peer.Identity.{identity-add_peer}
use voicechat.Session.World.{Env, unseal}
use voicechat.Session.Handshake.{psk_ctx, zero_session, handle_peer_list}
use voicechat.Session.Incoming.{handle_incoming}
use voicechat.Session.Keeps.{Keeps, Keeps-opened}
use voicechat.Session.Kept.{Kept, Holds}
use voicechat.Session.Kept.Packets.{packet-Keeps}
use voicechat.Session.Kept.Rounds.{IsHarmless, KeptIn, rounds_keep}
use voicechat.Session.State.{Tick, LoopState}
use voicechat.Session.Loop.{rounds, env_at}

module _ (fl : Float64) (op : Opus) (id : ℕ) (session_id : List ℕ) (from : CryptoContext) where
  -- The identity `id` in the session, with a shared context that is `from` or has gone on from it.
  pub record IsAhead (pm : PeerManager fl op) (ctx : CryptoContext) : Type 0 where
    pub same_id : pm.local_id ≡ id
    pub same_session : pm.session_id ≡ session_id
    pub same_key : ctx.cipher ≡ from.cipher
    pub same_salt : ctx.session_id ≡ from.session_id
    pub on : from.send_counter ≤ ctx.send_counter

  IsAhead-Kept : Kept fl op IsAhead
  unfolding modify_peer allocate_peer_id next_counter
  IsAhead-Kept = record {
    modified = λ pm ctx i f same v. ground arith;
    mapped = λ pm ctx f same v. ground arith;
    added = λ pm ctx now i addr v.
        let same = identity-add_peer fl op pm now i addr in
        record {
          same_id = ap (λ q. q.0) same ∙ v.same_id;
          same_session = ap (λ q. q.1) same ∙ v.same_session;
          same_key = v.same_key;
          same_salt = v.same_salt;
          on = v.on;
        };
    allocated = λ pm ctx v. ground arith;
    reserved = λ pm ctx v. ground arith;
  }

module _ (env : Env) where
  -- Bytes that are not a peer list which the key of the session opens.
  abbrev pub IsNoList : List ℕ → Type 0
  IsNoList bytes =
      (header : PacketHeader) (header_bytes ct plaintext : List ℕ)
      → parse_wire_packet bytes ≡ ok (header_bytes, ct)
      → Header.from_bytes header_bytes ≡ ok header
      → header.pkt_type ≡ pkt_peer_list
      → unseal env (psk_ctx env (zero_session env)) header header_bytes ct ≢ ok plaintext

  module _ (Q : PeerManager env.fl env.op → CryptoContext → Type 0)
      (kept : Kept env.fl env.op Q) where
    other-Keeps :
        (bytes : List ℕ) (src_addr : SocketAddr)
        → IsNoList bytes
        → Keeps (Holds env Q) (handle_incoming env bytes src_addr)
    unfolding handle_peer_list
    other-Keeps bytes src_addr none_opens =
        packet-Keeps env Q kept bytes src_addr λ header header_bytes ct split read list.
          Keeps-opened _ _ λ plaintext opened.
            absurd (none_opens header header_bytes ct plaintext split read (ground arith) opened)

module _ (env : Env) (fl32 : Float32) (dn : Denoiser fl32) where
  -- What a round receives, if it receives anything, is no such list.
  abbrev pub ReceivesNoList : Tick fl32 → Option (List ℕ × SocketAddr) → Type 0
  ReceivesNoList t none = Unit {0}
  ReceivesNoList t (some (bytes, src_addr)) = IsNoList (env_at env fl32 dn t) bytes

  module _ (Q : PeerManager env.fl env.op → CryptoContext → Type 0)
      (kept : Kept env.fl env.op Q) where
    received-IsHarmless :
        (t : Tick fl32) (received : Option (List ℕ × SocketAddr))
        → ReceivesNoList t received
        → IsHarmless env fl32 dn Q t received
    received-IsHarmless t none h = tt
    received-IsHarmless t (some (bytes, src_addr)) h =
        other-Keeps (env_at env fl32 dn t) Q kept bytes src_addr h

    All-IsHarmless :
        (ts : List (Tick fl32))
        → All (λ t. ReceivesNoList t t.received) ts
        → All (λ t. IsHarmless env fl32 dn Q t t.received) ts
    All-IsHarmless [] h = tt
    All-IsHarmless (t ∷ ts) h = (received-IsHarmless t t.received h.0, All-IsHarmless ts h.1)

  -- Over any number of rounds in which no peer list arrives that the key of the session opens, the
  -- session keeps its id, its session, and the key and the session of its shared context, whose counter
  -- never falls: whatever else it receives, captures and sends, and however a round ends.
  pub rounds_forward :
      (ts : List (Tick fl32)) (s : LoopState env.fl fl32 env.op dn)
      → All (λ t. ReceivesNoList t t.received) ts
      → let after = (rounds env fl32 dn ts s).1 in
        (after.peer_mgr.local_id ≡ s.peer_mgr.local_id)
        × (after.peer_mgr.session_id ≡ s.peer_mgr.session_id)
        × (after.crypto_ctx.cipher ≡ s.crypto_ctx.cipher)
        × (after.crypto_ctx.session_id ≡ s.crypto_ctx.session_id)
        × (s.crypto_ctx.send_counter ≤ after.crypto_ctx.send_counter)
  unfolding KeptIn
  rounds_forward ts s quiet =
      let Q = IsAhead env.fl env.op s.peer_mgr.local_id s.peer_mgr.session_id s.crypto_ctx in
      let kept =
        IsAhead-Kept env.fl env.op s.peer_mgr.local_id s.peer_mgr.session_id s.crypto_ctx in
      let v = rounds_keep env fl32 dn Q kept ts s (All-IsHarmless Q kept ts quiet) (record {
        same_id = refl;
        same_session = refl;
        same_key = refl;
        same_salt = refl;
        on = omega arith;
      }) in
      (v.same_id, v.same_session, v.same_key, v.same_salt, v.on)
