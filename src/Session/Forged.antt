-- ===== src/Session/Forged.antt =====
-- Packets that no key of the session opens, in `handle_incoming` of vc-core/src/lib.rs.
use voicechat.Base.{ℕ, List, ◌≡◌, some, none}
use voicechat.Crypto.Context.{CryptoContext}
use voicechat.Crypto.Context
use voicechat.Crypto.Nonce.{build_nonce, send}
use voicechat.Net.Header.{PacketHeader}
use voicechat.Net.Header
use voicechat.Peer.{RemotePeer, get_peer}
use voicechat.Session.World.{Env, World}
use voicechat.Session.Handshake.{psk_ctx, zero_session}

module _ (env : Env) (header : PacketHeader) (header_bytes ciphertext : List ℕ) where
  -- The cipher refuses the packet under the key of a context, at the nonce that the context and the
  -- header make.
  unfoldable pub Refuses : CryptoContext → Type 0
  Refuses ctx =
      env.aead.decrypt ctx.cipher
        (build_nonce ctx.session_id header.peer_id send header.seq_num header.counter) header_bytes
        ciphertext
      ≡ none

  -- Every context that the session has for the packet refuses it: the shared one, that of the pair with
  -- the peer it names, and those of the passphrase for the own session and for a session not yet joined.
  pub record Forged (w : World env) : Type 0 where
    pub shared : Refuses w.crypto_ctx
    pub pair :
        ((p : RemotePeer env.fl env.op) (own : CryptoContext)
          → get_peer env.fl env.op w.peer_mgr header.peer_id ≡ some p
          → p.peer_crypto ≡ some own
          → Refuses own)
    pub session : Refuses (psk_ctx env w.peer_mgr.session_id)
    pub joining : Refuses (psk_ctx env (zero_session env))
