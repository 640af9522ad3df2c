-- ===== src/Session/World.antt =====
-- The state that `handle_incoming` of vc-core/src/lib.rs changes, what it is given, and the monad of
-- its steps: a step that fails leaves the changes made before it.
use voicechat.Base.{
  ℕ, List, ◌∷◌, [], ◌++◌, Result, ok, err, panic, Error, Option, if◌then◌else◌, Bool,
}
use voicechat.Base.Floats.{Float64}
use voicechat.Base.Bytes.{io_error}
use voicechat.Codec.{Opus}
use voicechat.Crypto.Aead.{Aead}
use voicechat.Crypto.Context.{CryptoContext}
use voicechat.Crypto.Context
use voicechat.KeyExchange.{Dh, KeyExchange}
use voicechat.Net.Addr.{SocketAddr, IpAddr}
use voicechat.Net.Header.{
  PacketHeader, pkt_audio, pkt_join, pkt_hello, pkt_peer_list, pkt_keepalive, pkt_hello_ack,
  pkt_ping, pkt_pong, pkt_key_exchange,
}
use voicechat.Net.Header
use voicechat.Net.Wire.{build_wire_packet}
use voicechat.Peer.{RemotePeer, PeerManager, modify_peer}

-- The arguments that a call does not change, the time of the call, and the operating system.
pub record Env : Type 1 where
  pub fl : Float64
  pub op : Opus
  pub aead : Aead
  pub dh : Dh
  pub key : List ℕ
  pub key_exchange : KeyExchange
  pub now : ℕ
  pub local_addr : Result SocketAddr
  pub resolve_local_ip : SocketAddr → Option IpAddr
  -- Whether the system takes a packet for an address.
  pub sendable : List ℕ → SocketAddr → Bool

pub record World (env : Env) : Type 0 where
  pub peer_mgr : PeerManager env.fl env.op
  pub crypto_ctx : CryptoContext
  -- The packets handed to the system, the first one first.
  pub sent : List (List ℕ × SocketAddr)

module _ (env : Env) where
  abbrev pub M : Type 0 → Type 0
  M A = World env → Result A × World env

module _ {env : Env} {A : Type 0} where
  unfoldable pub pure : A → M env A
  pure a w = (ok a, w)

  unfoldable pub raise : Error → M env A
  raise e w = (err e, w)

  -- A result with no effect, under `?`.
  unfoldable pub lift : Result A → M env A
  lift r w = (r, w)

  unfoldable pub gets : (World env → A) → M env A
  gets f w = (ok (f w), w)

  -- A method of the peer manager.
  unfoldable pub with_peers :
      (PeerManager env.fl env.op → Result A × PeerManager env.fl env.op) → M env A
  with_peers f w = let (r, pm) = f w.peer_mgr in (r, record w { peer_mgr = pm })

module _ {env : Env} where
  unfoldable pub update_peers :
      (PeerManager env.fl env.op → PeerManager env.fl env.op) → M env (Unit {0})
  update_peers f w = (ok tt, record w { peer_mgr = f w.peer_mgr })

  -- `if let Some(peer) = peer_mgr.get_peer_mut(id)`, for a body that only changes the peer.
  abbrev pub update_peer :
      ℕ → (RemotePeer env.fl env.op → RemotePeer env.fl env.op) → M env (Unit {0})
  update_peer id f = update_peers (modify_peer env.fl env.op id f)

  -- A step whose failure is logged and passed over.
  unfoldable pub attempted : Result (Unit {0}) × World env → Result (Unit {0}) × World env
  attempted (ok u, w) = (ok tt, w)
  attempted (err e, w) = (ok tt, w)
  attempted (panic, w) = (panic, w)

  unfoldable pub attempt : M env (Unit {0}) → M env (Unit {0})
  unfolding attempted
  attempt m w = attempted (m w)

module _ {env : Env} {A B : Type 0} where
  abbrev pub proceed : Result A → (A → M env B) → M env B
  proceed (ok a) f w = f a w
  proceed (err e) f w = (err e, w)
  proceed panic f w = (panic, w)

  infixl 5 ◌>>=◌
  unfoldable pub ◌>>=◌ : M env A → (A → M env B) → M env B
  unfolding pure raise lift gets with_peers update_peers attempt
  ◌>>=◌ m f w = let (r, w') = m w in proceed r f w'

module _ {env : Env} {B : Type 0} where
  infixl 5 ◌>>◌
  abbrev pub ◌>>◌ : M env (Unit {0}) → M env B → M env B
  m >> k = m >>= λ _. k

module _ (env : Env) where
  -- `socket.send_to(&wire, addr)?`.
  unfoldable pub send_to : List ℕ → SocketAddr → M env (Unit {0})
  send_to wire addr w =
      if env.sendable wire addr
      then (ok tt, record w { sent = w.sent ++ (wire, addr) ∷ [] })
      else (err io_error, w)

  -- The packet of a header and a payload, sealed by a context.
  unfoldable pub seal : CryptoContext → PacketHeader → List ℕ → Result (List ℕ)
  seal ctx hdr payload =
      elim (Context.encrypt env.aead ctx (Header.to_bytes hdr) payload hdr.peer_id hdr.seq_num
        hdr.counter) [
          | ok encrypted ↦ ok (build_wire_packet (Header.to_bytes hdr) encrypted)
          | err e ↦ err e
          | panic ↦ panic
        ]

  -- Opening a packet by the nonce that its header names.
  unfoldable pub unseal : CryptoContext → PacketHeader → List ℕ → List ℕ → Result (List ℕ)
  unseal ctx header header_bytes ciphertext =
      Context.decrypt env.aead ctx header_bytes ciphertext header.peer_id header.seq_num
        header.counter
