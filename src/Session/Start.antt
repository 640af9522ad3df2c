-- ===== src/Session/Start.antt =====
-- `Session::new` and the part of `Session::run` of vc-core/src/lib.rs before its loop.
use voicechat.Base.{
  ℕ, List, [], Result, ok, err, panic, ◌>>=◌, some, none, Option, if◌then◌else◌, not, replicate,
}
use voicechat.Base.Floats.{Float64, Float32}
use voicechat.Codec.{Opus, EncoderSetup, new_codec_encoder}
use voicechat.Crypto.Aead.{Argon2}
use voicechat.Crypto.Context.{CryptoContext, derive_key_from_passphrase}
use voicechat.Crypto.Context
use voicechat.Dsp.{Denoiser}
use voicechat.Dsp
use voicechat.Input
use voicechat.Net.Addr.{SocketAddr, IpAddr, ip, port, with_port, is_unspecified}
use voicechat.Net.Header.{pkt_join}
use voicechat.Net.Join
use voicechat.Peer.{PeerManager, new_host, new_joiner}
use voicechat.Session.World.{Env, M, pure}
use voicechat.Session.Handshake.{send_control, zero_session}
use voicechat.Session.Capture.{Chain}
use voicechat.Session.State.{LoopState}
use voicechat.Session.Loop.Shared.{SessionConfig, SessionShared}
use voicechat.Session.Loop.Shared
use voicechat.Vad

-- What the system and the other crates answer while the session starts.
pub record Boot (op : Opus) : Type 0 where
  pub random_id : List ℕ
  pub bind : SocketAddr → Result (Unit {0})
  pub local_addr : Result SocketAddr
  -- `resolve_local_ip` for 8.8.8.8:53.
  pub public_ip : Option IpAddr
  pub upnp_setup : SocketAddr → Result SocketAddr
  pub start_capture : Option (List ℕ) → Result (Unit {0})
  pub start_playout : Option (List ℕ) → Result (Unit {0})
  pub encoder_setup : EncoderSetup op
  pub set_read_timeout : Result (Unit {0})
  -- The time when the loop begins.
  pub began : ℕ

-- The address that the router is asked to map.
unfoldable pub map_addr : Option IpAddr → SocketAddr → SocketAddr
map_addr public_ip local_addr =
    if is_unspecified (ip local_addr)
    then elim public_ip [
      | none ↦ with_port (ip local_addr) (port local_addr)
      | some found ↦ with_port found (port local_addr)
    ]
    else local_addr

-- A failure of UPnP is logged.
unfoldable pub mapped : Result SocketAddr → Result (Option SocketAddr)
mapped (ok ext_addr) = ok (some ext_addr)
mapped (err e) = ok none
mapped panic = panic

module _ (fl32 : Float32) where
  -- `Session::new`: the state that the session shares.
  unfoldable pub new_shared : SessionConfig fl32 → SessionShared
  new_shared config = Shared.new config.noise_suppression config.input_mode

  -- A host draws a session id; a joiner begins with zeros.
  unfoldable pub first_session_id : SessionConfig fl32 → List ℕ → List ℕ
  first_session_id config random_id = if config.is_host then random_id else replicate 8 0

module _ (fl : Float64) (fl32 : Float32) (op : Opus) (dn : Denoiser fl32) where
  unfoldable pub first_peers : SessionConfig fl32 → List ℕ → PeerManager fl op
  first_peers config session_id =
      if config.is_host then new_host fl op session_id else new_joiner fl op

  -- The external address, which a host that wants it asks for.
  unfoldable pub external_addr : SessionConfig fl32 → Boot op → Result (Option SocketAddr)
  unfolding map_addr mapped
  external_addr config boot =
      if config.is_host
      then if config.upnp
        then elim boot.local_addr [
          | ok local_addr ↦ mapped (boot.upnp_setup (map_addr boot.public_ip local_addr))
          | err e ↦ err e
          | panic ↦ panic
        ]
        else ok none
      else ok none

  -- The processing chain of the capture side.
  unfoldable pub first_chain : SessionConfig fl32 → op.Encoder → Chain fl32 op dn
  first_chain config encoder = record {
    noise_suppressor = Dsp.set_enabled fl32 dn (Dsp.new fl32 dn) config.noise_suppression;
    vad = Vad.new fl32 config.vad_config;
    input_gate = Input.new config.input_mode;
    encoder = encoder;
  }

  -- Everything up to the JOIN: the key and the state that the loop will begin with.
  unfoldable pub prepare :
      Argon2 → SessionConfig fl32 → Boot op → Result (List ℕ × LoopState fl fl32 op dn)
  unfolding first_session_id first_peers first_chain external_addr new_shared new_codec_encoder
  prepare argon2 config boot = do
    key ← derive_key_from_passphrase argon2 config.passphrase
    bound ← boot.bind config.bind_addr
    named ← boot.local_addr
    external ← external_addr config boot
    capturing ← boot.start_capture config.input_device
    playing ← boot.start_playout config.output_device
    encoder ← new_codec_encoder op boot.encoder_setup
    let session_id = first_session_id fl32 config boot.random_id
    ok (
      key,
      record {
        peer_mgr = first_peers config session_id;
        crypto_ctx = Context.new key session_id;
        sent = [];
        chain = first_chain config encoder;
        capture_accum = [];
        played = [];
        last_playout = boot.began;
        last_keepalive = boot.began;
        last_adapt = boot.began;
        last_ping = boot.began;
        last_ui_update = boot.began;
        shared = record (new_shared fl32 config) { external_addr = external };
      },
    )

module _ (env : Env) where
  -- A joiner that knows its host sends a JOIN.
  unfoldable pub send_join_to : SocketAddr → Option SocketAddr → M env (Unit {0})
  send_join_to bind_addr none = pure tt
  send_join_to bind_addr (some host_addr) =
      send_control env (zero_session env) pkt_join 0
        (Join.to_bytes (record { listen_port = port bind_addr })) host_addr

  unfoldable pub send_join : (fl32 : Float32) → SessionConfig fl32 → M env (Unit {0})
  unfolding send_join_to
  send_join fl32 config =
      if not config.is_host then send_join_to config.bind_addr config.host_addr else pure tt

  -- The JOIN and the timeout of the socket; then the loop begins.
  unfoldable pub enter_loop :
      (fl32 : Float32) (dn : Denoiser fl32)
      → SessionConfig fl32
      → Result (Unit {0})
      → LoopState env.fl fl32 env.op dn
      → Result (LoopState env.fl fl32 env.op dn)
  unfolding send_join
  enter_loop fl32 dn config set_read_timeout s =
      let (joined, w) =
        send_join fl32 config
          (record { peer_mgr = s.peer_mgr; crypto_ctx = s.crypto_ctx; sent = s.sent }) in
      do
        sent ← joined
        set ← set_read_timeout
        ok (record s { peer_mgr = w.peer_mgr; crypto_ctx = w.crypto_ctx; sent = w.sent })
