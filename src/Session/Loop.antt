-- ===== src/Session/Loop.antt =====
-- The loop of `Session::run` of vc-core/src/lib.rs, a round at a time. A round reads the clock once, where
-- the code reads it in every block.
pub mod Shared
pub mod Survival
use voicechat.Base.{
  ℕ, ◌+◌, ◌-◌, ◌*◌, ◌/◌, ◌%◌, List, ◌∷◌, [], ◌++◌, Result, ok, err, panic, some, none, Option, leb,
  map, if◌then◌else◌, Bool, ◌&&◌,
}
use voicechat.Base.Floats.{Float64, Float32}
use native.Mathlib.Decide.{ℕ_discrete}
use voicechat.Base.Table
use voicechat.Codec.{Opus}
use voicechat.Crypto.Context.{CryptoContext}
use voicechat.Dsp.{Denoiser}
use voicechat.Dsp
use voicechat.Input.{InputMode}
use voicechat.Input
use voicechat.Jitter
use voicechat.Latency.{LatencyStats}
use voicechat.Net.Addr.{SocketAddr, IpAddr}
use voicechat.Peer.{RemotePeer, PeerManager}
use voicechat.Session.State.{
  Tick, LoopState, playout_interval, keepalive_interval, ping_interval, adapt_interval, ui_interval,
  is_due, restart, as_secs_f64,
}
use voicechat.Session.World.{Env, World, M, ◌>>=◌, ◌>>◌, pure, attempt, with_peers, update_peers}
use voicechat.Session.Capture.{Chain, capture}
use voicechat.Session.Incoming.{handle_incoming}
use voicechat.Session.Outgoing.{broadcast_all, keepalive, send_pings, offer_keys}
use voicechat.Session.Playout.{play_all, mixed_frame}
use voicechat.Session.Loop.Shared.{display_all, SessionShared}

module _ (env : Env) (fl32 : Float32) (dn : Denoiser fl32) where
  abbrev State : Type 0
  State = LoopState env.fl fl32 env.op dn

  -- The arguments of the calls of a round.
  abbrev pub env_at : Tick fl32 → Env
  env_at t = record env {
    now = t.now;
    local_addr = t.local_addr;
    resolve_local_ip = t.resolve_local_ip;
    sendable = t.sendable;
  }

  abbrev pub world : (t : Tick fl32) → State → World (env_at t)
  world t s = record { peer_mgr = s.peer_mgr; crypto_ctx = s.crypto_ctx; sent = s.sent }

  -- The controls of the user interface.
  unfoldable pub sync_controls : Tick fl32 → State → State
  sync_controls t s =
      let c = s.chain in
      let shared = t.others s.shared in
      let gate = Input.set_ptt c.input_gate shared.ptt_active in
      record s {
        shared = shared;
        chain = record c {
          noise_suppressor = Dsp.set_enabled fl32 dn c.noise_suppressor shared.noise_suppression;
          input_gate = if t.mode_lock then Input.set_mode gate shared.input_mode else gate;
        };
      }

  -- A rejected packet is logged.
  unfoldable pub receive : (t : Tick fl32) → Option (List ℕ × SocketAddr) → M (env_at t) (Unit {0})
  receive t none = pure tt
  receive t (some (bytes, src_addr)) = attempt (handle_incoming (env_at t) bytes src_addr)

  -- The captured samples up to the packets, which the peers are sent afterwards: neither side reads
  -- what the other changes.
  unfoldable pub capture_round : Tick fl32 → State → List (List ℕ) × State
  capture_round t s =
      let (packets, chain, left) = capture fl32 env.op dn (s.capture_accum ++ t.captured) s.chain in
      (
        packets,
        record s {
          chain = chain;
          capture_accum = left;
          shared = record s.shared { is_transmitting = chain.input_gate.is_transmitting };
        },
      )

  unfoldable pub adapt_all : ℕ → PeerManager env.fl env.op → PeerManager env.fl env.op
  adapt_all elapsed pm = record pm {
    peers =
        Table.map_values ℕ_discrete
          (λ (p : RemotePeer env.fl env.op). record p {
            jitter_buffer = Jitter.adapt env.fl p.jitter_buffer (as_secs_f64 env.fl elapsed);
          })
          pm.peers;
  }

  -- What a round does to the peers and the network, in the order of the blocks. It returns the frames
  -- that are to be mixed.
  unfoldable pub exchange :
      (t : Tick fl32) → State → List (List ℕ) → M (env_at t) (List (List fl32.F32))
  unfolding receive adapt_all is_due
  exchange t s packets = do
    receive t t.received
    broadcast_all (env_at t) packets
    bufs ←
        if is_due playout_interval t.now s.last_playout
        then with_peers (play_all env.fl fl32 env.op)
        else pure []
    if is_due keepalive_interval t.now s.last_keepalive then keepalive (env_at t) else pure tt
    if is_due ping_interval t.now s.last_ping
        then send_pings (env_at t) t.pick >> offer_keys (env_at t)
        else pure tt
    if is_due adapt_interval t.now s.last_adapt
        then update_peers (adapt_all (t.now - s.last_adapt))
        else pure tt
    pure bufs

  -- The variables of the loop after the blocks of the round.
  unfoldable pub settle :
      Tick fl32
      → State
      → Result (List (List fl32.F32))
      → PeerManager env.fl env.op
      → CryptoContext
      → List (List ℕ × SocketAddr)
      → Result (Unit {0}) × State
  unfolding is_due restart
  settle t s r peer_mgr crypto_ctx sent =
      let after = record s { peer_mgr = peer_mgr; crypto_ctx = crypto_ctx; sent = sent } in
      elim r [
        | err e ↦ (err e, after)
        | panic ↦ (panic, after)
        | ok bufs ↦ (
          ok tt,
          record after {
            played = s.played ++ mixed_frame env.fl fl32 env.op t.room bufs;
            last_playout = restart playout_interval t.now s.last_playout;
            last_keepalive = restart keepalive_interval t.now s.last_keepalive;
            last_adapt = restart adapt_interval t.now s.last_adapt;
            last_ping = restart ping_interval t.now s.last_ping;
            last_ui_update = restart ui_interval t.now s.last_ui_update;
            shared = record s.shared {
              peer_info =
                  if is_due ui_interval t.now s.last_ui_update && t.info_lock
                  then display_all env.fl env.op peer_mgr
                  else s.shared.peer_info;
            };
          },
        )
      ]

  -- One round of the loop.
  unfoldable pub round : Tick fl32 → State → Result (Unit {0}) × State
  unfolding sync_controls capture_round exchange settle
  round t s =
      let (packets, s') = capture_round t (sync_controls t s) in
      let (r, w) = exchange t s' packets (world t s') in
      settle t s' r w.peer_mgr w.crypto_ctx w.sent

  -- The next rounds, unless the last one has ended the loop.
  unfoldable pub go_on :
      Result (Unit {0}) → Result (Unit {0}) × State → State → Result (Unit {0}) × State
  go_on (ok u) rest s = rest
  go_on (err e) rest s = (err e, s)
  go_on panic rest s = (panic, s)

  -- The loop, while it is running.
  unfoldable pub rounds : List (Tick fl32) → State → Result (Unit {0}) × State
  unfolding round go_on
  rounds [] s = (ok tt, s)
  rounds (t ∷ ts) s =
      let (r, s') = round t s in
      let rest = rounds ts s' in if t.running then go_on r rest s' else (ok tt, s)
