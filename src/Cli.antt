-- ===== src/Cli.antt =====
-- vc-cli/src/main.rs: the commands and what they run, the listener of push-to-talk, and the printer of
-- statistics. The parsing of the arguments is the clap crate's.
pub mod Main
use voicechat.Base.{
  ℕ, List, ◌∷◌, [], ◌≡◌, refl, ◌∙◌, some, none, Option, if◌then◌else◌, inl, inr, Option-cases, Bool,
  true, false, not, ltb, arith,
}
use voicechat.Base.Floats.{Float64, Float32}
use voicechat.Input.{InputMode, always_on, push_to_talk, voice_activation}
use voicechat.Net.Addr.{SocketAddr}
use voicechat.Peer.{PeerState}
use voicechat.Session.Loop.Shared.{SessionConfig, SessionShared, PeerDisplayInfo}
use voicechat.Vad

pub data InputModeArg : Type 0 where
  always_on_arg ptt vox : InputModeArg

unfoldable pub to_input_mode : InputModeArg → InputMode
to_input_mode always_on_arg = always_on
to_input_mode ptt = push_to_talk
to_input_mode vox = voice_activation

-- The options that two commands share; texts are the bytes of the strings.
pub record SessionArgs : Type 0 where
  pub bind : SocketAddr
  pub passphrase : List ℕ
  pub input_device : Option (List ℕ)
  pub output_device : Option (List ℕ)
  pub denoise : Bool
  pub input_mode : InputModeArg

pub data Command : Type 0 where
  host_command : SessionArgs → (upnp : Bool) → Command
  join_command : (host : SocketAddr) → SessionArgs → Command
  loopback_command : (input_device output_device : Option (List ℕ)) → (denoise : Bool) → Command
  devices_command : Command

module _ (fl32 : Float32) where
  unfoldable pub config_of : SessionArgs → Bool → Option SocketAddr → Bool → SessionConfig fl32
  unfolding to_input_mode
  config_of args is_host host_addr upnp = record {
    bind_addr = args.bind;
    passphrase = args.passphrase;
    is_host = is_host;
    host_addr = host_addr;
    input_device = args.input_device;
    output_device = args.output_device;
    noise_suppression = args.denoise;
    input_mode = to_input_mode args.input_mode;
    vad_config = Vad.default_config fl32;
    upnp = upnp;
  }

  -- The session that a command runs, if it runs one.
  unfoldable pub session_of : Command → Option (SessionConfig fl32)
  unfolding config_of
  session_of (host_command args upnp) = some (config_of args true none upnp)
  session_of (join_command host args) = some (config_of args false (some host) false)
  session_of (loopback_command input_device output_device denoise) = none
  session_of devices_command = none

-- Is a thread for push-to-talk spawned?
unfoldable pub listens : InputMode → Bool
listens always_on = false
listens push_to_talk = true
listens voice_activation = false

-- The flag that `main` makes and the flag that `Session::new` makes.
pub record Flags : Type 0 where
  pub main_flag : Bool
  pub session_flag : Bool

-- The handler of Ctrl+C.
unfoldable pub ctrl_c : Flags → Flags
ctrl_c flags = record flags { main_flag = false }

-- The flag that the loop of a command reads.
unfoldable pub loop_flag : Command → Flags → Bool
loop_flag (host_command args upnp) flags = flags.session_flag
loop_flag (join_command host args) flags = flags.session_flag
loop_flag (loopback_command input_device output_device denoise) flags = flags.main_flag
loop_flag devices_command flags = false

-- A turn of the listener: whether the flag is up, and what `read_line` returned, the number of bytes
-- or a failure.
pub record Turn : Type 0 where
  pub running : Bool
  pub read : Option ℕ

-- A line that was read turns transmission over, an empty one at the end of the input too.
unfoldable pub toggle : Option ℕ → SessionShared × Bool → SessionShared × Bool
toggle none (shared, transmitting) = (shared, transmitting)
toggle (some n) (shared, transmitting) =
    (record shared { ptt_active = not transmitting }, not transmitting)

-- `spawn_ptt_listener`: its loop, over the turns that it takes.
unfoldable pub listen : List Turn → SessionShared × Bool → SessionShared × Bool
unfolding toggle
listen [] s = s
listen (t ∷ ts) s = let rest = listen ts (toggle t.read s) in if t.running then rest else s

-- A line of `spawn_stats_printer`: the round trips in milliseconds are there once there is a sample.
pub record StatsLine (fl : Float64) : Type 0 where
  pub id : ℕ
  pub addr : SocketAddr
  pub state : PeerState
  pub rtt : Option (fl.F64 × fl.F64 × fl.F64 × fl.F64)
  pub pfs : Bool

module _ (fl : Float64) where
  unfoldable pub as_ms : ℕ → fl.F64
  as_ms us = fl.div (fl.of_u64 us) (fl.literal 1000 0)

  unfoldable pub stats_line : PeerDisplayInfo → StatsLine fl
  unfolding as_ms
  stats_line p = record {
    id = p.id;
    addr = p.addr;
    state = p.state;
    rtt =
        if ltb 0 p.latency.sample_count
        then some (
          as_ms p.latency.min_rtt_us,
          as_ms p.latency.avg_rtt_us,
          as_ms p.latency.max_rtt_us,
          as_ms p.latency.jitter_us,
        )
        else none;
    pfs = p.key_exchange_done;
  }

-- Over turns of which all find the flag up, the reads that succeed are counted by parity.
pub odd_reads : List Turn → Bool
odd_reads [] = false
odd_reads (t ∷ ts) = elim t.read [ none ↦ odd_reads ts | some n ↦ not (odd_reads ts) ]

abbrev pub AllRunning : List Turn → Type 0
AllRunning [] = Unit {0}
AllRunning (t ∷ ts) = (t.running ≡ true) × AllRunning ts

turn_back : (odd b : Bool) → (if odd then not (not b) else not b) ≡ (if not odd then not b else b)
turn_back odd b = ground arith

-- While it runs, the listener leaves its own flag turned over once for each read that succeeded, the
-- reads of no bytes at the end of the input included; and what it has last stored for the session is
-- its own flag.
pub listen_parity :
    (ts : List Turn) (shared : SessionShared) (transmitting : Bool)
    → AllRunning ts
    → shared.ptt_active ≡ transmitting
    → let after = listen ts (shared, transmitting) in
      (after.1 ≡ (if odd_reads ts then not transmitting else transmitting))
      × (after.0.ptt_active ≡ after.1)
unfolding listen toggle odd_reads
listen_parity [] shared transmitting running same = (refl, same)
listen_parity (t ∷ ts) shared transmitting running same = elim (Option-cases t.read) [
  | inl failed ↦ rw (running.0, failed) (listen_parity ts shared transmitting running.1 same)
  | inr (n, read) ↦
      let turned = record shared { ptt_active = not transmitting } in
      let (parity, stored) = listen_parity ts turned (not transmitting) running.1 refl in
      rw (running.0, read) (parity ∙ turn_back (odd_reads ts) transmitting, stored)
]
