-- ===== src/Session/State.antt =====
-- The variables of the loop of `Session::run` of vc-core/src/lib.rs, and what a round of it is given.
use voicechat.Base.{ℕ, ◌-◌, ◌/◌, ◌%◌, List, Result, Option, leb, if◌then◌else◌, Bool}
use voicechat.Base.Floats.{Float64, Float32}
use voicechat.Codec.{Opus}
use voicechat.Crypto.Context.{CryptoContext}
use voicechat.Dsp.{Denoiser}
use voicechat.Net.Addr.{SocketAddr, IpAddr}
use voicechat.Peer.{PeerManager}
use voicechat.Session.Capture.{Chain}
use voicechat.Session.Loop.Shared.{SessionShared}

-- What a round is given by the clock, the system, the ring buffers and the other threads.
pub record Tick (fl32 : Float32) : Type 0 where
  pub now : ℕ
  pub running : Bool
  -- Can the mutex of the input mode, and the one of the peer list, be locked?
  pub mode_lock : Bool
  pub info_lock : Bool
  -- `recv_from`: a packet and its address, or a failure.
  pub received : Option (List ℕ × SocketAddr)
  -- The samples that `pop_slice` took from the capture ring, at most 4800.
  pub captured : List fl32.F32
  -- The room of the playout ring.
  pub room : ℕ
  pub sendable : List ℕ → SocketAddr → Bool
  pub local_addr : Result SocketAddr
  pub resolve_local_ip : SocketAddr → Option IpAddr
  -- `pending.keys().next()`.
  pub pick : List (ℕ × ℕ) → Option ℕ
  -- What the other threads have stored in the shared state since the last round.
  pub others : SessionShared → SessionShared

-- What the loop changes: the local variables of `run`, the packets it has sent, and the samples it has
-- put into the playout ring.
pub record LoopState (fl : Float64) (fl32 : Float32) (op : Opus) (dn : Denoiser fl32) : Type 0 where
  pub peer_mgr : PeerManager fl op
  pub crypto_ctx : CryptoContext
  pub sent : List (List ℕ × SocketAddr)
  pub chain : Chain fl32 op dn
  pub capture_accum : List fl32.F32
  pub played : List fl32.F32
  pub last_playout : ℕ
  pub last_keepalive : ℕ
  pub last_adapt : ℕ
  pub last_ping : ℕ
  pub last_ui_update : ℕ
  pub shared : SessionShared

-- The intervals of the loop, in nanoseconds.
abbrev pub playout_interval : ℕ
playout_interval = 2500000

abbrev pub keepalive_interval : ℕ
keepalive_interval = 1000000000

abbrev pub ping_interval : ℕ
ping_interval = 2000000000

abbrev pub adapt_interval : ℕ
adapt_interval = 500000000

abbrev pub ui_interval : ℕ
ui_interval = 250000000

-- `last.elapsed() >= interval`.
unfoldable pub is_due : ℕ → ℕ → ℕ → Bool
is_due interval now last = leb interval (now - last)

-- `last = Instant::now()` under the same test.
unfoldable pub restart : ℕ → ℕ → ℕ → ℕ
unfolding is_due
restart interval now last = if is_due interval now last then now else last

-- `as_secs_f64()` of a duration.
unfoldable pub as_secs_f64 : (fl : Float64) → ℕ → fl.F64
as_secs_f64 fl n =
    fl.add (fl.of_u64 (n / 1000000000))
      (fl.div (fl.of_u64 (n % 1000000000)) (fl.literal 1000000000 0))
