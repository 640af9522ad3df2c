-- ===== src/Peer.antt =====
-- vc-core/src/peer.rs: the remote peers, and the table that the session keeps of them.
pub mod Validity
pub mod Calls
pub mod Identity
use voicechat.Base.{
  ℕ, zero, suc, ◌+◌, ◌-◌, ◌*◌, ◌/◌, ◌%◌, ◌^◌, ◌≤◌, ◌<◌, List, ◌∷◌, [], ◌++◌, ◌≡◌, ◌≢◌, refl, sym,
  ap, ◌∙◌, Result, ok, err, panic, ◌>>=◌, length, length-append, take, drop, take-append,
  drop-append, replicate, get_elem?, some, none, Option, ltb, leb, ◌==◌, map, List-cases, ltb→lt,
  ltb→le, Bool-cases, Option-cases, if◌then◌else◌, Bool, true, false, not, ◌&&◌, ◌||◌, All, IsByte,
  IsU16, IsU32, IsArray, arith, ◌⊎◌, inl, inr,
}
use mathlib.Core.Logic.{ite}
use native.Mathlib.Decide.{ℕ_discrete}
use voicechat.Base.Floats.{Float64}
use voicechat.Base.Table
use voicechat.Base.Bytes.{max_peers_reached, not_host, no_peer_ids}
use voicechat.Codec.{Opus, new_codec_decoder}
use voicechat.Crypto.Context.{CryptoContext}
use voicechat.Crypto.Replay.{ReplayFilter}
use voicechat.Crypto.Replay
use voicechat.Jitter.{JitterBuffer}
use voicechat.Jitter
use voicechat.Latency.{LatencyTracker}
use voicechat.Latency
use voicechat.Net.Addr.{SocketAddr, SocketAddr-discrete}
use voicechat.Net.PeerList.{PeerListPayload, PeerEntry}

abbrev pub max_peers : ℕ
max_peers = 5

-- PEER_TIMEOUT_SECS, in nanoseconds.
abbrev pub peer_timeout : ℕ
peer_timeout = 10000000000

pub data PeerState : Type 0 where
  discovered hello_sent connected disconnected : PeerState

pub record RemotePeer (fl : Float64) (op : Opus) : Type 0 where
  pub id : ℕ
  pub addr : SocketAddr
  pub state : PeerState
  pub jitter_buffer : JitterBuffer fl
  pub decoder : op.Decoder
  pub replay_filter : ReplayFilter
  pub peer_replay_filter : ReplayFilter
  pub last_seen : ℕ
  pub send_seq : ℕ
  pub latency_tracker : LatencyTracker fl
  pub peer_crypto : Option CryptoContext
  pub kx_sent : Bool
  pub kx_received : Bool

pub record PeerManager (fl : Float64) (op : Opus) : Type 0 where
  pub local_id : ℕ
  pub session_id : List ℕ
  pub peers : List (ℕ × RemotePeer fl op)
  pub addr_to_id : List (SocketAddr × ℕ)
  pub is_host : Bool
  pub next_peer_id : ℕ

unfoldable pub is_connected_state : PeerState → Bool
is_connected_state connected = true
is_connected_state discovered = false
is_connected_state hello_sent = false
is_connected_state disconnected = false

module _ (fl : Float64) (op : Opus) where
  -- `RemotePeer::new`, at the time `now`.
  unfoldable pub new_peer : ℕ → ℕ → SocketAddr → Result (RemotePeer fl op)
  new_peer now id addr = do
    decoder ← new_codec_decoder op
    ok (record {
      id = id;
      addr = addr;
      state = discovered;
      jitter_buffer = Jitter.new fl;
      decoder = decoder;
      replay_filter = Replay.new;
      peer_replay_filter = Replay.new;
      last_seen = now;
      send_seq = 0;
      latency_tracker = Latency.new fl;
      peer_crypto = none;
      kx_sent = false;
      kx_received = false;
    })

  unfoldable pub is_connected : RemotePeer fl op → Bool
  unfolding is_connected_state
  is_connected p = is_connected_state p.state

  unfoldable pub is_timed_out : ℕ → RemotePeer fl op → Bool
  is_timed_out now p = ltb peer_timeout (now - p.last_seen)

  unfoldable pub touch : ℕ → RemotePeer fl op → RemotePeer fl op
  touch now p = record p { last_seen = now }

  unfoldable pub next_seq : RemotePeer fl op → ℕ × RemotePeer fl op
  next_seq p = (p.send_seq, record p { send_seq = (p.send_seq + 1) % 65536 })

  unfoldable pub new_host : List ℕ → PeerManager fl op
  new_host session_id = record {
    local_id = 0;
    session_id = session_id;
    peers = [];
    addr_to_id = [];
    is_host = true;
    next_peer_id = 1;
  }

  unfoldable pub new_joiner : PeerManager fl op
  new_joiner = record {
    local_id = 0;
    session_id = replicate 8 0;
    peers = [];
    addr_to_id = [];
    is_host = false;
    next_peer_id = 0;
  }

  unfoldable pub set_identity : PeerManager fl op → ℕ → List ℕ → PeerManager fl op
  set_identity pm local_id session_id = record pm { local_id = local_id; session_id = session_id }

  unfoldable pub get_peer : PeerManager fl op → ℕ → Option (RemotePeer fl op)
  get_peer pm id = Table.get ℕ_discrete id pm.peers

  unfoldable pub peer_by_addr : PeerManager fl op → SocketAddr → Option ℕ
  peer_by_addr pm addr = Table.get SocketAddr-discrete addr pm.addr_to_id

  -- `get_peer_mut(id)`, and what the caller does to the peer.
  unfoldable pub modify_peer :
      ℕ → (RemotePeer fl op → RemotePeer fl op) → PeerManager fl op → PeerManager fl op
  modify_peer id f pm = record pm { peers = Table.modify ℕ_discrete id f pm.peers }

  -- The vacant entry of `add_peer`.
  unfoldable pub add_new :
      PeerManager fl op
      → ℕ
      → SocketAddr
      → Result (RemotePeer fl op)
      → Result (Unit {0}) × PeerManager fl op
  add_new pm id addr (ok p) = (
    ok tt,
    record pm {
      peers = Table.insert ℕ_discrete id p pm.peers;
      addr_to_id = Table.insert SocketAddr-discrete addr id pm.addr_to_id;
    },
  )
  add_new pm id addr (err e) = (err e, pm)
  add_new pm id addr panic = (panic, pm)

  -- The occupied entry of `add_peer`.
  unfoldable pub move_peer : PeerManager fl op → ℕ → SocketAddr → SocketAddr → PeerManager fl op
  move_peer pm id old addr = ite (SocketAddr-discrete old addr) pm (record pm {
    peers = Table.modify ℕ_discrete id (λ p. record p { addr = addr }) pm.peers;
    addr_to_id =
        Table.insert SocketAddr-discrete addr id
          (Table.remove SocketAddr-discrete old pm.addr_to_id);
  })

  unfoldable pub add_peer :
      ℕ → PeerManager fl op → ℕ → SocketAddr → Result (Unit {0}) × PeerManager fl op
  add_peer now pm id addr =
      if id == pm.local_id
      then (ok tt, pm)
      else if leb (max_peers - 1) (length pm.peers)
      then (err max_peers_reached, pm)
      else elim (get_peer pm id) [
        | none ↦ add_new pm id addr (new_peer now id addr)
        | some peer ↦ (ok tt, move_peer pm id peer.addr addr)
      ]

  unfoldable pub allocate_peer_id : PeerManager fl op → Result ℕ × PeerManager fl op
  allocate_peer_id pm =
      if not pm.is_host
      then (err not_host, pm)
      else if leb max_peers pm.next_peer_id
      then (err no_peer_ids, pm)
      else (ok pm.next_peer_id, record pm { next_peer_id = pm.next_peer_id + 1 })

  -- The ids and addresses of the peers that pass a test.
  unfoldable pub entries : (RemotePeer fl op → Bool) → List (ℕ × RemotePeer fl op) → List PeerEntry
  entries test [] = []
  entries test ((k, p) ∷ m) =
      let rest = entries test m in if test p then (p.id, p.addr) ∷ rest else rest

  unfoldable pub connected_peers : PeerManager fl op → List PeerEntry
  unfolding entries is_connected
  connected_peers pm = entries is_connected pm.peers

  unfoldable pub all_peer_addrs : PeerManager fl op → List PeerEntry
  unfolding entries
  all_peer_addrs pm = entries (λ _. true) pm.peers

  unfoldable pub build_peer_list : PeerManager fl op → SocketAddr → PeerListPayload
  unfolding all_peer_addrs
  build_peer_list pm local_addr = record {
    session_id = pm.session_id;
    peers = (pm.local_id, local_addr) ∷ all_peer_addrs pm;
  }

  -- One round of `check_timeouts`.
  unfoldable pub expire : ℕ → RemotePeer fl op → RemotePeer fl op
  unfolding is_connected is_timed_out
  expire now p =
      if is_connected p && is_timed_out now p then record p { state = disconnected } else p

  unfoldable pub check_timeouts : ℕ → PeerManager fl op → PeerManager fl op
  unfolding expire
  check_timeouts now pm = record pm { peers = Table.map_values ℕ_discrete (expire now) pm.peers }
