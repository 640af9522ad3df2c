-- ===== src/Session/Loop/Shared.antt =====
-- What `Session` of vc-core/src/lib.rs is configured with, and what it shares with the user interface.
use voicechat.Base.{ℕ, List, [], map, none, Option, Bool, false, ◌&&◌}
use voicechat.Base.Floats.{Float64, Float32}
use voicechat.Codec.{Opus}
use voicechat.Input.{InputMode}
use voicechat.Latency.{LatencyStats}
use voicechat.Net.Addr.{SocketAddr}
use voicechat.Peer.{PeerState, RemotePeer, PeerManager}
use voicechat.Vad.{VadConfig}

-- The passphrase and the device names are the bytes of the strings.
pub record SessionConfig (fl32 : Float32) : Type 0 where
  pub bind_addr : SocketAddr
  pub passphrase : List ℕ
  pub is_host : Bool
  pub host_addr : Option SocketAddr
  pub input_device : Option (List ℕ)
  pub output_device : Option (List ℕ)
  pub noise_suppression : Bool
  pub input_mode : InputMode
  pub vad_config : VadConfig fl32
  pub upnp : Bool

pub record PeerDisplayInfo : Type 0 where
  pub id : ℕ
  pub addr : SocketAddr
  pub state : PeerState
  pub latency : LatencyStats
  pub key_exchange_done : Bool

pub record SessionShared : Type 0 where
  pub noise_suppression : Bool
  pub ptt_active : Bool
  pub input_mode : InputMode
  pub is_transmitting : Bool
  pub peer_info : List PeerDisplayInfo
  pub external_addr : Option SocketAddr

-- `SessionShared::new`.
unfoldable pub new : Bool → InputMode → SessionShared
new ns_enabled mode = record {
  noise_suppression = ns_enabled;
  ptt_active = false;
  input_mode = mode;
  is_transmitting = false;
  peer_info = [];
  external_addr = none;
}

module _ (fl : Float64) (op : Opus) where
  unfoldable pub display : RemotePeer fl op → PeerDisplayInfo
  display p = record {
    id = p.id;
    addr = p.addr;
    state = p.state;
    latency = p.latency_tracker.stats;
    key_exchange_done = p.kx_sent && p.kx_received;
  }

  -- The list for the user interface.
  unfoldable pub display_all : PeerManager fl op → List PeerDisplayInfo
  unfolding display
  display_all pm = map (λ (entry : ℕ × RemotePeer fl op). display entry.1) pm.peers
