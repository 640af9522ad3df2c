-- ===== src/Tray/Shown.antt =====
-- What the connected screen of vc-tray/src/main.rs shows of the shared state.
use Prim.Native.String.{String}
use voicechat.Base.{ℕ, List, ◌∷◌, [], some, none, Option, if◌then◌else◌, Bool, map}
use voicechat.Base.Floats.{Float64}
use voicechat.Net.Addr.{SocketAddr}
use voicechat.Peer.{PeerState, discovered, hello_sent, connected, disconnected}
use voicechat.Session.Loop.Shared.{SessionShared, PeerDisplayInfo}
use voicechat.Tray.{AppState, format_latency}

pub data Color : Type 0 where
  green yellow light_blue red gray : Color

unfoldable pub format_peer_state : PeerState → String × Color
format_peer_state connected = ("Connected", green)
format_peer_state hello_sent = ("Connecting...", yellow)
format_peer_state discovered = ("Discovered", light_blue)
format_peer_state disconnected = ("Disconnected", red)

-- `tx_label` and `tx_color`.
unfoldable pub tx_label : Bool → String × Color
tx_label is_tx = if is_tx then ("TX: ON", green) else ("TX: off", gray)

-- A row of the list of peers.
pub record Row (fl : Float64) : Type 0 where
  pub id : ℕ
  pub addr : SocketAddr
  pub state : String × Color
  pub latency : Option (fl.F64 × fl.F64)
  pub security : String

-- The screen: the address that peers connect to, if there is one, the label of transmission, and the rows,
-- in whose place a label stands when there are none.
pub record Shown (fl : Float64) : Type 0 where
  pub external_addr : Option SocketAddr
  pub transmission : String × Color
  pub rows : List (Row fl)
  pub no_peers : Option String

module _ (fl : Float64) where
  unfoldable pub row : PeerDisplayInfo → Row fl
  unfolding format_peer_state format_latency
  row p = record {
    id = p.id;
    addr = p.addr;
    state = format_peer_state p.state;
    latency = format_latency fl p;
    security = if p.key_exchange_done then "PFS" else "PSK";
  }

  unfoldable pub no_rows : List PeerDisplayInfo → Option String
  no_rows [] = some "No peers connected"
  no_rows (p ∷ ps) = none

  unfoldable pub shown : SessionShared → Shown fl
  unfolding tx_label row no_rows
  shown s = record {
    external_addr = s.external_addr;
    transmission = tx_label s.is_transmitting;
    rows = map row s.peer_info;
    no_peers = no_rows s.peer_info;
  }

-- After how many milliseconds the screen is drawn again, if not for an event.
unfoldable pub repaint_after : AppState → Option ℕ
repaint_after AppState.lobby = none
repaint_after AppState.connected = some 250
