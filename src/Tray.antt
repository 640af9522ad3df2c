-- ===== src/Tray.antt =====
-- `VoiceChatApp` of vc-tray/src/main.rs: the lobby and the connected screen as a state machine. What
-- egui draws is left out; what its widgets report is given.
pub mod Lobby
pub mod Screens
pub mod Shown
use voicechat.Base.{
  ℕ, ◌-◌, List, ◌∷◌, [], ◌++◌, Result, ok, err, panic, ◌>>=◌, index, some, none, Option,
  if◌then◌else◌, ◌==◌, leb, length, Bool, true, false, not, ◌&&◌,
}
use voicechat.Base.Bytes.{Error, address_unreadable}
use voicechat.Base.Floats.{Float64, Float32}
use voicechat.Input.{InputMode, always_on, push_to_talk, voice_activation}
use voicechat.Net.Addr.{SocketAddr}
use voicechat.Session.Loop.Shared.{SessionConfig, SessionShared, PeerDisplayInfo}
use voicechat.Session.Start.{new_shared}
use voicechat.Tray.Lobby.{LobbyConfig, input_mode_of, new_lobby, session_config}
use voicechat.Vad

pub data AppState : Type 0 where
  lobby connected : AppState

-- `running` is the flag of the last session; `started` are the configurations of the sessions whose
-- threads were spawned, the last one first.
pub record VoiceChatApp (fl32 : Float32) : Type 0 where
  pub state : AppState
  pub config : LobbyConfig
  pub session_shared : Option SessionShared
  pub running : Bool
  pub error_msg : Option Error
  pub started : List (SessionConfig fl32)

unfoldable pub idx_of : InputMode → ℕ
idx_of always_on = 0
idx_of push_to_talk = 1
idx_of voice_activation = 2

module _ (fl32 : Float32) (parse : List ℕ → Option SocketAddr) where
  abbrev pub App : Type 0
  App = VoiceChatApp fl32

  -- `VoiceChatApp::new`.
  unfoldable pub new : Result (List (List ℕ)) → Result (List (List ℕ)) → App
  new input_devices output_devices = record {
    state = lobby;
    config = new_lobby input_devices output_devices;
    session_shared = none;
    running = false;
    error_msg = none;
    started = [];
  }

  -- The session is made, with its flag down, and its thread spawned.
  unfoldable pub launch : SessionConfig fl32 → App → App
  launch config app = record app {
    session_shared = some (new_shared fl32 config);
    running = false;
    started = config ∷ app.started;
    state = connected;
  }

  unfoldable pub start_session : App → Result (Unit {0}) × App
  unfolding session_config launch
  start_session app = elim (session_config fl32 parse app.config) [
    | ok config ↦ (ok tt, launch config app)
    | err e ↦ (err e, app)
    | panic ↦ (panic, app)
  ]

  -- What the button does: it is enabled only with a passphrase.
  unfoldable pub can_connect : List ℕ → Bool
  can_connect [] = false
  can_connect (b ∷ bs) = true

  unfoldable pub click_connect : App → Result (Unit {0}) × App
  unfolding can_connect start_session
  click_connect app =
      if not (can_connect app.config.passphrase)
      then (ok tt, app)
      else let (r, app') = start_session app in
        elim r [
          | ok u ↦ (ok tt, record app' { error_msg = none })
          | err e ↦ (ok tt, record app' { error_msg = some e })
          | panic ↦ (panic, app')
        ]

  unfoldable pub disconnect : App → App
  disconnect app = record app { running = false; session_shared = none; state = lobby }

  -- What the widgets of a connected screen report in one frame.
  pub record Clicks : Type 0 where
    pub noise_suppression : Option Bool
    pub mode_idx : Option ℕ
    pub ptt : Bool
    pub disconnect : Bool
    pub mode_lock : Bool

  -- The controls, in the order of the screen. The button of push-to-talk is there in its mode only.
  unfoldable pub set_noise : Option Bool → SessionShared → SessionShared
  set_noise none s = s
  set_noise (some ns) s = record s { noise_suppression = ns }

  unfoldable pub pick_mode : Option ℕ → SessionShared → SessionShared
  pick_mode none s = s
  pick_mode (some idx) s = record s { input_mode = input_mode_of idx }

  unfoldable pub has_ptt_button : InputMode → Bool
  has_ptt_button always_on = false
  has_ptt_button push_to_talk = true
  has_ptt_button voice_activation = false

  unfoldable pub press_ptt : Bool → SessionShared → SessionShared
  unfolding has_ptt_button
  press_ptt clicked s =
      if clicked && has_ptt_button s.input_mode
      then record s { ptt_active = not s.ptt_active }
      else s

  unfoldable pub apply_clicks : Clicks → SessionShared → SessionShared
  unfolding set_noise pick_mode press_ptt
  apply_clicks clicks s =
      let s' = set_noise clicks.noise_suppression s in
      if clicks.mode_lock then press_ptt clicks.ptt (pick_mode clicks.mode_idx s') else s'

  unfoldable pub draw_connected : Clicks → App → App
  unfolding disconnect apply_clicks
  draw_connected clicks app = elim app.session_shared [
    | none ↦ record app { state = lobby }
    | some shared ↦
        let shown = record app { session_shared = some (apply_clicks clicks shared) } in
        if not app.running
        then disconnect app
        else if clicks.disconnect
        then disconnect shown
        else shown
  ]

  -- A frame of the application: the clicks of the connect button and of the connected screen.
  unfoldable pub update : Bool → Clicks → App → Result (Unit {0}) × App
  unfolding click_connect draw_connected
  update connect_clicked clicks app = elim app.state [
    | lobby ↦ if connect_clicked then click_connect app else (ok tt, app)
    | connected ↦ (ok tt, draw_connected clicks app)
  ]

-- `format_latency`: the average and the jitter in milliseconds, or a dash.
unfoldable pub format_latency : (fl : Float64) → PeerDisplayInfo → Option (fl.F64 × fl.F64)
format_latency fl p =
    if p.latency.sample_count == 0
    then none
    else some (
      fl.div (fl.of_u64 p.latency.avg_rtt_us) (fl.literal 1000 0),
      fl.div (fl.of_u64 p.latency.jitter_us) (fl.literal 1000 0),
    )
