-- ===== src/Tests/Devices.antt =====
-- The theorems on the audio devices and the two programs, each at one input.
use voicechat.Base.{
  ℕ, suc, List, ◌∷◌, [], ◌≡◌, ◌≢◌, ◌*◌, ◌+◌, ◌/◌, refl, ok, err, some, none, Option, true, false,
  arith, replicate, length, drop, get_elem?, ◌==◌, if◌then◌else◌,
}
use voicechat.Base.Bytes.{no_supported_config, no_device_list, address_unreadable}
use voicechat.Tests.{fl32, home}
use voicechat.Audio.{
  Host, StreamConfig, default_size, build_stream_config, select_device, start, playout_callback,
}
use voicechat.Audio.Mixdown.{sample_or_zero, playout_callback-at}
use voicechat.Audio.Opening.{start_native}
use voicechat.Net.Addr.{SocketAddr}
use voicechat.Tray.Lobby.{
  type_passphrase, type_host_addr, choose_input, choose_host, edit, new_lobby, config_of, parsed,
  lobby_host, selected_device, session_config,
}
use voicechat.Tray.{
  new, lobby, connected, VoiceChatApp, Clicks, can_connect, click_connect, draw_connected,
  start_session,
}
use voicechat.Tray.Screens.{
  Deed, edits_lobby, clicks_connect, deeds, deed, readable, click_connect_lem, session_lost,
}

playout_callback-at_example :
    (get_elem? (playout_callback fl32 true 2 (7 ∷ 8 ∷ 9 ∷ []) (replicate 5 1)).0 (1 * 2 + 0)
      ≡ some (sample_or_zero fl32 (some 8)))
    × ((playout_callback fl32 true 2 (7 ∷ 8 ∷ 9 ∷ []) (replicate 5 1)).1
        ≡ drop (5 / 2) (7 ∷ 8 ∷ 9 ∷ []))
    × (playout_callback fl32 false 2 (7 ∷ 8 ∷ 9 ∷ []) (replicate 5 1)
        ≡ (replicate 5 0, 7 ∷ 8 ∷ 9 ∷ []))
playout_callback-at_example =
    playout_callback-at fl32 2 (7 ∷ 8 ∷ 9 ∷ []) (replicate 5 1) 1 0 (omega arith) (omega arith)

-- A device that takes six channels and nothing else.
abbrev six_channels : StreamConfig
six_channels = record { channels = 6; sample_rate = 44100; buffer_size = default_size }

abbrev picky : Host
picky = record {
  Device = Unit {0};
  Stream = ℕ;
  devices = some (tt ∷ []);
  default_device = some tt;
  name = λ d. none;
  default_config = λ d. some six_channels;
  build_stream = λ d config. if config.channels == 6 then some 1 else none;
  play = λ s. true;
}

start_native_example : start picky none ≢ err no_supported_config
start_native_example =
    start_native picky none tt six_channels 1 (unfold select_device in refl) refl (omega arith)
      (unfold build_stream_config in refl)

-- Only the one text is an address.
abbrev parse : List ℕ → Option SocketAddr
parse [] = none
parse (b ∷ bs) = some home

abbrev hosting_lobby : VoiceChatApp fl32
hosting_lobby = record {
  state = lobby;
  config = record {
    is_host = true;
    bind_addr = 1 ∷ [];
    host_addr = [];
    passphrase = 5 ∷ [];
    denoise = false;
    upnp = true;
    input_mode_idx = 1;
    input_devices = (3 ∷ []) ∷ [];
    output_devices = [];
    selected_input = 1;
    selected_output = 0;
  };
  session_shared = none;
  running = false;
  error_msg = some address_unreadable;
  started = [];
}

-- An attempt to join without the address of a host fails, and is corrected.
abbrev corrected : List (Deed fl32 parse)
corrected =
    edits_lobby (type_passphrase (5 ∷ []))
    ∷ edits_lobby (choose_input 1)
    ∷ edits_lobby (choose_host false)
    ∷ edits_lobby (type_host_addr [])
    ∷ clicks_connect
    ∷ edits_lobby (choose_host true)
    ∷ []

click_connect_lem_example :
    let app =
      deeds fl32 parse corrected (new fl32 parse (ok ((3 ∷ []) ∷ [])) (err no_device_list)) in
    let after = click_connect fl32 parse app in
    let fine = readable parse app.config in
    (after.0 ≡ ok tt)
    × (after.1.state ≡ (if fine then connected else lobby))
    × (after.1.error_msg ≡ (if fine then none else some address_unreadable))
    × (length after.1.started ≡ (if fine then suc (length app.started) else length app.started))
unfolding deeds deed edit can_connect new new_lobby click_connect start_session session_config
    parsed lobby_host
click_connect_lem_example =
    click_connect_lem fl32 parse (ok ((3 ∷ []) ∷ [])) (err no_device_list) corrected refl refl

abbrev no_clicks : Clicks fl32 parse
no_clicks = record {
  noise_suppression = none;
  mode_idx = none;
  ptt = false;
  disconnect = false;
  mode_lock = true;
}

session_lost_example :
    let config = config_of fl32 parse hosting_lobby.config home none (some (3 ∷ [])) none in
    let drawn = draw_connected fl32 parse no_clicks (click_connect fl32 parse hosting_lobby).1 in
    (drawn.state ≡ lobby) × (drawn.session_shared ≡ none) × (drawn.started ≡ config ∷ [])
unfolding session_config parsed lobby_host selected_device can_connect
session_lost_example =
    session_lost fl32 parse hosting_lobby
      (config_of fl32 parse hosting_lobby.config home none (some (3 ∷ [])) none) no_clicks refl refl
