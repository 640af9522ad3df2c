-- ===== src/Tray/Lobby.antt =====
-- The lobby of vc-tray/src/main.rs: what can be set in it, and the session that it configures.
use voicechat.Base.{
  ℕ, ◌-◌, List, ◌∷◌, [], Result, ok, err, panic, ◌>>=◌, index, some, none, Option, if◌then◌else◌,
  ◌==◌, leb, length, Bool, true, false, ◌&&◌,
}
use voicechat.Base.Bytes.{address_unreadable}
use voicechat.Base.Floats.{Float32}
use voicechat.Input.{InputMode, always_on, push_to_talk, voice_activation}
use voicechat.Net.Addr.{SocketAddr}
use voicechat.Session.Loop.Shared.{SessionConfig}
use voicechat.Vad

-- The texts are the bytes of the strings.
pub record LobbyConfig : Type 0 where
  pub is_host : Bool
  pub bind_addr : List ℕ
  pub host_addr : List ℕ
  pub passphrase : List ℕ
  pub denoise : Bool
  pub upnp : Bool
  pub input_mode_idx : ℕ
  pub input_devices : List (List ℕ)
  pub output_devices : List (List ℕ)
  pub selected_input : ℕ
  pub selected_output : ℕ

-- `unwrap_or_default`.
unfoldable pub listed : Result (List (List ℕ)) → List (List ℕ)
listed (ok names) = names
listed (err e) = []
listed panic = []

-- "0.0.0.0:4567" and "127.0.0.1:4567".
abbrev pub default_bind : List ℕ
default_bind =
    b'0' ∷ b'.' ∷ b'0' ∷ b'.' ∷ b'0' ∷ b'.' ∷ b'0' ∷ b':' ∷ b'4' ∷ b'5' ∷ b'6' ∷ b'7' ∷ []

abbrev pub default_host : List ℕ
default_host =
    b'1' ∷ b'2' ∷ b'7' ∷ b'.' ∷ b'0' ∷ b'.' ∷ b'0' ∷ b'.' ∷ b'1' ∷ b':' ∷ b'4' ∷ b'5' ∷ b'6' ∷ b'7'
    ∷ []

-- The lobby of `VoiceChatApp::new`, with the names of the devices that could be listed.
unfoldable pub new_lobby : Result (List (List ℕ)) → Result (List (List ℕ)) → LobbyConfig
unfolding listed
new_lobby input_devices output_devices = record {
  is_host = true;
  bind_addr = default_bind;
  host_addr = default_host;
  passphrase = [];
  denoise = false;
  upnp = true;
  input_mode_idx = 0;
  input_devices = listed input_devices;
  output_devices = listed output_devices;
  selected_input = 0;
  selected_output = 0;
}

-- What the widgets of the lobby report: a text or a choice that was made.
pub data Edit : Type 0 where
  choose_host : Bool → Edit
  type_bind_addr type_host_addr type_passphrase : List ℕ → Edit
  tick_denoise tick_upnp : Bool → Edit
  choose_input choose_output choose_mode : ℕ → Edit

-- A list of devices offers 0 for the default one and the numbers of its entries from 1 on.
unfoldable pub chosen : List (List ℕ) → ℕ → ℕ → ℕ
chosen devices idx before = if leb idx (length devices) then idx else before

unfoldable pub edit : Edit → LobbyConfig → LobbyConfig
unfolding chosen
edit (choose_host is_host) c = record c { is_host = is_host }
edit (type_bind_addr text) c = record c { bind_addr = text }
edit (type_host_addr text) c = record c { host_addr = text }
edit (type_passphrase text) c = record c { passphrase = text }
edit (tick_denoise denoise) c = record c { denoise = denoise }
edit (tick_upnp upnp) c = record c { upnp = upnp }
edit (choose_input idx) c = record c {
  selected_input = chosen c.input_devices idx c.selected_input;
}
edit (choose_output idx) c = record c {
  selected_output = chosen c.output_devices idx c.selected_output;
}
edit (choose_mode idx) c = record c { input_mode_idx = if leb idx 2 then idx else c.input_mode_idx }

unfoldable pub input_mode_of : ℕ → InputMode
input_mode_of idx =
    if idx == 1 then push_to_talk else if idx == 2 then voice_activation else always_on

-- 0 is the default device; another number indexes the list.
unfoldable pub selected_device : List (List ℕ) → ℕ → Result (Option (List ℕ))
selected_device devices selected =
    if selected == 0 then ok none else do name ← index devices (selected - 1); ok (some name)

-- The host and join addresses, read by `str::parse`.
unfoldable pub parsed : Option SocketAddr → Result SocketAddr
parsed none = err address_unreadable
parsed (some addr) = ok addr

module _ (fl32 : Float32) (parse : List ℕ → Option SocketAddr) where
  -- The address of the host, for a joiner.
  unfoldable pub lobby_host : LobbyConfig → Result (Option SocketAddr)
  unfolding parsed
  lobby_host c = if c.is_host then ok none else do addr ← parsed (parse c.host_addr); ok (some addr)

  unfoldable pub config_of :
      LobbyConfig
      → SocketAddr
      → Option SocketAddr
      → Option (List ℕ)
      → Option (List ℕ)
      → SessionConfig fl32
  unfolding input_mode_of
  config_of c bind_addr host_addr input_device output_device = record {
    bind_addr = bind_addr;
    passphrase = c.passphrase;
    is_host = c.is_host;
    host_addr = host_addr;
    input_device = input_device;
    output_device = output_device;
    noise_suppression = c.denoise;
    input_mode = input_mode_of c.input_mode_idx;
    vad_config = Vad.default_config fl32;
    upnp = c.is_host && c.upnp;
  }

  unfoldable pub session_config : LobbyConfig → Result (SessionConfig fl32)
  unfolding lobby_host selected_device config_of
  session_config c = do
    bind_addr ← parsed (parse c.bind_addr)
    host_addr ← lobby_host c
    input_device ← selected_device c.input_devices c.selected_input
    output_device ← selected_device c.output_devices c.selected_output
    ok (config_of c bind_addr host_addr input_device output_device)
