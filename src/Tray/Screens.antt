-- ===== src/Tray/Screens.antt =====
-- The way between the two screens of vc-tray/src/main.rs.
use voicechat.Base.{
  Result, ◌⊎◌, ℕ, zero, suc, ◌≤◌, List, ◌∷◌, [], ◌≡◌, refl, ap, ◌∙◌, ok, err, length, some, none,
  Option, Option-cases, if◌then◌else◌, Bool, Bool-cases, true, false, ◌&&◌, ◌||◌, arith, inl, inr,
  get_elem?,
}
use voicechat.Base.Bytes.{Error, address_unreadable}
use voicechat.Base.Floats.{Float32}
use voicechat.Net.Addr.{SocketAddr}
use voicechat.Session.Loop.Shared.{SessionConfig}
use voicechat.Tray.Lobby.{
  Edit, choose_host, type_bind_addr, type_host_addr, type_passphrase, tick_denoise, tick_upnp,
  choose_input, choose_output, choose_mode, chosen, edit, new_lobby, LobbyConfig, selected_device,
  parsed, lobby_host, config_of, session_config,
}
use voicechat.Tray.{
  new, lobby, connected, VoiceChatApp, Clicks, launch, start_session, can_connect, click_connect,
  disconnect, draw_connected,
}

-- The device lists have what is selected in them.
pub record HasSelections (c : LobbyConfig) : Type 0 where
  pub input : c.selected_input ≤ length c.input_devices
  pub output : c.selected_output ≤ length c.output_devices

abbrev is_some {ℓ} : {A : Type ℓ} → Option A → Bool
is_some none = false
is_some (some a) = true

-- The addresses that the lobby needs can be read.
pub readable : (List ℕ → Option SocketAddr) → LobbyConfig → Bool
readable parse c = is_some (parse c.bind_addr) && (c.is_host || is_some (parse c.host_addr))

chosen-le :
    (devices : List (List ℕ)) (idx before : ℕ)
    → before ≤ length devices
    → chosen devices idx before ≤ length devices
unfolding chosen
chosen-le devices idx before h = ground arith

edit-HasSelections : (e : Edit) (c : LobbyConfig) → HasSelections c → HasSelections (edit e c)
unfolding edit
edit-HasSelections (choose_host b) c h = record { input = h.input; output = h.output }
edit-HasSelections (type_bind_addr text) c h = record { input = h.input; output = h.output }
edit-HasSelections (type_host_addr text) c h = record { input = h.input; output = h.output }
edit-HasSelections (type_passphrase text) c h = record { input = h.input; output = h.output }
edit-HasSelections (tick_denoise b) c h = record { input = h.input; output = h.output }
edit-HasSelections (tick_upnp b) c h = record { input = h.input; output = h.output }
edit-HasSelections (choose_input idx) c h = record {
  input = chosen-le c.input_devices idx c.selected_input h.input;
  output = h.output;
}
edit-HasSelections (choose_output idx) c h = record {
  input = h.input;
  output = chosen-le c.output_devices idx c.selected_output h.output;
}
edit-HasSelections (choose_mode idx) c h = record { input = h.input; output = h.output }

get_elem?-present :
    {A : Type 0} (xs : List A) (i : ℕ) → suc i ≤ length xs → (a : A) × (get_elem? xs i ≡ some a)
get_elem?-present [] i h = absurd (omega arith)
get_elem?-present (x ∷ xs) zero h = (x, refl)
get_elem?-present (x ∷ xs) (suc i) h = get_elem?-present xs i (omega arith)

selected_device_ok :
    (devices : List (List ℕ)) (selected : ℕ)
    → selected ≤ length devices
    → (d : Option (List ℕ)) × (selected_device devices selected ≡ ok d)
unfolding selected_device
selected_device_ok devices zero h = (none, refl)
selected_device_ok devices (suc i) h =
    let (name, there) = get_elem?-present devices i h in (some name, ground arith)

module _ (fl32 : Float32) (parse : List ℕ → Option SocketAddr) where
  session_config-cases :
      (c : LobbyConfig)
      → HasSelections c
      → ((readable parse c ≡ true)
          × (config : SessionConfig fl32) × (session_config fl32 parse c ≡ ok config))
        ⊎ ((readable parse c ≡ false) × (session_config fl32 parse c ≡ err address_unreadable))
  unfolding session_config parsed lobby_host readable
  session_config-cases c has =
      let (input, has_input) = selected_device_ok c.input_devices c.selected_input has.input in
      let (output, has_output) = selected_device_ok c.output_devices c.selected_output has.output in
      elim (Option-cases (parse c.bind_addr)) [
        | inl unreadable ↦ inr (ground arith, ground arith)
        | inr (bind, read) ↦ elim (Bool-cases c.is_host) [
          | inl hosts ↦ inl (
            ground arith,
            config_of fl32 parse c bind none input output,
            rw (read, hosts, has_input, has_output) refl,
          )
          | inr joins ↦ elim (Option-cases (parse c.host_addr)) [
            | inl no_host ↦ inr (ground arith, ground arith)
            | inr (host, found) ↦ inl (
              ground arith,
              config_of fl32 parse c bind (some host) input output,
              rw (read, joins, found, has_input, has_output) refl,
            )
          ]
        ]
      ]

  click_connect_ok :
      (app : VoiceChatApp fl32) (config : SessionConfig fl32)
      → can_connect fl32 parse app.config.passphrase ≡ true
      → session_config fl32 parse app.config ≡ ok config
      → click_connect fl32 parse app
        ≡ (ok tt, record (launch fl32 parse config app) { error_msg = none })
  unfolding click_connect start_session
  click_connect_ok app config enabled made = ground arith

  click_connect_err :
      (app : VoiceChatApp fl32) (e : Error)
      → can_connect fl32 parse app.config.passphrase ≡ true
      → session_config fl32 parse app.config ≡ err e
      → click_connect fl32 parse app ≡ (ok tt, record app { error_msg = some e })
  unfolding click_connect start_session
  click_connect_err app e enabled failed = ground arith

  click_connect-HasSelections :
      (app : VoiceChatApp fl32)
      → HasSelections app.config
      → can_connect fl32 parse app.config.passphrase ≡ true
      → let after = click_connect fl32 parse app in
        let fine = readable parse app.config in
        (after.0 ≡ ok tt)
        × (after.1.state ≡ (if fine then connected else app.state))
        × (after.1.error_msg ≡ (if fine then none else some address_unreadable))
        × (length after.1.started ≡ (if fine then suc (length app.started) else length app.started))
  unfolding launch
  click_connect-HasSelections app has enabled = elim (session_config-cases app.config has) [
    | inl (fine, config, made) ↦
        rw (click_connect_ok app config enabled made, fine) (refl, refl, refl, refl)
    | inr (unreadable, failed) ↦
        rw (click_connect_err app address_unreadable enabled failed, unreadable)
          (refl, refl, refl, refl)
  ]

  -- A click on the button changes nothing of what is set in the lobby, whether it fails or not.
  click_connect_config :
      (app : VoiceChatApp fl32)
      → HasSelections app.config
      → (click_connect fl32 parse app).1.config ≡ app.config
  unfolding click_connect start_session launch
  click_connect_config app has = elim (Bool-cases (can_connect fl32 parse app.config.passphrase)) [
    | inl enabled ↦ elim (session_config-cases app.config has) [
      | inl (fine, config, made) ↦ ground (arith, enabled, made)
      | inr (unreadable, failed) ↦ ground (arith, enabled, failed)
    ]
    | inr disabled ↦ ground (arith, disabled)
  ]

  -- What is done in the lobby: an edit, or a click on the connect button.
  pub data Deed : Type 0 where
    edits_lobby : Edit → Deed
    clicks_connect : Deed

  unfoldable pub deed : Deed → VoiceChatApp fl32 → VoiceChatApp fl32
  deed (edits_lobby e) app = record app { config = edit e app.config }
  deed clicks_connect app = (click_connect fl32 parse app).1

  unfoldable pub deeds : List Deed → VoiceChatApp fl32 → VoiceChatApp fl32
  deeds [] app = app
  deeds (d ∷ ds) app = deeds ds (deed d app)

  deed-HasSelections :
      (d : Deed) (app : VoiceChatApp fl32)
      → HasSelections app.config
      → HasSelections (deed d app).config
  unfolding deed
  deed-HasSelections (edits_lobby e) app has = edit-HasSelections e app.config has
  deed-HasSelections clicks_connect app has = rw (click_connect_config app has) has

  deeds-HasSelections :
      (ds : List Deed) (app : VoiceChatApp fl32)
      → HasSelections app.config
      → HasSelections (deeds ds app).config
  unfolding deeds
  deeds-HasSelections [] app has = has
  deeds-HasSelections (d ∷ ds) app has =
      deeds-HasSelections ds (deed d app) (deed-HasSelections d app has)

  -- What the connect button does in a new application that is in the lobby after any edits of the lobby
  -- and any clicks on the button before, when the passphrase is not empty. It never panics. If the
  -- addresses can be read, the session of the lobby is started, the connected screen comes, and no error
  -- is shown; otherwise the lobby stays, with the error, and no session is started by the click.
  pub click_connect_lem :
      (inputs outputs : Result (List (List ℕ))) (ds : List Deed)
      → let app = deeds ds (new fl32 parse inputs outputs) in
        app.state ≡ lobby
        → can_connect fl32 parse app.config.passphrase ≡ true
        → let after = click_connect fl32 parse app in
          let fine = readable parse app.config in
          (after.0 ≡ ok tt)
          × (after.1.state ≡ (if fine then connected else lobby))
          × (after.1.error_msg ≡ (if fine then none else some address_unreadable))
          × (length after.1.started
              ≡ (if fine then suc (length app.started) else length app.started))
  unfolding new new_lobby
  click_connect_lem inputs outputs ds here enabled =
      let first = new fl32 parse inputs outputs in
      let app = deeds ds first in
      let (fine, state, error, started) =
        click_connect-HasSelections app
          (deeds-HasSelections ds first (record { input = omega arith; output = omega arith }))
          enabled in
      (
        fine,
        state ∙ ap (λ s. if readable parse app.config then connected else s) here,
        error,
        started,
      )

  -- The thread of a new session raises the running flag only when it has begun to run. A frame of the
  -- connected screen that is drawn before, whatever is clicked in it, goes back to the lobby and drops the
  -- handle of the session, which is among the started ones all the same.
  pub session_lost :
      (app : VoiceChatApp fl32) (config : SessionConfig fl32) (clicks : Clicks fl32 parse)
      → can_connect fl32 parse app.config.passphrase ≡ true
      → session_config fl32 parse app.config ≡ ok config
      → let drawn = draw_connected fl32 parse clicks (click_connect fl32 parse app).1 in
        (drawn.state ≡ lobby)
        × (drawn.session_shared ≡ none)
        × (drawn.started ≡ config ∷ app.started)
  unfolding launch draw_connected disconnect
  session_lost app config clicks enabled made =
      rw (click_connect_ok app config enabled made) (refl, refl, refl)
