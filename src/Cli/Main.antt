-- ===== src/Cli/Main.antt =====
-- `main` of vc-cli/src/main.rs: what each command runs and prints, and the printer of statistics.
use voicechat.Base.{
  ℕ, List, ◌∷◌, [], ◌++◌, Result, ok, err, panic, some, none, Option, if◌then◌else◌, Bool, true,
  false, map,
}
use voicechat.Base.Floats.{Float64, Float32}
use voicechat.Audio.{Host, list_devices}
use voicechat.Cli.{
  Command, host_command, join_command, loopback_command, devices_command, to_input_mode, config_of,
  listens, StatsLine, stats_line,
}
use voicechat.Session.Handle.{Session}
use voicechat.Session.Handle
use voicechat.Session.Loop.Shared.{PeerDisplayInfo}

-- The two lists of `Command::Devices`: a list that cannot be had ends the command, and what was printed
-- before stays printed.
unfoldable pub print_devices : Host → Host → List (List ℕ) × Result (Unit {0})
print_devices inputs outputs = elim (list_devices inputs) [
  | err e ↦ ([], err e)
  | panic ↦ ([], panic)
  | ok names ↦ elim (list_devices outputs) [
    | err e ↦ (names, err e)
    | panic ↦ (names, panic)
    | ok more ↦ (names ++ more, ok tt)
  ]
]

module _ (fl32 : Float32) where
  -- What is done for a command: a session is run, with or without a listener for push-to-talk, and with
  -- a printer of statistics; or the loopback test; or the devices are printed.
  pub data Job : Type 0 where
    run_session : Session fl32 → (listening : Bool) → Job
    run_loopback : (input_device output_device : Option (List ℕ)) → (denoise : Bool) → Job
    show_devices : Job

  unfoldable pub job : Command → Job
  unfolding config_of listens Handle.new
  job (host_command args upnp) =
      run_session (Handle.new fl32 (config_of fl32 args true none upnp))
        (listens (to_input_mode args.input_mode))
  job (join_command host args) =
      run_session (Handle.new fl32 (config_of fl32 args false (some host) false))
        (listens (to_input_mode args.input_mode))
  job (loopback_command input_device output_device denoise) =
      run_loopback input_device output_device denoise
  job devices_command = show_devices

-- A turn of the printer's loop, once its five seconds have passed: whether the flag was up before them,
-- and the list of peers if its lock could be had.
pub record Wake : Type 0 where
  pub running : Bool
  pub peers : Option (List PeerDisplayInfo)

module _ (fl : Float64) where
  -- A lock that cannot be had, and an empty list, print nothing.
  unfoldable pub printed : Option (List PeerDisplayInfo) → List (StatsLine fl)
  unfolding stats_line
  printed none = []
  printed (some peers) = map (stats_line fl) peers

  unfoldable pub print_stats : List Wake → List (StatsLine fl)
  unfolding printed
  print_stats [] = []
  print_stats (t ∷ ts) =
      let rest = print_stats ts in if t.running then printed t.peers ++ rest else []
