-- ===== src/Tests/Loop.antt =====
-- The theorems on the loop of a session, each at one input.
use voicechat.Base.{
  ℕ, ◌+◌, List, ◌∷◌, [], ◌++◌, ◌≡◌, ◌≢◌, refl, panic, ok, none, some, true, false, if◌then◌else◌,
  arith, replicate, length, drop, ◌*◌, ◌/◌, ◌<◌, ◌≤◌,
}
use voicechat.Tests.{fl, fl32, op, clear_aead, home, session}
use voicechat.Tests.Audio.{same_block}
use voicechat.Tests.Peers.{guest}
use voicechat.Tests.Session.{env_of, hosting, keepalive_packet}
use voicechat.Crypto.Aead.{Argon2}
use voicechat.Crypto.Context
use voicechat.Crypto.Context.{derive_key_from_passphrase}
use voicechat.Dsp
use voicechat.Input
use voicechat.Input.{always_on, push_to_talk}
use voicechat.Jitter
use mathlib.Core.Option
use voicechat.Net.Header.{pkt_keepalive}
use voicechat.Peer.{
  get_peer, is_connected, new_host, peer_by_addr, entries, is_connected_state, connected_peers,
  check_timeouts,
}
use voicechat.Peer.Validity.{IsValid}
use voicechat.Session.World.{World, ◌>>=◌, lift, gets, pure}
use voicechat.Session.Control.{handle_keepalive, touch_by_addr, touch_found}
use voicechat.Session.Incoming.{dispatch, handle_incoming}
use voicechat.Net.Wire.{parse_wire_packet}
use voicechat.Net.Header
use voicechat.Base.Table
use voicechat.Session.Frames.{frames, frames_end}
use voicechat.Session.Capture.{Chain, capture, capture_frame}
use voicechat.Session.Capture.Gating.{capture_muted}
use voicechat.Session.Capture.Open.{encode_frames, capture_open}
use voicechat.Session.Counted.{packets_from, keepalive_lem}
use voicechat.Session.Outgoing.{keepalive}
use voicechat.Session.Playout.{play_all}
use voicechat.Session.Playout.Peers.{play_all-get_peer}
use voicechat.Session.Lifetime.{session-IsValid}
use voicechat.Session.Forward.{IsNoList, rounds_forward}
use voicechat.Session.State.{Tick, LoopState}
use voicechat.Session.Loop.{rounds, round, world, env_at}
use voicechat.Session.Loop.Survival.{IsHandled, round_goes_on}
use voicechat.Session.Loop.Shared.{SessionConfig}
use voicechat.Session.Loop.Shared
use voicechat.Session.Start.{
  enter_loop, send_join, Boot, prepare, first_session_id, first_peers, external_addr, mapped,
}
use voicechat.Vad

abbrev chain : Input.InputMode → Chain fl32 op same_block
chain mode = record {
  noise_suppressor = Dsp.set_enabled fl32 same_block (Dsp.new fl32 same_block) false;
  vad = Vad.new fl32 (Vad.default_config fl32);
  input_gate = Input.new mode;
  encoder = tt;
}

frames_end_example :
    let body = capture_frame fl32 op same_block in
    let samples : List ℕ = replicate 250 1 in
    (frames body 5 samples (chain always_on)
      ≡ frames body (length samples / 120) samples (chain always_on))
    × ((frames body 5 samples (chain always_on)).2 ≡ drop (120 * (length samples / 120)) samples)
    × (length (frames body 5 samples (chain always_on)).2 < 120)
frames_end_example =
    frames_end (capture_frame fl32 op same_block) 5 (replicate 250 1) (chain always_on)
      (omega arith)

capture_muted_example :
    ((capture fl32 op same_block (replicate 250 9) (chain push_to_talk)).0 ≡ [])
    × ((capture fl32 op same_block (replicate 250 9) (chain push_to_talk)).1.encoder ≡ tt)
capture_muted_example =
    capture_muted fl32 op same_block (replicate 250 9) (chain push_to_talk)
      (unfold Input.new in refl) (unfold Input.new in refl)

capture_open_example :
    (capture fl32 op same_block (replicate 250 9) (chain always_on)).0
    ≡ encode_frames fl32 op same_block (250 / 120) (replicate 250 9) tt
capture_open_example =
    capture_open fl32 op same_block (replicate 250 9) (chain always_on) (unfold Input.new in refl)
      (unfold Dsp.set_enabled in refl)

abbrev two_known : World (env_of clear_aead)
two_known = record (hosting clear_aead) {
  peer_mgr = record (new_host fl op session) {
    peers = (1, guest) ∷ (2, record guest { id = 2 }) ∷ [];
    addr_to_id = (home, 1) ∷ [];
  };
}

keepalive_lem_example : keepalive (env_of clear_aead) two_known ≡ (
  ok tt,
  record {
    peer_mgr = check_timeouts fl op 9 two_known.peer_mgr;
    crypto_ctx = record two_known.crypto_ctx { send_counter = 0 + 2 };
    sent =
        []
        ++ packets_from
            (env_of clear_aead)
            5
            0
            0
            []
            two_known.crypto_ctx
            0
            ((1, home) ∷ (2, home) ∷ []);
  },
)
unfolding Context.new connected_peers entries is_connected is_connected_state new_host
keepalive_lem_example = keepalive_lem (env_of clear_aead) two_known (omega arith)

play_all-get_peer_example :
    Option.map (λ p. p.jitter_buffer) (get_peer fl op (play_all fl fl32 op two_known.peer_mgr).1 2)
    ≡ Option.map
        (λ p. if is_connected fl op p then (Jitter.pop fl p.jitter_buffer).1 else p.jitter_buffer)
        (get_peer fl op two_known.peer_mgr 2)
play_all-get_peer_example = play_all-get_peer fl fl32 op two_known.peer_mgr 2

-- A round that receives a keepalive and captures two frames and a half.
abbrev tick : Tick fl32
tick = record {
  now = 3000000000;
  running = true;
  mode_lock = true;
  info_lock = true;
  received = some (keepalive_packet, home);
  captured = replicate 300 9;
  room = 9600;
  sendable = λ bytes addr. true;
  local_addr = ok home;
  resolve_local_ip = λ addr. none;
  pick = λ m. none;
  others = λ shared. shared;
}

abbrev argon2 : Argon2
argon2 = record {
  params_accepted = λ m t p n. true;
  hash_password = λ m t p n pass salt. some (5 ∷ []);
}

abbrev config : SessionConfig fl32
config = record {
  bind_addr = home;
  passphrase = 1 ∷ [];
  is_host = true;
  host_addr = none;
  input_device = none;
  output_device = none;
  noise_suppression = false;
  input_mode = always_on;
  vad_config = Vad.default_config fl32;
  upnp = true;
}

abbrev boot : Boot op
boot = record {
  random_id = session;
  bind = λ addr. ok tt;
  local_addr = ok home;
  public_ip = none;
  upnp_setup = λ addr. ok home;
  start_capture = λ name. ok tt;
  start_playout = λ name. ok tt;
  encoder_setup = record {
    create = λ rate channels app. some tt;
    set_bitrate = λ n e. some e;
    set_inband_fec = λ b e. some e;
    set_packet_loss_perc = λ n e. some e;
  };
  set_read_timeout = ok tt;
  began = 7;
}

-- The state that the session starts with.
abbrev begun : LoopState fl fl32 op same_block
begun = record {
  peer_mgr = new_host fl op session;
  crypto_ctx = Context.new (5 ∷ []) session;
  sent = [];
  chain = chain always_on;
  capture_accum = [];
  played = [];
  last_playout = 7;
  last_keepalive = 7;
  last_adapt = 7;
  last_ping = 7;
  last_ui_update = 7;
  shared = record (Shared.new false always_on) { external_addr = some home };
}

begun_prepared : prepare fl fl32 op same_block argon2 config boot ≡ ok (5 ∷ [], begun)
unfolding prepare derive_key_from_passphrase first_session_id first_peers external_addr mapped
begun_prepared = refl

begun_entered : enter_loop (env_of clear_aead) fl32 same_block config (ok tt) begun ≡ ok begun
unfolding enter_loop send_join pure
begun_entered = refl

session-IsValid_example :
    IsValid fl op (rounds (env_of clear_aead) fl32 same_block (tick ∷ tick ∷ []) begun).1.peer_mgr
session-IsValid_example =
    session-IsValid (env_of clear_aead) fl32 same_block argon2 config boot (5 ∷ []) begun begun
      (tick ∷ tick ∷ []) begun_prepared begun_entered

keepalive_handled :
    (handle_incoming
      (env_at (env_of clear_aead) fl32 same_block tick)
      keepalive_packet
      home
      (world (env_of clear_aead) fl32 same_block tick begun)).0
    ≢ panic
unfolding handle_incoming dispatch handle_keepalive touch_by_addr touch_found peer_by_addr new_host
    ◌>>=◌ lift gets pure parse_wire_packet Header.from_bytes Table.get
keepalive_handled e = ground arith

round_goes_on_example : (round (env_of clear_aead) fl32 same_block tick begun).0 ≡ ok tt
round_goes_on_example =
    round_goes_on (env_of clear_aead) fl32 same_block tick begun
      (unfold IsHandled in keepalive_handled)

keepalive-IsNoList : IsNoList (env_at (env_of clear_aead) fl32 same_block tick) keepalive_packet
unfolding parse_wire_packet Header.from_bytes
keepalive-IsNoList header header_bytes ct plaintext split read list = absurd (ground arith)

rounds_forward_example :
    let after = (rounds (env_of clear_aead) fl32 same_block (tick ∷ tick ∷ []) begun).1 in
    (after.peer_mgr.local_id ≡ 0)
    × (after.peer_mgr.session_id ≡ session)
    × (after.crypto_ctx.cipher ≡ 5 ∷ [])
    × (after.crypto_ctx.session_id ≡ session)
    × (0 ≤ after.crypto_ctx.send_counter)
unfolding new_host Context.new
rounds_forward_example =
    rounds_forward (env_of clear_aead) fl32 same_block (tick ∷ tick ∷ []) begun
      (keepalive-IsNoList, (keepalive-IsNoList, tt))
