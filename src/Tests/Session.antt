-- ===== src/Tests/Session.antt =====
-- The theorems on what a session does with a packet, each at one input.
use voicechat.Base.{ℕ, List, ◌∷◌, [], ◌≡◌, refl, ok, err, none, true, false, arith}
use voicechat.Tests.{fl, op, clear_aead, sum_dh, home, session}
use voicechat.Base.Bytes.{replay_detected}
use voicechat.Crypto.Aead.{Aead}
use voicechat.Crypto.Context
use voicechat.Crypto.Replay.Window.{new-Stands}
use voicechat.KeyExchange
use voicechat.Net.Header.{PacketHeader}
use voicechat.Peer.{new_host}
use voicechat.Peer.Validity.{new_host-IsValid}
use voicechat.Session.World.{Env, World}
use voicechat.Session.Audio.{hear, filter_of}
use voicechat.Session.Incoming.{handle_incoming}
use voicechat.Session.Kept.{Holds}
use voicechat.Session.Tables.{Tables, handle_incoming-Tables}
use voicechat.Session.States.{state_of, IsNoHandshake, handle_incoming_states}
use voicechat.Session.Replayed.{hear_again}
use voicechat.Tests.Peers.{guest}

-- A session whose cipher is given, at the time 9.
abbrev pub env_of : Aead → Env
env_of aead = record {
  fl = fl;
  op = op;
  aead = aead;
  dh = sum_dh;
  key = 5 ∷ [];
  key_exchange = KeyExchange.new sum_dh (3 ∷ []);
  now = 9;
  local_addr = ok home;
  resolve_local_ip = λ addr. none;
  sendable = λ bytes addr. true;
}

-- A new host that has sent nothing.
abbrev pub hosting : (aead : Aead) → World (env_of aead)
hosting aead = record {
  peer_mgr = new_host fl op session;
  crypto_ctx = Context.new (5 ∷ []) session;
  sent = [];
}

-- A JOIN packet from the port 4000.
abbrev join_packet : List ℕ
join_packet = 2 ∷ 0 ∷ 0 ∷ 0 ∷ 0 ∷ 0 ∷ 0 ∷ 0 ∷ 15 ∷ 160 ∷ []

handle_incoming-Tables_example :
    Tables
      (env_of clear_aead)
      (handle_incoming (env_of clear_aead) join_packet home (hosting clear_aead)).1
handle_incoming-Tables_example =
    handle_incoming-Tables (env_of clear_aead) join_packet home (hosting clear_aead)
      (unfold Holds in new_host-IsValid fl op session)

abbrev audio_header : PacketHeader
audio_header = record { pkt_type = 1; peer_id = 1; seq_num = 4; counter = 12 }

hear_again_example :
    let q = (hear (env_of clear_aead) audio_header [] false guest).1 in
    ((hear (env_of clear_aead) audio_header (7 ∷ []) false q).0 ≡ err replay_detected)
    × ((hear (env_of clear_aead) audio_header (7 ∷ []) false q).1.jitter_buffer ≡ q.jitter_buffer)
    × ((hear (env_of clear_aead) audio_header (7 ∷ []) false q).1.decoder ≡ q.decoder)
hear_again_example =
    hear_again (env_of clear_aead) audio_header audio_header [] (7 ∷ []) false guest []
      (unfold filter_of in new-Stands) refl

-- A keepalive.
abbrev pub keepalive_packet : List ℕ
keepalive_packet = 5 ∷ 1 ∷ 0 ∷ 0 ∷ 0 ∷ 0 ∷ 0 ∷ 0 ∷ []

handle_incoming_states_example :
    state_of
      (env_of clear_aead)
      (handle_incoming (env_of clear_aead) keepalive_packet home (hosting clear_aead)).1
      1
    ≡ state_of (env_of clear_aead) (hosting clear_aead) 1
handle_incoming_states_example =
    handle_incoming_states (env_of clear_aead) (hosting clear_aead) keepalive_packet home
      (unfold IsNoHandshake in
        (λ e. ground arith, λ e. ground arith, λ e. ground arith, λ e. ground arith))
      1
