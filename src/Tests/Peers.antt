-- ===== src/Tests/Peers.antt =====
-- A peer for the tests.
use voicechat.Base.{none, false}
use voicechat.Tests.{fl, op, home}
use voicechat.Peer.{connected, RemotePeer}
use voicechat.Crypto.Replay
use voicechat.Jitter
use voicechat.Latency

-- A peer that was seen at the time 0.
abbrev pub guest : RemotePeer fl op
guest = record {
  id = 1;
  addr = home;
  state = connected;
  jitter_buffer = Jitter.new fl;
  decoder = 0;
  replay_filter = Replay.new;
  peer_replay_filter = Replay.new;
  last_seen = 0;
  send_seq = 0;
  latency_tracker = Latency.new fl;
  peer_crypto = none;
  kx_sent = false;
  kx_received = false;
}
