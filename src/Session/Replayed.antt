-- ===== src/Session/Replayed.antt =====
-- Audio that was heard once and comes again.
use voicechat.Base.{ℕ, List, ◌≡◌, refl, Result, ok, err, panic, Bool, true, false, arith}
use voicechat.Base.Int.{ℤ}
use voicechat.Base.Bytes.{replay_detected}
use voicechat.Codec.{Opus}
use voicechat.Codec
use voicechat.Crypto.Replay.{ReplayFilter, check_and_accept}
use voicechat.Net.Header.{PacketHeader}
use voicechat.Peer.{RemotePeer, touch}
use voicechat.Session.World.{Env}
use voicechat.Session.Audio.{filter_of, set_filter, buffer_frame, hear}
use voicechat.Crypto.Replay.Window.{Stands}
use voicechat.Crypto.Replay.Traffic.{check_and_accept_again}

module _ (env : Env) where
  filter_of-touch :
      (used : Bool) (p : RemotePeer env.fl env.op)
      → filter_of env used (touch env.fl env.op env.now p) ≡ filter_of env used p
  unfolding touch filter_of
  filter_of-touch true p = refl
  filter_of-touch false p = refl

  filter_of-set_filter :
      (used : Bool) (f : ReplayFilter) (p : RemotePeer env.fl env.op)
      → filter_of env used (set_filter env used f p) ≡ f
  unfolding filter_of set_filter
  filter_of-set_filter true f p = refl
  filter_of-set_filter false f p = refl

  filter_of-decoder :
      (used : Bool) (p : RemotePeer env.fl env.op) (d : env.op.Decoder)
      → filter_of env used (record p { decoder = d }) ≡ filter_of env used p
  unfolding filter_of
  filter_of-decoder true p d = refl
  filter_of-decoder false p d = refl

  filter_of-buffer_frame :
      (used : Bool) (seq_num : ℕ) (r : Result (List ℤ)) (p : RemotePeer env.fl env.op)
      → filter_of env used (buffer_frame env seq_num r p).1 ≡ filter_of env used p
  unfolding filter_of buffer_frame
  filter_of-buffer_frame true seq_num (ok pcm) p = refl
  filter_of-buffer_frame false seq_num (ok pcm) p = refl
  filter_of-buffer_frame used seq_num (err e) p = refl
  filter_of-buffer_frame used seq_num panic p = refl

  filter_of-hear :
      (header : PacketHeader) (plaintext : List ℕ) (used : Bool) (p : RemotePeer env.fl env.op)
      → filter_of env used (hear env header plaintext used p).1
        ≡ (check_and_accept (filter_of env used p) header.counter).1
  unfolding hear
  filter_of-hear header plaintext used p =
      let seen = touch env.fl env.op env.now p in
      let checked = check_and_accept (filter_of env used seen) header.counter in
      let p' = set_filter env used checked.1 seen in
      let decoded = Codec.decode env.op p'.decoder plaintext in
      ground (
        arith,
        filter_of-touch used p,
        filter_of-set_filter used checked.1 seen,
        filter_of-decoder used p' decoded.1,
        filter_of-buffer_frame used header.seq_num decoded.0 (record p' { decoder = decoded.1 }),
      )

  set_filter_keeps_audio :
      (used : Bool) (f : ReplayFilter) (p : RemotePeer env.fl env.op)
      → ((set_filter env used f p).jitter_buffer ≡ p.jitter_buffer)
        × ((set_filter env used f p).decoder ≡ p.decoder)
  unfolding set_filter
  set_filter_keeps_audio true f p = (refl, refl)
  set_filter_keeps_audio false f p = (refl, refl)

  hear_stale :
      (header : PacketHeader) (plaintext : List ℕ) (used : Bool) (p : RemotePeer env.fl env.op)
      → (check_and_accept (filter_of env used p) header.counter).0 ≡ false
      → ((hear env header plaintext used p).0 ≡ err replay_detected)
        × ((hear env header plaintext used p).1.jitter_buffer ≡ p.jitter_buffer)
        × ((hear env header plaintext used p).1.decoder ≡ p.decoder)
  unfolding hear
  hear_stale header plaintext used p stale =
      let seen = touch env.fl env.op env.now p in
      let checked = check_and_accept (filter_of env used seen) header.counter in
      unfold touch in
      ground (arith, filter_of-touch used p, set_filter_keeps_audio used checked.1 seen)

  -- In what the audio arm does with an opened packet: after one of a peer whose replay filter for the kind
  -- of context that opened it stands for the counters it has accepted, a packet with the same counter
  -- that a context of the same kind (shared, or of the pair) opened is refused, whatever it holds, and
  -- reaches neither the decoder nor the jitter buffer.
  pub hear_again :
      (header later : PacketHeader) (plaintext other : List ℕ) (used : Bool)
      (p : RemotePeer env.fl env.op) (seen : List ℕ)
      → Stands (filter_of env used p) seen
      → later.counter ≡ header.counter
      → let q = (hear env header plaintext used p).1 in
        ((hear env later other used q).0 ≡ err replay_detected)
        × ((hear env later other used q).1.jitter_buffer ≡ q.jitter_buffer)
        × ((hear env later other used q).1.decoder ≡ q.decoder)
  hear_again header later plaintext other used p seen stands same =
      let q = (hear env header plaintext used p).1 in
      hear_stale later other used q (
        rw (same, filter_of-hear header plaintext used p)
          (check_and_accept_again (filter_of env used p) seen header.counter stands))
