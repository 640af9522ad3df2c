-- ===== src/Session/Loop/Survival.antt =====
-- What can end the loop of `Session::run` (vc-core/src/lib.rs).
use voicechat.Base.{
  ℕ, List, ◌∷◌, [], ◌≡◌, ◌≢◌, refl, ok, err, panic, Result, some, none, Option, true, false, arith,
}
use voicechat.Base.Floats.{Float32}
use voicechat.Crypto.Context
use voicechat.Crypto.Context.{CryptoContext}
use voicechat.Dsp.{Denoiser}
use voicechat.Net.Addr.{SocketAddr}
use voicechat.Net.PeerList.{PeerEntry}
use voicechat.Peer.{RemotePeer, PeerManager}
use voicechat.Session.World.{Env, World, M, ◌>>◌, with_peers, attempt, attempted, ◌>>=◌, pure, seal}
use voicechat.Session.Control.{reserve_counter, tried, send_key}
use voicechat.Session.Incoming.{handle_incoming}
use voicechat.Session.Outgoing.{
  for_each, send_counted, seal_audio, send_audio_by, send_audio_known, broadcast_audio,
  broadcast_all, keepalive, ping_known, send_pings, offer_key, offer_keys,
}
use voicechat.Session.Playout.{play_all}
use voicechat.Session.Succeeds.{
  is_ok, is_panic, Succeeds, proceed-Succeeds, Succeeds-or_done, Succeeds-bind, succeeds_rules,
}
use voicechat.Session.State.{Tick, LoopState}
use voicechat.Session.Loop.{
  receive, sync_controls, capture_round, exchange, settle, round, env_at, world,
}

module _ (env : Env) where
  reserve_no_panic : (w : World env) → is_panic (reserve_counter env w).0 ≡ false
  unfolding reserve_counter Context.next_counter
  reserve_no_panic w = ground arith

  -- A counter that is asked for, and what follows a value or a failure.
  reserve_then :
      (f : Result ℕ → M env (Unit {0}))
      → ((r : Result ℕ) → is_panic r ≡ false → Succeeds (f r))
      → Succeeds (tried env (reserve_counter env) >>= f)
  unfolding ◌>>=◌ tried
  reserve_then f sf = record { at = λ w. (sf _ (reserve_no_panic w)).at (reserve_counter env w).1 }

  Succeeds-send_counted :
      (pkt_type local_id seq : ℕ) (payload : List ℕ) (addr : SocketAddr)
      → Succeeds (send_counted env pkt_type local_id seq payload addr)
  unfolding send_counted
  Succeeds-send_counted pkt_type local_id seq payload addr =
      reserve_then _ (λ r h. Succeeds-or_done r _ h (λ counter. search succeeds_rules depth 10))

  Succeeds-for_each :
      (body : PeerEntry → M env (Unit {0})) (entries : List PeerEntry)
      → ((entry : PeerEntry) → Succeeds (body entry))
      → Succeeds (for_each env body entries)
  unfolding for_each
  Succeeds-for_each body [] sb = search succeeds_rules
  Succeeds-for_each body (p ∷ ps) sb =
      Succeeds-bind _ _ (sb p) (λ done. Succeeds-for_each body ps sb)

  pub seal_audio_no_panic :
      (ctx : CryptoContext) (local_id seq : ℕ) (opus_data : List ℕ)
      → is_panic (seal_audio env ctx local_id seq opus_data).0 ≡ false
  unfolding seal_audio Context.next_counter seal Context.encrypt
  seal_audio_no_panic ctx local_id seq opus_data = ground arith

  Succeeds-send_audio_by :
      (ctx : Option CryptoContext) (local_id seq : ℕ) (opus_data : List ℕ) (entry : PeerEntry)
      → Succeeds (send_audio_by env ctx local_id seq opus_data entry)
  unfolding send_audio_by
  Succeeds-send_audio_by none local_id seq opus_data (id, addr) = Succeeds-send_counted _ _ _ _ _
  Succeeds-send_audio_by (some ctx) local_id seq opus_data (id, addr) =
      search (succeeds_rules, seal_audio_no_panic) depth 10

  Succeeds-send_audio_known :
      (local_id : ℕ) (opus_data : List ℕ) (entry : PeerEntry)
      (peer : Option (RemotePeer env.fl env.op))
      → Succeeds (send_audio_known env local_id opus_data entry peer)
  unfolding send_audio_known
  Succeeds-send_audio_known local_id opus_data entry none = search succeeds_rules
  Succeeds-send_audio_known local_id opus_data entry (some peer) =
      search (succeeds_rules, Succeeds-send_audio_by)

  Succeeds-broadcast_all : (packets : List (List ℕ)) → Succeeds (broadcast_all env packets)
  unfolding broadcast_all broadcast_audio
  Succeeds-broadcast_all [] = search succeeds_rules
  Succeeds-broadcast_all (opus_data ∷ rest) =
      Succeeds-bind _ _
        (search (succeeds_rules, Succeeds-for_each, Succeeds-send_audio_known) depth 20)
        (λ done. Succeeds-broadcast_all rest)

  Succeeds-keepalive : Succeeds (keepalive env)
  unfolding keepalive
  Succeeds-keepalive = search (succeeds_rules, Succeeds-for_each, Succeeds-send_counted) depth 20

  Succeeds-ping_known :
      (pick : List (ℕ × ℕ) → Option ℕ) (local_id : ℕ) (entry : PeerEntry)
      (peer : Option (RemotePeer env.fl env.op))
      → Succeeds (ping_known env pick local_id entry peer)
  unfolding ping_known
  Succeeds-ping_known pick local_id entry none = search succeeds_rules
  Succeeds-ping_known pick local_id entry (some peer) =
      search (succeeds_rules, Succeeds-send_counted)

  Succeeds-send_pings : (pick : List (ℕ × ℕ) → Option ℕ) → Succeeds (send_pings env pick)
  unfolding send_pings
  Succeeds-send_pings pick =
      search (succeeds_rules, Succeeds-for_each, Succeeds-ping_known) depth 20

  Succeeds-offer_keys : Succeeds (offer_keys env)
  unfolding offer_keys offer_key send_key
  Succeeds-offer_keys = search (succeeds_rules, Succeeds-for_each) depth 40

  received_ok :
      (r : Result (Unit {0})) (w : World env) → r ≢ panic → is_ok (attempted (r, w)).0 ≡ true
  unfolding attempted
  received_ok (ok u) w h = refl
  received_ok (err e) w h = refl
  received_ok panic w h = absurd (h refl)

  Succeeds-play_all :
      (fl32 : Float32) → Succeeds {env = env} (with_peers (play_all env.fl fl32 env.op))
  unfolding with_peers play_all
  Succeeds-play_all fl32 = record { at = λ w. refl }

module _ (env : Env) (fl32 : Float32) (dn : Denoiser fl32) (t : Tick fl32) where
  -- The packet of the round, if there is one, does not make its handler panic.
  unfoldable pub IsHandled : Option (List ℕ × SocketAddr) → World (env_at env fl32 dn t) → Type 0
  IsHandled none w = Unit {0}
  IsHandled (some (bytes, src_addr)) w =
      (handle_incoming (env_at env fl32 dn t) bytes src_addr w).0 ≢ panic

  receive_ok :
      (received : Option (List ℕ × SocketAddr)) (w : World (env_at env fl32 dn t))
      → IsHandled received w
      → is_ok (receive env fl32 dn t received w).0 ≡ true
  unfolding IsHandled receive attempt pure
  receive_ok none w h = refl
  receive_ok (some (bytes, src_addr)) w h =
      let done = handle_incoming (env_at env fl32 dn t) bytes src_addr w in
      received_ok (env_at env fl32 dn t) done.0 done.1 h

  -- A step that returns a value here, before steps that always do.
  then_ok :
      {A : Type 0} (m : M (env_at env fl32 dn t) (Unit {0})) (n : M (env_at env fl32 dn t) A)
      (w : World (env_at env fl32 dn t))
      → is_ok (m w).0 ≡ true
      → Succeeds n
      → is_ok ((m >> n) w).0 ≡ true
  unfolding ◌>>=◌
  then_ok m n w h sn = proceed-Succeeds (m w).0 (m w).1 (λ done. n) h (λ done. sn)

  exchange_ok :
      (s : LoopState env.fl fl32 env.op dn) (packets : List (List ℕ))
      (w : World (env_at env fl32 dn t))
      → IsHandled t.received w
      → is_ok (exchange env fl32 dn t s packets w).0 ≡ true
  unfolding exchange
  exchange_ok s packets w h = then_ok _ _ w (receive_ok t.received w h) (
      search
        (
          succeeds_rules, Succeeds-broadcast_all, Succeeds-play_all, Succeeds-keepalive,
          Succeeds-send_pings, Succeeds-offer_keys,
        )
        depth 40)

  settle_ok :
      (s : LoopState env.fl fl32 env.op dn) (r : Result (List (List fl32.F32)))
      (pm : PeerManager env.fl env.op) (ctx : CryptoContext) (sent : List (List ℕ × SocketAddr))
      → is_ok r ≡ true
      → (settle env fl32 dn t s r pm ctx sent).0 ≡ ok tt
  unfolding settle
  settle_ok s (ok bufs) pm ctx sent h = refl
  settle_ok s (err e) pm ctx sent h = absurd (ground arith)
  settle_ok s panic pm ctx sent h = absurd (ground arith)

  -- Unless the handling of the received packet panics, a round ends well and the loop goes on: no packet,
  -- no refusal by the system, no failure of a coder or a cipher, and no counter that has run out ends
  -- the session.
  pub round_goes_on :
      (s : LoopState env.fl fl32 env.op dn)
      → IsHandled t.received (world env fl32 dn t s)
      → (round env fl32 dn t s).0 ≡ ok tt
  unfolding round sync_controls capture_round
  round_goes_on s h =
      let cut = capture_round env fl32 dn t (sync_controls env fl32 dn t s) in
      let after = exchange env fl32 dn t cut.1 cut.0 (world env fl32 dn t cut.1) in
      settle_ok cut.1 after.0 after.1.peer_mgr after.1.crypto_ctx after.1.sent
        (exchange_ok cut.1 cut.0 (world env fl32 dn t cut.1) h)
