-- ===== src/Session/Kept/Rounds.antt =====
-- What the rounds of the loop of `Session::run` (vc-core/src/lib.rs) keep.
use voicechat.Base.{
  ℕ, List, ◌∷◌, [], refl, ok, err, panic, Result, some, none, Option, Bool-cases, inl, inr, All,
}
use voicechat.Base.Floats.{Float32}
use voicechat.Crypto.Context.{CryptoContext}
use voicechat.Dsp.{Denoiser}
use voicechat.Net.Addr.{SocketAddr}
use voicechat.Peer.{PeerManager}
use voicechat.Session.World.{Env, with_peers, update_peers}
use voicechat.Session.Incoming.{handle_incoming}
use voicechat.Session.Playout.{play_all, play_peer}
use voicechat.Session.Playout.Peers.{play_peer_lem, play_peers-map_values}
use voicechat.Session.Keeps.{Keeps, Keeps-attempt, keeps_rules}
use voicechat.Session.Kept.{Kept, Holds, map_peers-Keeps}
use voicechat.Session.Kept.Sends.{
  broadcast_all-Keeps, keepalive-Keeps, send_pings-Keeps, offer_keys-Keeps,
}
use voicechat.Session.State.{Tick, LoopState}
use voicechat.Session.Loop.{
  receive, sync_controls, capture_round, exchange, adapt_all, settle, round, rounds, go_on, env_at,
  world,
}

module _ (fl32 : Float32) (env : Env) (Q : PeerManager env.fl env.op → CryptoContext → Type 0)
    (kept : Kept env.fl env.op Q) where
  play_all-Keeps : Keeps (Holds env Q) (with_peers (play_all env.fl fl32 env.op))
  unfolding Holds with_peers play_all
  play_all-Keeps = record {
    at = λ w v. rw (play_peers-map_values env.fl fl32 env.op w.peer_mgr.peers) (
        kept.mapped w.peer_mgr w.crypto_ctx (λ p. (play_peer env.fl fl32 env.op p).1)
          (λ p. let same = play_peer_lem env.fl fl32 env.op p in (same.0, same.1)) v);
  }

module _ (env : Env) (fl32 : Float32) (dn : Denoiser fl32)
    (Q : PeerManager env.fl env.op → CryptoContext → Type 0) where
  -- The packet of a round, if there is one, is handled in a way that keeps `Q`.
  abbrev pub IsHarmless : Tick fl32 → Option (List ℕ × SocketAddr) → Type 0
  IsHarmless t none = Unit {0}
  IsHarmless t (some (bytes, src_addr)) =
      Keeps (Holds (env_at env fl32 dn t) Q) (handle_incoming (env_at env fl32 dn t) bytes src_addr)

  receive-Keeps :
      (t : Tick fl32) (received : Option (List ℕ × SocketAddr))
      → IsHarmless t received
      → Keeps (Holds (env_at env fl32 dn t) Q) (receive env fl32 dn t received)
  unfolding receive
  receive-Keeps t none h = search keeps_rules
  receive-Keeps t (some (bytes, src_addr)) h = Keeps-attempt _ h

  -- The tables and the context of the loop.
  unfoldable pub KeptIn : LoopState env.fl fl32 env.op dn → Type 0
  KeptIn s = Q s.peer_mgr s.crypto_ctx

  module _ (kept : Kept env.fl env.op Q) where
    adapt_all-Keeps :
        (t : Tick fl32) (elapsed : ℕ)
        → Keeps (Holds (env_at env fl32 dn t) Q) (update_peers (adapt_all env fl32 dn elapsed))
    unfolding adapt_all
    adapt_all-Keeps t elapsed =
        map_peers-Keeps (env_at env fl32 dn t) Q kept _ _ (λ p. (refl, refl)) (λ pm. refl)

    exchange-Keeps :
        (t : Tick fl32) (s : LoopState env.fl fl32 env.op dn) (packets : List (List ℕ))
        → IsHarmless t t.received
        → Keeps (Holds (env_at env fl32 dn t) Q) (exchange env fl32 dn t s packets)
    unfolding exchange
    exchange-Keeps t s packets h =
        let e = env_at env fl32 dn t in
        let heard = receive-Keeps t t.received h in
        let played = play_all-Keeps fl32 e Q kept in
        let kept_alive = keepalive-Keeps e Q kept in
        let offered = offer_keys-Keeps e Q kept in
        search
          (keeps_rules, broadcast_all-Keeps e Q kept, send_pings-Keeps e Q kept, adapt_all-Keeps t)
          depth 40

    settle_keeps :
        (t : Tick fl32) (s : LoopState env.fl fl32 env.op dn) (r : Result (List (List fl32.F32)))
        (pm : PeerManager env.fl env.op) (ctx : CryptoContext) (sent : List (List ℕ × SocketAddr))
        → Q pm ctx
        → KeptIn (settle env fl32 dn t s r pm ctx sent).1
    unfolding settle KeptIn
    settle_keeps t s (ok bufs) pm ctx sent v = v
    settle_keeps t s (err e) pm ctx sent v = v
    settle_keeps t s panic pm ctx sent v = v

    round_keeps :
        (t : Tick fl32) (s : LoopState env.fl fl32 env.op dn)
        → IsHarmless t t.received
        → KeptIn s
        → KeptIn (round env fl32 dn t s).1
    unfolding round sync_controls capture_round KeptIn Holds
    round_keeps t s h v =
        let cut = capture_round env fl32 dn t (sync_controls env fl32 dn t s) in
        let after = exchange env fl32 dn t cut.1 cut.0 (world env fl32 dn t cut.1) in
        settle_keeps t cut.1 after.0 after.1.peer_mgr after.1.crypto_ctx after.1.sent
          ((exchange-Keeps t cut.1 cut.0 h).at (world env fl32 dn t cut.1) v)

    go_on_keeps :
        (r r' : Result (Unit {0})) (s' s : LoopState env.fl fl32 env.op dn)
        → KeptIn s'
        → KeptIn s
        → KeptIn (go_on env fl32 dn r (r', s') s).1
    unfolding go_on
    go_on_keeps (ok u) r' s' s v' v = v'
    go_on_keeps (err e) r' s' s v' v = v
    go_on_keeps panic r' s' s v' v = v

    pub rounds_keep :
        (ts : List (Tick fl32)) (s : LoopState env.fl fl32 env.op dn)
        → All (λ t. IsHarmless t t.received) ts
        → KeptIn s
        → KeptIn (rounds env fl32 dn ts s).1
    unfolding rounds
    rounds_keep [] s h v = v
    rounds_keep (t ∷ ts) s h v =
        let done = round env fl32 dn t s in
        let rest = rounds env fl32 dn ts done.1 in
        elim (Bool-cases t.running) [
          | inl runs ↦ rw runs (
              go_on_keeps done.0 rest.0 rest.1 done.1
                (rounds_keep ts done.1 h.1 (round_keeps t s h.0 v)) (round_keeps t s h.0 v))
          | inr stopped ↦ rw stopped v
        ]
