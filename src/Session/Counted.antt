-- ===== src/Session/Counted.antt =====
-- The packets that the loop seals under counters of the shared context.
use voicechat.Base.{
  ℕ, ◌+◌, ◌<◌, List, ◌∷◌, [], ◌++◌, ◌≡◌, refl, ap, sym, ◌∙◌, ok, err, panic, Result, Bool-cases,
  true, false, arith, inl, inr, if◌then◌else◌, length, ltb,
}
use mathlib.Core.List.{append-nil, append_assoc}
use voicechat.Crypto.Context.{CryptoContext}
use voicechat.Crypto.Context
use voicechat.Net.Addr.{SocketAddr}
use voicechat.Net.Header.{PacketHeader, pkt_keepalive}
use voicechat.Net.PeerList.{PeerEntry}
use voicechat.Peer.{PeerManager, connected_peers, check_timeouts}
use voicechat.Session.World.{
  Env, World, M, ◌>>=◌, pure, gets, attempt, attempted, send_to, seal, update_peers,
}
use voicechat.Session.Control.{reserve_counter, tried, or_done}
use voicechat.Session.Succeeds.{is_panic, seal_no_panic}
use voicechat.Session.Outgoing.{for_each, send_counted, keepalive}

-- A step that returns a value, before another.
pub bind_at :
    {env : Env} {A B : Type 0} (m : M env A) (f : A → M env B) (w : World env) (a : A)
    (w' : World env)
    → m w ≡ (ok a, w')
    → (m >>= f) w ≡ f a w'
unfolding ◌>>=◌
bind_at m f w a w' e = rw e refl

module _ (env : Env) where
  -- A sealed packet that the system takes.
  unfoldable pub taken : SocketAddr → Result (List ℕ) → List (List ℕ × SocketAddr)
  taken addr (ok wire) = if env.sendable wire addr then (wire, addr) ∷ [] else []
  taken addr (err e) = []
  taken addr panic = []

  module _ (pkt_type local_id seq : ℕ) (payload : List ℕ) where
    -- The packet of a counter, if it can be sealed and the system takes it.
    unfoldable pub packet_under : CryptoContext → SocketAddr → ℕ → List (List ℕ × SocketAddr)
    packet_under ctx addr counter = taken addr (
        seal env ctx
          (record { pkt_type = pkt_type; peer_id = local_id; seq_num = seq; counter = counter })
          payload)

  pub deliver :
      (addr : SocketAddr) (r : Result (List ℕ)) (w : World env)
      → is_panic r ≡ false
      → or_done env r (λ wire. attempt (send_to env wire addr)) w
        ≡ (ok tt, record w { sent = w.sent ++ taken addr r })
  unfolding or_done taken attempt attempted send_to
  deliver addr (ok wire) w h = elim (Bool-cases (env.sendable wire addr)) [
    | inl goes ↦ rw goes refl
    | inr stays ↦ rw (stays, append-nil) refl
  ]
  deliver addr (err e) w h = unfold pure in rw append-nil refl
  deliver addr panic w h = absurd (ground arith)

  reserve_left :
      (w : World env)
      → w.crypto_ctx.send_counter + 1 < 4294967296
      → let counter = w.crypto_ctx.send_counter in
        reserve_counter env w
        ≡ (ok counter, record w { crypto_ctx = record w.crypto_ctx { send_counter = counter + 1 } })
  unfolding reserve_counter Context.next_counter
  reserve_left w left =
      let fits : ltb (w.crypto_ctx.send_counter + 1) 4294967296 ≡ true = ground arith in
      rw fits refl

  -- Sealing does not read the counter of the context.
  pub seal_moved :
      (ctx : CryptoContext) (n : ℕ) (header : PacketHeader) (payload : List ℕ)
      → seal env (record ctx { send_counter = n }) header payload ≡ seal env ctx header payload
  unfolding seal Context.encrypt
  seal_moved ctx n header payload = refl

  -- `send_counted` with a counter left.
  pub send_counted_left :
      (pkt_type local_id seq : ℕ) (payload : List ℕ) (addr : SocketAddr) (w : World env)
      → w.crypto_ctx.send_counter + 1 < 4294967296
      → let counter = w.crypto_ctx.send_counter in
        send_counted env pkt_type local_id seq payload addr w ≡ (
          ok tt,
          record w {
            crypto_ctx = record w.crypto_ctx { send_counter = counter + 1 };
            sent = w.sent ++ packet_under pkt_type local_id seq payload w.crypto_ctx addr counter;
          },
        )
  unfolding send_counted gets tried or_done packet_under
  send_counted_left pkt_type local_id seq payload addr w left =
      bind_at _ _ w _ _ (ap (λ (r : Result ℕ × World env). (ok r.0, r.1)) (reserve_left w left))
      ∙ bind_at _ _ _ _ _ refl
      ∙ deliver addr _ _ (seal_no_panic env _ _ payload)
      ∙ ap
          (λ (r : Result (List ℕ)). (
            ok tt,
            record w {
              crypto_ctx = record w.crypto_ctx { send_counter = w.crypto_ctx.send_counter + 1 };
              sent = w.sent ++ taken addr r;
            },
          ))
          (seal_moved w.crypto_ctx (w.crypto_ctx.send_counter + 1) _ payload)

  module _ (pkt_type local_id seq : ℕ) (payload : List ℕ) (ctx : CryptoContext) where
    -- The packets for several addresses, under consecutive counters from `counter` on.
    pub packets_from : ℕ → List PeerEntry → List (List ℕ × SocketAddr)
    packets_from counter [] = []
    packets_from counter (entry ∷ entries) =
        packet_under pkt_type local_id seq payload ctx entry.1 counter
        ++ packets_from (counter + 1) entries

    -- A state whose shared context has reached a counter.
    abbrev at_counter : PeerManager env.fl env.op → ℕ → List (List ℕ × SocketAddr) → World env
    at_counter pm n sent = record {
      peer_mgr = pm;
      crypto_ctx = record ctx { send_counter = n };
      sent = sent;
    }

    send_at_counter :
        (pm : PeerManager env.fl env.op) (n : ℕ) (sent : List (List ℕ × SocketAddr))
        (addr : SocketAddr)
        → n + 1 < 4294967296
        → send_counted env pkt_type local_id seq payload addr (at_counter pm n sent) ≡ (
          ok tt,
          at_counter pm (n + 1) (sent ++ packet_under pkt_type local_id seq payload ctx addr n),
        )
    unfolding packet_under
    send_at_counter pm n sent addr left =
        send_counted_left pkt_type local_id seq payload addr (at_counter pm n sent) left
        ∙ ap (λ (r : Result (List ℕ)). (ok tt, at_counter pm (n + 1) (sent ++ taken addr r)))
            (seal_moved ctx n _ payload)

    for_each_counted :
        (pm : PeerManager env.fl env.op) (n : ℕ) (sent : List (List ℕ × SocketAddr))
        (entries : List PeerEntry)
        → n + length entries < 4294967296
        → for_each env
            (λ (entry : PeerEntry). send_counted env pkt_type local_id seq payload entry.1)
            entries
            (at_counter pm n sent)
          ≡ (ok tt, at_counter pm (n + length entries) (sent ++ packets_from n entries))
    unfolding for_each pure packets_from
    for_each_counted pm n sent [] left =
        let same : n ≡ n + 0 = omega arith in
        ap (λ m. (ok tt, at_counter pm m sent)) same
        ∙ ap (λ ps. (ok tt, at_counter pm (n + 0) ps)) (sym (append-nil sent))
    for_each_counted pm n sent (entry ∷ entries) left =
        let first = packet_under pkt_type local_id seq payload ctx entry.1 n in
        let count : n + 1 + length entries ≡ n + length (entry ∷ entries) = omega arith in
        bind_at _ _ _ _ _ (send_at_counter pm n sent entry.1 (omega arith))
        ∙ for_each_counted pm (n + 1) (sent ++ first) entries (omega arith)
        ∙ ap (λ m. (ok tt, at_counter pm m ((sent ++ first) ++ packets_from (n + 1) entries))) count
        ∙ ap (λ ps. (ok tt, at_counter pm (n + length (entry ∷ entries)) ps))
            (append_assoc sent first (packets_from (n + 1) entries))

  -- The keepalive block, while counters are left: every connected peer in its turn is sent an empty
  -- keepalive, each under the next counter of the shared context; a packet that cannot be sealed or sent
  -- costs its counter and nothing else; and then the timeouts are checked.
  pub keepalive_lem :
      (w : World env)
      → let connected = connected_peers env.fl env.op w.peer_mgr in
        let counter = w.crypto_ctx.send_counter in
        counter + length connected < 4294967296
        → keepalive env w ≡ (
          ok tt,
          record {
            peer_mgr = check_timeouts env.fl env.op env.now w.peer_mgr;
            crypto_ctx = record w.crypto_ctx { send_counter = counter + length connected };
            sent =
                w.sent
                ++ packets_from pkt_keepalive w.peer_mgr.local_id 0 [] w.crypto_ctx counter
                    connected;
          },
        )
  unfolding keepalive gets update_peers
  keepalive_lem w left =
      bind_at _ _ w _ w refl
      ∙ bind_at _ _ w _ w refl
      ∙ bind_at _ _ w _ _ (
          for_each_counted pkt_keepalive w.peer_mgr.local_id 0 [] w.crypto_ctx w.peer_mgr
            w.crypto_ctx.send_counter w.sent (connected_peers env.fl env.op w.peer_mgr) left)
