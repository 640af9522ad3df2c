-- ===== src/Session/Broadcast.antt =====
-- What `Session::run` of vc-core/src/lib.rs sends for an encoded frame, to all peers.
pub mod Everyone
use voicechat.Base.{
  ℕ, ◌+◌, ◌≤◌, ◌<◌, ◌%◌, List, ◌∷◌, [], ◌++◌, ◌≡◌, ◌≢◌, refl, ap, sym, ◌∙◌, ok, err, panic, Result,
  some, none, Option, true, false, Bool, Bool-cases, if◌then◌else◌, arith, inl, inr, length, All,
  ltb,
}
use mathlib.Core.List.{append-nil, append_assoc}
use native.Mathlib.Decide.{ℕ_discrete}
use voicechat.Base.Table
use voicechat.Base.Table.Behind.{get_behind, modify_behind, still_new}
use voicechat.Base.Bytes.{counter_overflow}
use voicechat.Crypto.Context.{CryptoContext}
use voicechat.Crypto.Context
use voicechat.Net.Addr.{SocketAddr}
use voicechat.Net.Header.{pkt_audio}
use voicechat.Net.PeerList.{PeerEntry}
use voicechat.Peer.{
  RemotePeer, PeerManager, next_seq, is_connected, entries, connected_peers, get_peer, modify_peer,
}
use voicechat.Session.World.{Env, World, M, ◌>>=◌, pure, gets, attempt, update_peers, send_to, seal}
use voicechat.Session.Control.{or_done}
use voicechat.Session.Counted.{bind_at, taken, packet_under, deliver, seal_moved, send_counted_left}
use voicechat.Session.Loop.Survival.{seal_audio_no_panic}
use voicechat.Session.Outgoing.{
  for_each, seal_audio, pair_context, send_audio_by, send_audio_known, broadcast_audio,
}

module _ (env : Env) (opus_data : List ℕ) (local_id : ℕ) (ctx : CryptoContext) where
  abbrev pub Peer : Type 0
  Peer = RemotePeer env.fl env.op

  -- The context of the pair, when there is one and both keys have gone out and come in.
  unfoldable pub agreed : Peer → Option CryptoContext
  agreed p = elim p.peer_crypto [
    | none ↦ none
    | some own ↦ if p.kx_received then (if p.kx_sent then some own else none) else none
  ]

  -- What a connected peer is sent when the shared context has reached a counter: the packets, the counter
  -- afterwards, and the peer afterwards. Under the context of the pair the packet has the counter of that
  -- context, which moves on by one, and costs no shared counter; at the top of `u32` there is no packet.
  unfoldable pub spoken_by : Option CryptoContext → ℕ → Peer → List (List ℕ × SocketAddr) × ℕ × Peer
  spoken_by none n p = (
    packet_under env pkt_audio local_id p.send_seq opus_data ctx p.addr n,
    n + 1,
    record p { send_seq = (p.send_seq + 1) % 65536 },
  )
  spoken_by (some own) n p =
      let numbered = record p { send_seq = (p.send_seq + 1) % 65536 } in
      if ltb (own.send_counter + 1) 4294967296
      then (
        packet_under env pkt_audio local_id p.send_seq opus_data own p.addr own.send_counter,
        n,
        record numbered { peer_crypto = some (record own { send_counter = own.send_counter + 1 }) },
      )
      else ([], n, record numbered { peer_crypto = some own })

  unfoldable pub spoken_to : ℕ → Peer → List (List ℕ × SocketAddr) × ℕ × Peer
  spoken_to n p = if is_connected env.fl env.op p then spoken_by (agreed p) n p else ([], n, p)

  pair_context-agreed : (p : Peer) → pair_context env p ≡ agreed p
  unfolding pair_context agreed
  pair_context-agreed p = ground arith

  -- What the result of reserving a counter makes of the packet and of the peer.
  abbrev by_reserved : ℕ → Peer → Result ℕ × CryptoContext → List (List ℕ × SocketAddr) × ℕ × Peer
  by_reserved n p (reserved, own) = (
    taken env p.addr (elim reserved [
      | ok counter ↦
          seal env own
            (record {
              pkt_type = pkt_audio;
              peer_id = local_id;
              seq_num = p.send_seq;
              counter = counter;
            })
            opus_data
      | err e ↦ err e
      | panic ↦ panic
    ]),
    n,
    record p { send_seq = (p.send_seq + 1) % 65536; peer_crypto = some own },
  )

  next_counter_left :
      (own : CryptoContext)
      → ltb (own.send_counter + 1) 4294967296 ≡ true
      → Context.next_counter own
        ≡ (ok own.send_counter, record own { send_counter = own.send_counter + 1 })
  unfolding Context.next_counter
  next_counter_left own left = rw left refl

  next_counter_top :
      (own : CryptoContext)
      → ltb (own.send_counter + 1) 4294967296 ≡ false
      → Context.next_counter own ≡ (err counter_overflow, own)
  unfolding Context.next_counter
  next_counter_top own top = rw top refl

  by_reserved-spoken_by :
      (own : CryptoContext) (n : ℕ) (p : Peer)
      → by_reserved n p (Context.next_counter own) ≡ spoken_by (some own) n p
  unfolding spoken_by packet_under
  by_reserved-spoken_by own n p = elim (Bool-cases (ltb (own.send_counter + 1) 4294967296)) [
    | inl left ↦
        ap (by_reserved n p) (next_counter_left own left)
        ∙ rw left (
            ap
              (λ r. (
                taken env p.addr r,
                n,
                record p {
                  send_seq = (p.send_seq + 1) % 65536;
                  peer_crypto = some (record own { send_counter = own.send_counter + 1 });
                },
              ))
              (seal_moved env own (own.send_counter + 1) _ opus_data))
    | inr top ↦ ap (by_reserved n p) (next_counter_top own top) ∙ rw top (unfold taken in refl)
  ]

  -- The same of all peers, one after the other.
  unfoldable pub spoken_to_all :
      ℕ → List (ℕ × Peer) → List (List ℕ × SocketAddr) × ℕ × List (ℕ × Peer)
  spoken_to_all n [] = ([], n, [])
  spoken_to_all n ((k, p) ∷ m) =
      let (out, n', p') = spoken_to n p in
      let (outs, last, m') = spoken_to_all n' m in (out ++ outs, last, (k, p') ∷ m')

  module _ (pm : PeerManager env.fl env.op) where
    abbrev pub reached : List (ℕ × Peer) → ℕ → List (List ℕ × SocketAddr) → World env
    reached peers n sent = record {
      peer_mgr = record pm { peers = peers };
      crypto_ctx = record ctx { send_counter = n };
      sent = sent;
    }

    module _ (done m : List (ℕ × Peer)) (n : ℕ) (sent : List (List ℕ × SocketAddr)) where
      -- A change of the peer behind others.
      moved :
          (k : ℕ) (p : Peer) (f : Peer → Peer)
          → Table.get ℕ_discrete k done ≡ none
          → update_peers (modify_peer env.fl env.op k f) (reached (done ++ (k, p) ∷ m) n sent)
            ≡ (ok tt, reached (done ++ (k, f p) ∷ m) n sent)
      unfolding update_peers modify_peer
      moved k p f new = ap (λ ps. (ok tt, reached ps n sent)) (modify_behind k p f done m new)

      sent_by :
          (k : ℕ) (p : Peer) (key : Option CryptoContext)
          → Table.get ℕ_discrete k done ≡ none
          → n + 1 < 4294967296
          → let (out, n', p') = spoken_by key n p in
            send_audio_by env key local_id p.send_seq opus_data
              (k, p.addr)
              (reached (done ++ (k, record p { send_seq = (p.send_seq + 1) % 65536 }) ∷ m) n sent)
            ≡ (ok tt, reached (done ++ (k, p') ∷ m) n' (sent ++ out))
      unfolding send_audio_by spoken_by packet_under seal_audio
      sent_by k p none new left =
          send_counted_left env pkt_audio local_id p.send_seq opus_data p.addr _ left
          ∙ ap
              (λ (r : Result (List ℕ)). (
                ok tt,
                reached (done ++ (k, record p { send_seq = (p.send_seq + 1) % 65536 }) ∷ m) (n + 1)
                    (sent ++ taken env p.addr r),
              ))
              (seal_moved env ctx n _ opus_data)
      sent_by k p (some own) new left =
          bind_at _ _ _ tt _ (moved k _ _ new)
          ∙ deliver env p.addr (seal_audio env own local_id p.send_seq opus_data).0 _
              (seal_audio_no_panic env own local_id p.send_seq opus_data)
          ∙ ap
              (λ (r : List (List ℕ × SocketAddr) × ℕ × Peer).
                (ok tt, reached (done ++ (k, r.2) ∷ m) r.1 (sent ++ r.0)))
              (by_reserved-spoken_by own n p)

      sent_known :
          (k : ℕ) (p : Peer)
          → Table.get ℕ_discrete k done ≡ none
          → n + 1 < 4294967296
          → let (out, n', p') = spoken_by (agreed p) n p in
            send_audio_known env local_id opus_data
              (k, p.addr)
              (some p)
              (reached (done ++ (k, p) ∷ m) n sent)
            ≡ (ok tt, reached (done ++ (k, p') ∷ m) n' (sent ++ out))
      unfolding send_audio_known next_seq
      sent_known k p new left =
          bind_at _ _ _ tt _ (moved k p _ new)
          ∙ ap
              (λ key.
                send_audio_by env key local_id p.send_seq opus_data (k, p.addr)
                  (reached (done ++ (k, record p { send_seq = (p.send_seq + 1) % 65536 }) ∷ m) n
                    sent))
              (pair_context-agreed p)
          ∙ sent_by k p (agreed p) new left

    -- The body of the loop over the connected peers.
    abbrev pub body : PeerEntry → M env (Unit {0})
    body entry =
        gets (λ w. get_peer env.fl env.op w.peer_mgr entry.0)
        >>= send_audio_known env local_id opus_data entry

    one_peer :
        (done m : List (ℕ × Peer)) (n : ℕ) (sent : List (List ℕ × SocketAddr)) (k : ℕ) (p : Peer)
        → k ≡ p.id
        → Table.get ℕ_discrete k done ≡ none
        → n + 1 < 4294967296
        → let (out, n', p') = spoken_to n p in
          for_each env body
            (entries env.fl env.op (is_connected env.fl env.op) ((k, p) ∷ m))
            (reached (done ++ (k, p) ∷ m) n sent)
          ≡ for_each env body
              (entries env.fl env.op (is_connected env.fl env.op) m)
              (reached (done ++ (k, p') ∷ m) n' (sent ++ out))
    unfolding for_each entries spoken_to gets get_peer
    one_peer done m n sent k p own new left = elim (Bool-cases (is_connected env.fl env.op p)) [
      | inl on ↦ rw on (
          ap
            (λ i.
              for_each env body ((i, p.addr) ∷ entries env.fl env.op (is_connected env.fl env.op) m)
                (reached (done ++ (k, p) ∷ m) n sent))
            (sym own)
          ∙ bind_at _ _ _ tt _ (
              bind_at _ _ _ _ _ refl
              ∙ ap
                  (λ o.
                    send_audio_known env local_id opus_data (k, p.addr) o
                      (reached (done ++ (k, p) ∷ m) n sent))
                  (get_behind k p done m new)
              ∙ sent_known done m n sent k p new left))
      | inr off ↦ rw (off, append-nil) refl
    ]

  by_bound : (key : Option CryptoContext) (n : ℕ) (p : Peer) → (spoken_by key n p).1 ≤ n + 1
  unfolding spoken_by
  by_bound none n p = omega arith
  by_bound (some own) n p = ground arith

  spoken_to_bound : (n : ℕ) (p : Peer) → (spoken_to n p).1 ≤ n + 1
  unfolding spoken_to
  spoken_to_bound n p = ground (arith, by_bound (agreed p) n p)

  module _ (pm : PeerManager env.fl env.op) where
    pub every_peer_sent :
        (m done : List (ℕ × Peer)) (n : ℕ) (sent : List (List ℕ × SocketAddr))
        → All (λ (e : ℕ × Peer). e.0 ≡ e.1.id) m
        → Table.IsMap ℕ_discrete m
        → All (λ (e : ℕ × Peer). Table.get ℕ_discrete e.0 done ≡ none) m
        → n + length m < 4294967296
        → let (outs, last, m') = spoken_to_all n m in
          for_each env
            (body pm)
            (entries env.fl env.op (is_connected env.fl env.op) m)
            (reached pm (done ++ m) n sent)
          ≡ (ok tt, reached pm (done ++ m') last (sent ++ outs))
    unfolding for_each entries spoken_to_all pure
    every_peer_sent [] done n sent own map new left =
        ap (λ out. (ok tt, reached pm (done ++ []) n out)) (sym (append-nil sent))
    every_peer_sent ((k, p) ∷ m) done n sent own map new left =
        let (out, n', p') = spoken_to n p in
        let (outs, last, m') = spoken_to_all n' m in
        one_peer pm done m n sent k p own.0 new.0 (omega arith)
        ∙ ap
            (λ ps.
              for_each env (body pm) (entries env.fl env.op (is_connected env.fl env.op) m)
                (reached pm ps n' (sent ++ out)))
            (sym (append_assoc done ((k, p') ∷ []) m))
        ∙ every_peer_sent m (done ++ (k, p') ∷ []) n' (sent ++ out) own.1 map.1
            (still_new k p' done m map.0 new.1) (omega (arith, spoken_to_bound n p))
        ∙ ap (λ ps. (ok tt, reached pm ps last ((sent ++ out) ++ outs)))
            (append_assoc done ((k, p') ∷ []) m')
        ∙ ap (λ all. (ok tt, reached pm (done ++ (k, p') ∷ m') last all))
            (append_assoc sent out outs)
