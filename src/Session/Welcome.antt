-- ===== src/Session/Welcome.antt =====
-- A JOIN on its way from a new joiner to the host, and the host's answer on its way back.
pub mod Joined
use voicechat.Base.{
  ℕ, ◌+◌, ◌<◌, ◌≤◌, List, ◌∷◌, [], ◌++◌, ◌≡◌, refl, sym, ap, ◌∙◌, Result, ok, some, none, true,
  false, Bool, ◌==◌, arith, length, All, IsByte, IsArray, leb,
}
use mathlib.Core.List.{append-nil}
use native.Mathlib.Decide.{ℕ_discrete}
use voicechat.Base.Floats.{Float64}
use voicechat.Base.Table
use voicechat.Codec.{Opus}
use voicechat.Net.Addr.{SocketAddr, SocketAddr-discrete}
use voicechat.Net.Header.{PacketHeader, IsHeader, pkt_join, pkt_peer_list}
use voicechat.Net.Header
use voicechat.Net.Join.{JoinPayload}
use voicechat.Net.Join
use voicechat.Net.PeerList.{PeerListPayload, PeerEntry}
use voicechat.Net.PeerList
use voicechat.Net.PeerList.RoundTrip.{IsEntry, peer_list_round_trip}
use voicechat.Peer.{
  RemotePeer, PeerManager, connected, get_peer, new_peer, modify_peer, add_peer, add_new,
  allocate_peer_id, entries, all_peer_addrs, build_peer_list, touch,
}
use voicechat.Session.World.{
  Env, World, ◌>>=◌, lift, gets, with_peers, update_peers, send_to, seal, unseal,
}
use voicechat.Session.Handshake.{
  greatest_id, psk_ctx, zero_session, connect, own_addr, send_control, handle_join,
}
use voicechat.Session.Counted.{bind_at}

module _ (fl : Float64) (op : Opus) where
  -- The tables after a new peer was given the next id and was connected.
  unfoldable pub admitted :
      PeerManager fl op → ℕ → SocketAddr → RemotePeer fl op → PeerManager fl op
  admitted pm id addr p = record pm {
    next_peer_id = id + 1;
    peers = pm.peers ++ (id, p) ∷ [];
    addr_to_id = Table.insert SocketAddr-discrete addr id pm.addr_to_id;
  }

  insert_last :
      (id : ℕ) (p : RemotePeer fl op) (f : RemotePeer fl op → RemotePeer fl op)
      (m : List (ℕ × RemotePeer fl op))
      → Table.get ℕ_discrete id m ≡ none
      → Table.modify ℕ_discrete id f (Table.insert ℕ_discrete id p m) ≡ m ++ (id, f p) ∷ []
  unfolding Table.get Table.modify Table.insert
  insert_last id p f [] new = ground arith
  insert_last id p f ((j, q) ∷ m) new = ground (arith, insert_last id p f m)

  pub entries_last :
      (id : ℕ) (p : RemotePeer fl op) (m : List (ℕ × RemotePeer fl op))
      → entries fl op (λ q. true) (m ++ (id, p) ∷ [])
        ≡ entries fl op (λ q. true) m ++ (p.id, p.addr) ∷ []
  unfolding entries
  entries_last id p [] = refl
  entries_last id p ((j, q) ∷ m) = ap (λ es. (q.id, q.addr) ∷ es) (entries_last id p m)

  pub length-entries :
      (m : List (ℕ × RemotePeer fl op)) → length (entries fl op (λ q. true) m) ≡ length m
  unfolding entries
  length-entries [] = refl
  length-entries ((j, q) ∷ m) = omega (arith, length-entries m)

pub greatest_last :
    (es : List PeerEntry) (id : ℕ) (addr : SocketAddr)
    → All (λ (e : PeerEntry). e.0 < id) es
    → greatest_id (es ++ (id, addr) ∷ []) ≡ some id
unfolding greatest_id
greatest_last [] id addr h = refl
greatest_last ((i, a) ∷ es) id addr h = ground (arith, greatest_last es id addr h.1)

-- A peer that is connected, and was seen now.
abbrev pub connected_now : (env : Env) → RemotePeer env.fl env.op → RemotePeer env.fl env.op
connected_now env p = record p { state = connected; last_seen = env.now }

-- A control packet that can be sealed and that the system takes.
pub control_sent :
    (env : Env) (w : World env) (session_id : List ℕ) (header : PacketHeader)
    (payload wire : List ℕ) (addr : SocketAddr)
    → header.seq_num ≡ 0
    → header.counter ≡ 0
    → seal env (psk_ctx env session_id) header payload ≡ ok wire
    → env.sendable wire addr ≡ true
    → send_control env session_id header.pkt_type header.peer_id payload addr w
      ≡ (ok tt, record w { sent = w.sent ++ (wire, addr) ∷ [] })
unfolding send_control lift send_to
control_sent env w session_id header payload wire addr first zero sealed goes =
    let same : record header { seq_num = 0; counter = 0 } ≡ header = ground arith in
    bind_at _ _ w wire w (
      ap (λ (h : PacketHeader). (seal env (psk_ctx env session_id) h payload, w)) same
      ∙ ap (λ r. (r, w)) sealed)
    ∙ rw goes refl

module _ (env : Env) (w : World env) (id : ℕ) (src_addr : SocketAddr)
    (p : RemotePeer env.fl env.op) where
  -- The session after the joiner was admitted, with what it has sent.
  abbrev pub welcomed : List (List ℕ × SocketAddr) → World env
  welcomed sent = record w {
    peer_mgr = admitted env.fl env.op w.peer_mgr id src_addr (connected_now env p);
    sent = sent;
  }

  abbrev numbered : World env
  numbered = record w { peer_mgr = record w.peer_mgr { next_peer_id = id + 1 } }

  abbrev listed : World env
  listed = record w {
    peer_mgr = record w.peer_mgr {
      next_peer_id = id + 1;
      peers = Table.insert ℕ_discrete id p w.peer_mgr.peers;
      addr_to_id = Table.insert SocketAddr-discrete src_addr id w.peer_mgr.addr_to_id;
    };
  }

  -- The header and the list that answer the JOIN.
  abbrev pub answer_header : PacketHeader
  answer_header = record {
    pkt_type = pkt_peer_list;
    peer_id = w.peer_mgr.local_id;
    seq_num = 0;
    counter = 0;
  }

  abbrev pub answer_list : SocketAddr → PeerListPayload
  answer_list = build_peer_list env.fl env.op (welcomed w.sent).peer_mgr

  module _ (hosts : w.peer_mgr.is_host ≡ true) (next : w.peer_mgr.next_peer_id ≡ id)
      (small : id < 5) (room : length w.peer_mgr.peers < 4)
      (own : (id == w.peer_mgr.local_id) ≡ false)
      (new : get_peer env.fl env.op w.peer_mgr id ≡ none)
      (made : new_peer env.fl env.op env.now id src_addr ≡ ok p) where
    id_given : with_peers (allocate_peer_id env.fl env.op) w ≡ (ok id, numbered)
    unfolding with_peers allocate_peer_id
    id_given = ground arith

    peer_added :
        with_peers (λ pm. add_peer env.fl env.op env.now pm id src_addr) numbered ≡ (ok tt, listed)
    unfolding with_peers add_peer add_new get_peer
    peer_added =
        let fits : leb 4 (length w.peer_mgr.peers) ≡ false = ground arith in
        rw (own, fits, new, made) refl

    peer_connected :
        update_peers (modify_peer env.fl env.op id (connect env)) listed ≡ (ok tt, welcomed w.sent)
    unfolding update_peers modify_peer admitted get_peer connect touch
    peer_connected =
        ap (λ ps. (ok tt, record listed { peer_mgr = record listed.peer_mgr { peers = ps } }))
          (insert_last env.fl env.op id p (connect env) w.peer_mgr.peers new)

    -- The arm for a JOIN that opens and is read.
    pub join_answered :
        (header : PacketHeader) (header_bytes ct plaintext answer : List ℕ) (join : JoinPayload)
        (host_addr : SocketAddr)
        → unseal env (psk_ctx env (zero_session env)) header header_bytes ct ≡ ok plaintext
        → Join.from_bytes plaintext ≡ ok join
        → own_addr env src_addr ≡ ok host_addr
        → seal env
            (psk_ctx env (zero_session env))
            answer_header
            (PeerList.to_bytes (answer_list host_addr))
          ≡ ok answer
        → env.sendable answer src_addr ≡ true
        → handle_join env header header_bytes ct src_addr w
          ≡ (ok tt, welcomed (w.sent ++ (answer, src_addr) ∷ []))
    unfolding handle_join gets lift admitted
    join_answered header header_bytes ct plaintext answer join host_addr opened read named sealed
          goes =
        bind_at _ _ w true w (ap (λ b. (ok b, w)) hosts)
        ∙ bind_at _ _ w plaintext w (ap (λ r. (r, w)) opened)
        ∙ bind_at _ _ w join w (ap (λ r. (r, w)) read)
        ∙ bind_at _ _ w id numbered id_given
        ∙ bind_at _ _ numbered tt listed peer_added
        ∙ bind_at _ _ listed tt (welcomed w.sent) peer_connected
        ∙ bind_at _ _ (welcomed w.sent) host_addr (welcomed w.sent)
            (ap (λ r. (r, welcomed w.sent)) named)
        ∙ bind_at _ _ (welcomed w.sent) _ (welcomed w.sent) refl
        ∙ control_sent env (welcomed w.sent) (zero_session env) answer_header
            (PeerList.to_bytes (answer_list host_addr)) answer src_addr refl refl sealed goes
