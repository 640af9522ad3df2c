-- ===== src/Session/Welcome/Joined.antt =====
-- The whole exchange of a JOIN and a PEER_LIST between a joiner and its host.
use voicechat.Base.{
  ℕ, ◌<◌, List, ◌∷◌, [], ◌++◌, ◌≡◌, refl, sym, ap, ◌∙◌, ok, some, none, true, false, ◌==◌, arith,
  length, length-append, All, IsU16, IsArray,
}
use mathlib.Core.List.{append-nil}
use voicechat.Crypto.Aead.{Opens}
use voicechat.Crypto.Context
use voicechat.Session.Start.{send_join_to}
use voicechat.Net.Addr
use voicechat.Net.Addr.{SocketAddr}
use voicechat.Net.Header.{PacketHeader, IsHeader, pkt_join}
use voicechat.Net.Header
use voicechat.Net.Join.{JoinPayload, join_round_trip}
use voicechat.Net.Join
use voicechat.Net.PeerList.{PeerEntry, PeerListPayload}
use voicechat.Net.PeerList
use voicechat.Net.PeerList.RoundTrip.{IsEntry, peer_list_round_trip}
use voicechat.Peer.{RemotePeer, get_peer, new_peer, entries, all_peer_addrs, build_peer_list}
use voicechat.Session.World.{Env, World, seal}
use voicechat.Session.Handshake.{greatest_id, psk_ctx, zero_session, own_addr}
use voicechat.Session.Incoming.{dispatch, handle_incoming}
use voicechat.Session.Delivery.{sealed_arrives}
use voicechat.Session.Joining.{peer_list_adopted}
use voicechat.Session.Welcome.{
  admitted, entries_last, length-entries, greatest_last, welcomed, answer_header, answer_list,
  join_answered, control_sent, connected_now,
}

append-All :
    (P : PeerEntry → Type 0) (es : List PeerEntry) (e : PeerEntry)
    → All P es
    → P e
    → All P (es ++ e ∷ [])
append-All P [] e h he = (he, tt)
append-All P (d ∷ es) e h he = (h.0, append-All P es e h.1 he)

-- The header of a JOIN.
abbrev pub join_header : PacketHeader
join_header = record { pkt_type = pkt_join; peer_id = 0; seq_num = 0; counter = 0 }

join_header-IsHeader : IsHeader join_header
join_header-IsHeader = record {
  pkt_type_range = omega arith;
  peer_id_range = omega arith;
  seq_num_range = omega arith;
  counter_range = omega arith;
}

-- The peers that a host knows, itself first.
abbrev pub all_known : (env : Env) → World env → SocketAddr → List PeerEntry
all_known env w host_addr =
    (w.peer_mgr.local_id, host_addr) ∷ all_peer_addrs env.fl env.op w.peer_mgr

module _ (env : Env) (w : World env) (id : ℕ) (src_addr host_addr : SocketAddr)
    (p : RemotePeer env.fl env.op) (made : new_peer env.fl env.op env.now id src_addr ≡ ok p) where
  made_for : (p.id ≡ id) × (p.addr ≡ src_addr)
  unfolding new_peer
  made_for = ground arith

  answer_peers :
      (answer_list env w id src_addr p host_addr).peers
      ≡ (all_known env w host_addr) ++ (id, src_addr) ∷ []
  unfolding build_peer_list all_peer_addrs admitted
  answer_peers =
      let known = entries env.fl env.op (λ q. true) w.peer_mgr.peers in
      let entry : (p.id, p.addr) ≡ (id, src_addr) = ground (arith, made_for) in
      ap (λ es. (w.peer_mgr.local_id, host_addr) ∷ es)
        (entries_last env.fl env.op id (connected_now env p) w.peer_mgr.peers
          ∙ ap (λ e. known ++ e ∷ []) entry)

  answer_session : (answer_list env w id src_addr p host_addr).session_id ≡ w.peer_mgr.session_id
  unfolding build_peer_list admitted
  answer_session = refl

  module _ (valid : All IsEntry (all_known env w host_addr)) (plain : IsEntry (id, src_addr))
      (salt : IsArray 8 w.peer_mgr.session_id) (room : length w.peer_mgr.peers < 4) where
    answer_read :
        PeerList.from_bytes (PeerList.to_bytes (answer_list env w id src_addr p host_addr))
        ≡ ok (answer_list env w id src_addr p host_addr)
    unfolding all_peer_addrs
    answer_read =
        let l = answer_list env w id src_addr p host_addr in
        let count : length l.peers < 256 = omega (
          arith,
          ap (λ (es : List PeerEntry). length es) answer_peers,
          length-append {0} (all_known env w host_addr) ((id, src_addr) ∷ []),
          length-entries env.fl env.op w.peer_mgr.peers,
        ) in
        ap PeerList.from_bytes (sym (append-nil (PeerList.to_bytes l)))
        ∙ peer_list_round_trip l [] (rw answer_session salt) count (
            rw answer_peers
              (append-All IsEntry (all_known env w host_addr) (id, src_addr) valid plain))

  answer_greatest :
      All (λ (e : PeerEntry). e.0 < id) (all_known env w host_addr)
      → greatest_id (answer_list env w id src_addr p host_addr).peers ≡ some id
  answer_greatest below =
      ap greatest_id answer_peers ∙ greatest_last (all_known env w host_addr) id src_addr below

answer_header-IsHeader :
    (env : Env) (w : World env) (id : ℕ) (src_addr host_addr : SocketAddr)
    (p : RemotePeer env.fl env.op)
    → All IsEntry (all_known env w host_addr)
    → IsHeader (answer_header env w id src_addr p)
answer_header-IsHeader env w id src_addr host_addr p valid = record {
  pkt_type_range = omega arith;
  peer_id_range = omega arith;
  seq_num_range = omega arith;
  counter_range = omega arith;
}

module _ (host joiner : Env) (same_cipher : joiner.aead ≡ host.aead)
    (same_key : joiner.key ≡ host.key) (opens : Opens host.aead) (w : World host) (v : World joiner)
    (id : ℕ) (p : RemotePeer host.fl host.op)
    (src_addr host_addr reach bind_addr reply_addr : SocketAddr) (request answer : List ℕ) where
  -- The payload of the joiner's request, and the joiner when it was sent.
  abbrev join : JoinPayload
  join = record { listen_port = Addr.port bind_addr }

  abbrev asking : World joiner
  asking = record v { sent = v.sent ++ (request, reach) ∷ [] }

  -- A new peer joins. The JOIN that it sends when it starts is one packet, to the host's address. A host
  -- of the same passphrase with room for a peer and for an id, where all ids that it lists are smaller
  -- and which knows its own address, handles this packet: the joiner is in its tables under the next
  -- id, connected, at the address the packet came from, and one packet is sent, to that address. The
  -- joiner who handles that packet takes that id, the session of the host, and a new shared context of
  -- this session.
  pub joined :
      seal joiner (psk_ctx joiner (zero_session joiner)) join_header (Join.to_bytes join)
        ≡ ok request
      → seal host
          (psk_ctx host (zero_session host))
          (answer_header host w id src_addr p)
          (PeerList.to_bytes (answer_list host w id src_addr p host_addr))
        ≡ ok answer
      → IsU16 join.listen_port
      → joiner.sendable request reach ≡ true
      → w.peer_mgr.is_host ≡ true
      → w.peer_mgr.next_peer_id ≡ id
      → id < 5
      → length w.peer_mgr.peers < 4
      → get_peer host.fl host.op w.peer_mgr id ≡ none
      → new_peer host.fl host.op host.now id src_addr ≡ ok p
      → own_addr host src_addr ≡ ok host_addr
      → host.sendable answer src_addr ≡ true
      → IsArray 8 w.peer_mgr.session_id
      → All IsEntry (all_known host w host_addr)
      → IsEntry (id, src_addr)
      → All (λ (e : PeerEntry). e.0 < id) (all_known host w host_addr)
      → let after = (handle_incoming joiner answer reply_addr asking).1 in
        (send_join_to joiner bind_addr (some reach) v ≡ (ok tt, asking))
        × (handle_incoming host request src_addr w
            ≡ (ok tt, welcomed host w id src_addr p (w.sent ++ (answer, src_addr) ∷ [])))
        × (after.peer_mgr.local_id ≡ id)
        × (after.peer_mgr.session_id ≡ w.peer_mgr.session_id)
        × (after.crypto_ctx ≡ Context.new joiner.key w.peer_mgr.session_id)
  unfolding dispatch psk_ctx Context.new send_join_to
  joined asked answered port leaves hosts next small room new made named goes salt valid plain
        below =
      let (ct, arrives, opened) =
        sealed_arrives joiner host (sym same_cipher) (rw same_cipher opens)
          (psk_ctx joiner (zero_session joiner)) join_header join_header-IsHeader
          (Join.to_bytes join) request asked in
      let read =
        ap Join.from_bytes (sym (append-nil (Join.to_bytes join))) ∙ join_round_trip join [] port in
      let other : (id == w.peer_mgr.local_id) ≡ false = ground (arith, below.0) in
      let adopted =
        peer_list_adopted host joiner same_cipher opens (psk_ctx host (zero_session host))
          (answer_header host w id src_addr p)
          (answer_header-IsHeader host w id src_addr host_addr p valid)
          (PeerList.to_bytes (answer_list host w id src_addr p host_addr)) answer answered
          reply_addr asking (answer_list host w id src_addr p host_addr) id refl (sym same_key) refl
          (answer_read host w id src_addr host_addr p made valid plain salt room)
          (answer_greatest host w id src_addr host_addr p made below) in
      let session = answer_session host w id src_addr host_addr p made in
      (
        control_sent joiner v (zero_session joiner) join_header (Join.to_bytes join) request reach
            refl refl asked leaves,
        arrives src_addr w
            ∙ join_answered host w id src_addr p hosts next small room other new made join_header
                (Header.to_bytes join_header) ct (Join.to_bytes join) answer join host_addr
                (opened (psk_ctx host (zero_session host)) same_key refl) read named answered goes,
        adopted.0,
        adopted.1 ∙ session,
        adopted.2 ∙ ap (Context.new joiner.key) session,
      )
