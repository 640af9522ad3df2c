-- ===== src/Peer/Validity.antt =====
-- The two tables of the peer manager stay within their size and fit together.
use voicechat.Base.{
  ℕ, ◌-◌, ◌≤◌, ◌<◌, List, ◌≡◌, refl, sym, ap, ◌∙◌, Result, ok, err, panic, length, some, none, leb,
  ◌==◌, Bool-cases, Option-cases, arith, inl, inr,
}
use mathlib.Core.Logic.{if_pos, if_neg}
use native.Mathlib.Decide.{ℕ_discrete}
use voicechat.Base.Floats.{Float64}
use voicechat.Base.Table
use voicechat.Codec.{Opus}
use voicechat.Net.Addr.{SocketAddr, SocketAddr-discrete}
use voicechat.Peer.{
  max_peers, RemotePeer, PeerManager, new_peer, new_host, new_joiner, get_peer, peer_by_addr,
  modify_peer, add_new, move_peer, add_peer, expire, check_timeouts,
}

module _ (fl : Float64) (op : Opus) where
  -- At most four peers; each is filed under its own id; and an address leads to a peer that has it.
  pub record IsValid (pm : PeerManager fl op) : Type 0 where
    pub keyed : Table.IsMap ℕ_discrete pm.peers
    pub addr_keyed : Table.IsMap SocketAddr-discrete pm.addr_to_id
    pub capacity : length pm.peers ≤ max_peers - 1
    pub own_id : (i : ℕ) (p : RemotePeer fl op) → get_peer fl op pm i ≡ some p → p.id ≡ i
    pub routed :
        (a : SocketAddr) (i : ℕ)
        → peer_by_addr fl op pm a ≡ some i
        → (p : RemotePeer fl op) × (get_peer fl op pm i ≡ some p) × (p.addr ≡ a)

  pub new_host-IsValid : (session_id : List ℕ) → IsValid (new_host fl op session_id)
  unfolding new_host get_peer peer_by_addr
  new_host-IsValid session_id = record {
    keyed = tt;
    addr_keyed = tt;
    capacity = omega arith;
    own_id = λ i p h. unfold Table.get in cc;
    routed = λ a i h. unfold Table.get in cc;
  }

  pub new_joiner-IsValid : IsValid (new_joiner fl op)
  unfolding new_joiner get_peer peer_by_addr
  new_joiner-IsValid = record {
    keyed = tt;
    addr_keyed = tt;
    capacity = omega arith;
    own_id = λ i p h. unfold Table.get in cc;
    routed = λ a i h. unfold Table.get in cc;
  }

  pub expire_keeps :
      (now : ℕ) (p : RemotePeer fl op)
      → ((expire fl op now p).id ≡ p.id) × ((expire fl op now p).addr ≡ p.addr)
  unfolding expire
  expire_keeps now p = ground arith

  subst_get :
      {i j : ℕ} (m : List (ℕ × RemotePeer fl op))
      → i ≡ j
      → Table.get ℕ_discrete j m ≡ Table.get ℕ_discrete i m
  subst_get m e = ap (λ k. Table.get ℕ_discrete k m) (sym e)

  module _ (pm : PeerManager fl op) (v : IsValid pm) where
    -- What a handler does to a peer keeps the tables valid if it keeps its id and its address.
    pub modify_peer-IsValid :
        (id : ℕ) (f : RemotePeer fl op → RemotePeer fl op)
        → ((p : RemotePeer fl op) → (f p).id ≡ p.id)
        → ((p : RemotePeer fl op) → (f p).addr ≡ p.addr)
        → IsValid (modify_peer fl op id f pm)
    unfolding modify_peer get_peer peer_by_addr
    modify_peer-IsValid id f same_id same_addr = record {
      keyed = Table.modify-IsMap ℕ_discrete id f pm.peers v.keyed;
      addr_keyed = v.addr_keyed;
      capacity = omega (arith, v.capacity, Table.length-modify ℕ_discrete id f pm.peers);
      own_id = λ i p h. elim (Option-cases (Table.get ℕ_discrete i pm.peers)) [
        | inl absent ↦ absurd (ground (arith, Table.get-modify ℕ_discrete id i f pm.peers))
        | inr (q, e) ↦
            ground (arith, Table.get-modify ℕ_discrete id i f pm.peers, same_id q, v.own_id i q e)
      ];
      routed = λ a i h.
          let (q, e, at) = v.routed a i h in
          let found = Table.get-modify ℕ_discrete id i f pm.peers in
          elim (ℕ_discrete id i) [
            | yes same ↦ (f q, ground (arith, found), same_addr q ∙ at)
            | no other ↦ (q, ground (arith, found), at)
          ];
    }

    add_new-IsValid :
        (id : ℕ) (addr : SocketAddr) (p : RemotePeer fl op)
        → length pm.peers < 4
        → get_peer fl op pm id ≡ none
        → p.id ≡ id
        → p.addr ≡ addr
        → IsValid (add_new fl op pm id addr (ok p)).1
    unfolding add_new get_peer peer_by_addr
    add_new-IsValid id addr p room vacant own at = record {
      keyed = Table.insert-IsMap ℕ_discrete id p pm.peers v.keyed;
      addr_keyed = Table.insert-IsMap SocketAddr-discrete addr id pm.addr_to_id v.addr_keyed;
      capacity = ground (arith, Table.length-insert ℕ_discrete id p pm.peers);
      own_id = λ i q h. ground (arith, Table.get-insert ℕ_discrete id i p pm.peers, v.own_id i q);
      routed = λ a i h.
          let route = Table.get-insert SocketAddr-discrete addr a id pm.addr_to_id in
          let found = Table.get-insert ℕ_discrete id i p pm.peers in
          elim (SocketAddr-discrete addr a) [
            | yes here ↦ (p, ground (arith, route, found), at ∙ here)
            | no there ↦
                let (q, e, at') = v.routed a i (ground (arith, route)) in
                (q, ground (arith, found), at')
          ];
    }

    move_peer-IsValid :
        (id : ℕ) (addr : SocketAddr) (p : RemotePeer fl op)
        → get_peer fl op pm id ≡ some p
        → IsValid (move_peer fl op pm id p.addr addr)
    unfolding move_peer get_peer peer_by_addr
    move_peer-IsValid id addr p known = elim (SocketAddr-discrete p.addr addr) [
      | yes same ↦ rw (if_pos _ same) v
      | no moved ↦
          let place : RemotePeer fl op → RemotePeer fl op = λ q. record q { addr = addr } in
          let left = Table.remove SocketAddr-discrete p.addr pm.addr_to_id in
          rw (if_neg _ moved) (record {
            keyed = Table.modify-IsMap ℕ_discrete id place pm.peers v.keyed;
            addr_keyed =
                Table.insert-IsMap SocketAddr-discrete addr id left
                  (Table.remove-IsMap SocketAddr-discrete p.addr pm.addr_to_id v.addr_keyed);
            capacity = omega (arith, v.capacity, Table.length-modify ℕ_discrete id place pm.peers);
            own_id = λ i q h. elim (Option-cases (Table.get ℕ_discrete i pm.peers)) [
              | inl absent ↦
                  absurd (ground (arith, Table.get-modify ℕ_discrete id i place pm.peers))
              | inr (r, e) ↦
                  ground (arith, Table.get-modify ℕ_discrete id i place pm.peers, v.own_id i r e)
            ];
            routed = λ a i h.
                let route = Table.get-insert SocketAddr-discrete addr a id left in
                let before =
                  Table.get-remove SocketAddr-discrete p.addr a pm.addr_to_id v.addr_keyed in
                let found = Table.get-modify ℕ_discrete id i place pm.peers in
                elim (SocketAddr-discrete addr a) [
                  | yes here ↦ (place p, ground (arith, route, found), here)
                  | no there ↦ elim (SocketAddr-discrete p.addr a) [
                    | yes gone ↦ absurd (ground (arith, route, before))
                    | no kept ↦
                        let (q, e, at) = v.routed a i (ground (arith, route, before)) in
                        elim (ℕ_discrete id i) [
                          | yes same ↦
                              let one : some q ≡ some p = sym e ∙ subst_get pm.peers same ∙ known in
                              absurd (kept (cc (one, at)))
                          | no other ↦ (q, ground (arith, found), at)
                        ]
                  ]
                ];
          })
    ]

    add_new-new_peer-IsValid :
        (now id : ℕ) (addr : SocketAddr) (r : Result (RemotePeer fl op))
        → new_peer fl op now id addr ≡ r
        → length pm.peers < 4
        → get_peer fl op pm id ≡ none
        → IsValid (add_new fl op pm id addr r).1
    unfolding new_peer
    add_new-new_peer-IsValid now id addr (ok p) e room vacant =
        add_new-IsValid id addr p room vacant (ground arith) (ground arith)
    add_new-new_peer-IsValid now id addr (err x) e room vacant = unfold add_new in v
    add_new-new_peer-IsValid now id addr panic e room vacant = unfold add_new in v

    pub add_peer-IsValid :
        (now id : ℕ) (addr : SocketAddr) → IsValid (add_peer fl op now pm id addr).1
    unfolding add_peer
    add_peer-IsValid now id addr = elim (Bool-cases (id == pm.local_id)) [
      | inl self ↦ rw self v
      | inr other ↦ elim (Bool-cases (leb (max_peers - 1) (length pm.peers))) [
        | inl full ↦ rw (other, full) v
        | inr room ↦ elim (Option-cases (get_peer fl op pm id)) [
          | inl vacant ↦
              rw (other, room, vacant, add_peer)
                (add_new-new_peer-IsValid now id addr (new_peer fl op now id addr) refl
                  (ground arith) vacant)
          | inr (p, known) ↦ rw (other, room, known, add_peer) (move_peer-IsValid id addr p known)
        ]
      ]
    ]

    -- A change of every peer that keeps ids and addresses.
    pub map_values-IsValid :
        (f : RemotePeer fl op → RemotePeer fl op)
        → ((p : RemotePeer fl op) → ((f p).id ≡ p.id) × ((f p).addr ≡ p.addr))
        → IsValid (record pm { peers = Table.map_values ℕ_discrete f pm.peers })
    unfolding get_peer peer_by_addr
    map_values-IsValid f same = record {
      keyed = Table.map_values-IsMap ℕ_discrete f pm.peers v.keyed;
      addr_keyed = v.addr_keyed;
      capacity = omega (arith, v.capacity, Table.length-map_values ℕ_discrete f pm.peers);
      own_id = λ i p h. elim (Option-cases (Table.get ℕ_discrete i pm.peers)) [
        | inl absent ↦ absurd (ground (arith, Table.get-map_values ℕ_discrete i f pm.peers))
        | inr (q, e) ↦
            ground (arith, Table.get-map_values ℕ_discrete i f pm.peers, same q, v.own_id i q e)
      ];
      routed = λ a i h.
          let (q, e, at) = v.routed a i h in
          (f q, ground (arith, Table.get-map_values ℕ_discrete i f pm.peers), (same q).1 ∙ at);
    }

    pub check_timeouts-IsValid : (now : ℕ) → IsValid (check_timeouts fl op now pm)
    unfolding check_timeouts
    check_timeouts-IsValid now = map_values-IsValid (expire fl op now) (expire_keeps now)

  -- The fields that the tables depend on decide their validity.
  pub same_tables :
      (pm qm : PeerManager fl op)
      → qm.peers ≡ pm.peers
      → qm.addr_to_id ≡ pm.addr_to_id
      → IsValid pm
      → IsValid qm
  unfolding get_peer peer_by_addr
  same_tables pm qm e r v = record {
    keyed = rw e v.keyed;
    addr_keyed = rw r v.addr_keyed;
    capacity = rw e v.capacity;
    own_id = λ i p h. v.own_id i p (rw e at h);
    routed = λ a i h. rw e (v.routed a i (rw r at h));
  }
