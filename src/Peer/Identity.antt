-- ===== src/Peer/Identity.antt =====
-- What the peer manager hands out and looks up.
use voicechat.Base.{
  ℕ, zero, suc, ◌+◌, ◌-◌, ◌<◌, List, ◌∷◌, [], ◌≡◌, ◌≢◌, refl, Result, ok, err, length, get_elem?,
  some, none, Option, ltb, leb, ◌==◌, Option-cases, if◌then◌else◌, true, false, ◌&&◌, arith, inl,
  inr, panic,
}
use native.Mathlib.Decide.{ℕ_discrete}
use voicechat.Base.Floats.{Float64}
use voicechat.Base.Table
use voicechat.Base.Bytes.{no_peer_ids}
use voicechat.Codec.{Opus}
use voicechat.Net.Addr.{SocketAddr, SocketAddr-discrete}
use voicechat.Peer.{
  max_peers, disconnected, RemotePeer, PeerManager, new_peer, is_connected, is_timed_out, get_peer,
  add_new, move_peer, add_peer, allocate_peer_id, expire, check_timeouts,
}

module _ (fl : Float64) (op : Opus) where
  -- `n` calls of `allocate_peer_id`, one after the other.
  pub allocate_peer_ids : ℕ → PeerManager fl op → List (Result ℕ)
  allocate_peer_ids zero pm = []
  allocate_peer_ids (suc n) pm =
      let (r, pm') = allocate_peer_id fl op pm in r ∷ allocate_peer_ids n pm'

  -- Of any number of calls on a host, the `i`-th hands out the next id plus `i` while that is below
  -- 5, and fails from then on: no id is handed out twice.
  pub allocate_peer_ids_lem :
      (n i : ℕ) (pm : PeerManager fl op)
      → i < n
      → pm.is_host ≡ true
      → get_elem? (allocate_peer_ids n pm) i
        ≡ some (if ltb (pm.next_peer_id + i) 5 then ok (pm.next_peer_id + i) else err no_peer_ids)
  unfolding allocate_peer_ids allocate_peer_id
  allocate_peer_ids_lem zero i pm h host = elim h [ ]
  allocate_peer_ids_lem (suc n) zero pm h host = ground arith
  allocate_peer_ids_lem (suc n) (suc i) pm h host =
      ground (arith, allocate_peer_ids_lem n i (allocate_peer_id fl op pm).1)

  -- A check for timeouts changes the peer with id `i` only in its state, and that only from connected to
  -- disconnected, when it was last seen more than ten seconds ago; it adds and drops no peer.
  get_peer-check_timeouts :
      (now i : ℕ) (pm : PeerManager fl op)
      → get_peer fl op (check_timeouts fl op now pm) i ≡ elim (get_peer fl op pm i) [
        | none ↦ none
        | some p ↦ some (
            if is_connected fl op p && ltb 10000000000 (now - p.last_seen)
            then record p { state = disconnected }
            else p)
      ]
  unfolding check_timeouts get_peer expire is_timed_out
  get_peer-check_timeouts now i pm =
      ground (arith, Table.get-map_values ℕ_discrete i (expire fl op now) pm.peers)

  -- What `add_peer` files under an id: a peer already there at its new address, or else a new peer.
  pub placed : SocketAddr → RemotePeer fl op → Option (RemotePeer fl op) → RemotePeer fl op
  placed addr p none = p
  placed addr p (some q) = record q { addr = addr }

  -- Where a vacant or an occupied entry leads, looked up by any id.
  get_peer-add_new :
      (id j : ℕ) (addr : SocketAddr) (pm : PeerManager fl op) (p : RemotePeer fl op)
      → get_peer fl op (add_new fl op pm id addr (ok p)).1 j
        ≡ (if id == j then some p else get_peer fl op pm j)
  unfolding get_peer add_new
  get_peer-add_new id j addr pm p = ground (arith, Table.get-insert ℕ_discrete id j p pm.peers)

  same_place :
      (p : RemotePeer fl op) (addr : SocketAddr) → p.addr ≡ addr → record p { addr = addr } ≡ p
  same_place p addr e = rw (← e) refl

  move_peer-stays :
      (id : ℕ) (addr : SocketAddr) (pm : PeerManager fl op) (old : SocketAddr)
      → old ≡ addr
      → move_peer fl op pm id old addr ≡ pm
  unfolding move_peer
  move_peer-stays id addr pm old same = ground arith

  move_peer-moves :
      (id : ℕ) (addr : SocketAddr) (pm : PeerManager fl op) (old : SocketAddr)
      → old ≢ addr
      → (move_peer fl op pm id old addr).peers
        ≡ Table.modify ℕ_discrete id (λ p. record p { addr = addr }) pm.peers
  unfolding move_peer
  move_peer-moves id addr pm old moved = ground arith

  get_peer-move_peer :
      (id j : ℕ) (addr : SocketAddr) (pm : PeerManager fl op) (p : RemotePeer fl op)
      → get_peer fl op pm id ≡ some p
      → get_peer fl op (move_peer fl op pm id p.addr addr) j
        ≡ (if id == j then some (record p { addr = addr }) else get_peer fl op pm j)
  unfolding get_peer
  get_peer-move_peer id j addr pm p known = elim (SocketAddr-discrete p.addr addr) [
    | yes same ↦
        let stays = move_peer-stays id addr pm p.addr same in
        elim (ℕ_discrete id j) [
          | yes here ↦ ground (arith, same_place p addr same, stays)
          | no there ↦ ground (arith, stays)
        ]
    | no moved ↦ ground (
      arith,
      move_peer-moves id addr pm p.addr moved,
      Table.get-modify ℕ_discrete id j (λ q. record q { addr = addr }) pm.peers,
    )
  ]

  -- With room left, adding an id other than the local one puts it at that address, keeping whatever
  -- else was known of a peer of that id; the peers of other ids stay as they are.
  pub get_peer-add_peer :
      (now id j : ℕ) (addr : SocketAddr) (pm : PeerManager fl op) (p : RemotePeer fl op)
      → (id == pm.local_id) ≡ false
      → length pm.peers < 4
      → new_peer fl op now id addr ≡ ok p
      → get_peer fl op (add_peer fl op now pm id addr).1 j
        ≡ (if id == j then some (placed addr p (get_peer fl op pm id)) else get_peer fl op pm j)
  unfolding add_peer placed
  get_peer-add_peer now id j addr pm p other room made =
      let space : leb (max_peers - 1) (length pm.peers) ≡ false = ground arith in
      elim (Option-cases (get_peer fl op pm id)) [
        | inl vacant ↦ rw (other, space, vacant, made) (get_peer-add_new id j addr pm p)
        | inr (q, known) ↦ rw (other, space, known) (get_peer-move_peer id j addr pm q known)
      ]

  -- The identity of a manager, which adding a peer leaves as it is.
  abbrev pub identity : PeerManager fl op → ℕ × List ℕ
  identity pm = (pm.local_id, pm.session_id)

  identity-add_new :
      (pm : PeerManager fl op) (id : ℕ) (addr : SocketAddr) (r : Result (RemotePeer fl op))
      → identity (add_new fl op pm id addr r).1 ≡ identity pm
  unfolding add_new
  identity-add_new pm id addr (ok p) = refl
  identity-add_new pm id addr (err e) = refl
  identity-add_new pm id addr panic = refl

  pub identity-add_peer :
      (pm : PeerManager fl op) (now id : ℕ) (addr : SocketAddr)
      → identity (add_peer fl op now pm id addr).1 ≡ identity pm
  unfolding add_peer move_peer
  identity-add_peer pm now id addr =
      ground (arith, identity-add_new pm id addr (new_peer fl op now id addr))
