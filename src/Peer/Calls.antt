-- ===== src/Peer/Calls.antt =====
-- The peer tables through any operations of the manager.
use voicechat.Base.{ℕ, List, ◌∷◌, [], refl, arith}
use voicechat.Base.Floats.{Float64}
use voicechat.Codec.{Opus}
use voicechat.Net.Addr.{SocketAddr}
use voicechat.Peer.{
  PeerManager, touch, set_identity, modify_peer, add_peer, allocate_peer_id, check_timeouts,
}
use voicechat.Peer.Validity.{
  IsValid, modify_peer-IsValid, add_peer-IsValid, check_timeouts-IsValid, same_tables,
}

module _ (fl : Float64) (op : Opus) where
  -- The operations of the manager that change its tables.
  pub data Call : Type 0 where
    adds : (now id : ℕ) (addr : SocketAddr) → Call
    allocates : Call
    identifies : (local_id : ℕ) (session_id : List ℕ) → Call
    touches : (now id : ℕ) → Call
    times_out : (now : ℕ) → Call

  pub step : PeerManager fl op → Call → PeerManager fl op
  step pm (adds now id addr) = (add_peer fl op now pm id addr).1
  step pm allocates = (allocate_peer_id fl op pm).1
  step pm (identifies local_id session_id) = set_identity fl op pm local_id session_id
  step pm (touches now id) = modify_peer fl op id (touch fl op now) pm
  step pm (times_out now) = check_timeouts fl op now pm

  pub run : PeerManager fl op → List Call → PeerManager fl op
  run pm [] = pm
  run pm (c ∷ cs) = run (step pm c) cs

  step-IsValid : (pm : PeerManager fl op) (c : Call) → IsValid fl op pm → IsValid fl op (step pm c)
  unfolding step
  step-IsValid pm (adds now id addr) v = add_peer-IsValid fl op pm v now id addr
  step-IsValid pm allocates v =
      same_tables fl op pm _ (unfold allocate_peer_id in ground arith)
        (unfold allocate_peer_id in ground arith) v
  step-IsValid pm (identifies local_id session_id) v =
      same_tables fl op pm _ (unfold set_identity in refl) (unfold set_identity in refl) v
  step-IsValid pm (touches now id) v =
      modify_peer-IsValid fl op pm v id (touch fl op now) (λ p. unfold touch in refl)
        (λ p. unfold touch in refl)
  step-IsValid pm (times_out now) v = check_timeouts-IsValid fl op pm v now

  -- From any valid state the tables stay valid through any operations in any order.
  pub run-IsValid :
      (pm : PeerManager fl op) (cs : List Call) → IsValid fl op pm → IsValid fl op (run pm cs)
  unfolding run
  run-IsValid pm [] v = v
  run-IsValid pm (c ∷ cs) v = run-IsValid (step pm c) cs (step-IsValid pm c v)
