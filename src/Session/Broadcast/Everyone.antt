-- ===== src/Session/Broadcast/Everyone.antt =====
-- The whole of what an encoded frame makes a session send.
use voicechat.Base.{
  ℕ, ◌+◌, ◌<◌, List, ◌∷◌, [], ◌++◌, ◌≡◌, refl, sym, ◌∙◌, ok, some, none, Option, arith, length, All,
}
use native.Mathlib.Decide.{ℕ_discrete}
use voicechat.Base.Table
use voicechat.Peer.{RemotePeer, connected_peers, get_peer}
use voicechat.Peer.Validity.{IsValid}
use voicechat.Session.World.{Env, World, gets}
use voicechat.Session.Counted.{bind_at}
use voicechat.Session.Outgoing.{broadcast_audio}
use voicechat.Session.Broadcast.{spoken_to_all, every_peer_sent}

module _ {V : Type 0} (id_of : V → ℕ) where
  -- In a table of which each value is found under its own id, each key is the id of its value.
  keys_are_ids :
      (m : List (ℕ × V))
      → Table.IsMap ℕ_discrete m
      → ((i : ℕ) (v : V) → Table.get ℕ_discrete i m ≡ some v → id_of v ≡ i)
      → All (λ (e : ℕ × V). e.0 ≡ id_of e.1) m
  unfolding Table.get
  keys_are_ids [] map own = tt
  keys_are_ids ((k, v) ∷ m) map own = (
    sym (own k v (ground arith)),
    keys_are_ids m map.1 (λ i w found. own i w (ground (arith, map.0))),
  )

none_taken :
    {V : Type 0} (m : List (ℕ × V))
    → All (λ (e : ℕ × V). ◌≡◌ {A = Option V} (Table.get ℕ_discrete e.0 []) none) m
unfolding Table.get
none_taken [] = tt
none_taken (e ∷ m) = (refl, none_taken m)

module _ (env : Env) (opus_data : List ℕ) where
  -- With valid tables and counters left, an encoded frame goes to the connected peers in their turn, one
  -- packet for each: under the peer's own sequence number, which moves on by one modulo 2^16, and sealed
  -- under the context of the pair and the counter of that context, which moves on by one, where our key
  -- was sent and theirs received, otherwise under the shared context and the next shared counter. A
  -- packet that cannot be sealed or sent is left out, and so is one for a pair whose counter is at the
  -- top of `u32`, where it stays; peers that are not connected, and all else of the session, stay as they
  -- are.
  pub broadcast_audio_lem :
      (w : World env)
      → IsValid env.fl env.op w.peer_mgr
      → w.crypto_ctx.send_counter + length w.peer_mgr.peers < 4294967296
      → let (packets, counter, peers) =
          spoken_to_all env opus_data w.peer_mgr.local_id w.crypto_ctx w.crypto_ctx.send_counter
            w.peer_mgr.peers in
        broadcast_audio env opus_data w ≡ (
          ok tt,
          record {
            peer_mgr = record w.peer_mgr { peers = peers };
            crypto_ctx = record w.crypto_ctx { send_counter = counter };
            sent = w.sent ++ packets;
          },
        )
  unfolding broadcast_audio gets connected_peers get_peer
  broadcast_audio_lem w valid left =
      bind_at _ _ w _ w refl
      ∙ bind_at _ _ w _ w refl
      ∙ every_peer_sent env opus_data w.peer_mgr.local_id w.crypto_ctx w.peer_mgr w.peer_mgr.peers
          [] w.crypto_ctx.send_counter w.sent
          (keys_are_ids (λ (p : RemotePeer env.fl env.op). p.id) w.peer_mgr.peers valid.keyed
            valid.own_id)
          valid.keyed (none_taken w.peer_mgr.peers) left
