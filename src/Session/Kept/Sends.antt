-- ===== src/Session/Kept/Sends.antt =====
-- What the sending blocks of the loop of `Session::run` (vc-core/src/lib.rs) keep.
use voicechat.Base.{ℕ, List, ◌∷◌, [], refl, some, none, Option}
use voicechat.Crypto.Context.{CryptoContext}
use voicechat.Net.Addr.{SocketAddr}
use voicechat.Net.PeerList.{PeerEntry}
use voicechat.Peer.{RemotePeer, PeerManager, next_seq, check_timeouts, expire}
use voicechat.Peer.Validity.{expire_keeps}
use voicechat.Session.World.{Env, World, M, update_peers, update_peer}
use voicechat.Session.Outgoing.{
  for_each, send_counted, send_audio_by, send_audio_known, broadcast_audio, broadcast_all,
  keepalive, ping_known, send_pings, offer_key, offer_keys,
}
use voicechat.Session.Keeps.{Keeps, Keeps-bind, keeps_rules}
use voicechat.Session.Kept.{
  Kept, Holds, update_peer-Keeps, map_peers-Keeps, reserve_counter-Keeps, send_to-Keeps,
}
use voicechat.Session.Kept.Packets.{send_key-Keeps}

module _ (env : Env) where
  for_each-Keeps :
      (P : World env → Type 0) (body : PeerEntry → M env (Unit {0})) (entries : List PeerEntry)
      → ((entry : PeerEntry) → Keeps P (body entry))
      → Keeps P (for_each env body entries)
  unfolding for_each
  for_each-Keeps P body [] k = search keeps_rules
  for_each-Keeps P body (p ∷ ps) k = Keeps-bind _ _ (k p) (λ done. for_each-Keeps P body ps k)

module _ (env : Env) (Q : PeerManager env.fl env.op → CryptoContext → Type 0)
    (kept : Kept env.fl env.op Q) where
  send_counted-Keeps :
      (pkt_type local_id seq : ℕ) (payload : List ℕ) (addr : SocketAddr)
      → Keeps (Holds env Q) (send_counted env pkt_type local_id seq payload addr)
  unfolding send_counted
  send_counted-Keeps pkt_type local_id seq payload addr =
      search (keeps_rules, reserve_counter-Keeps, send_to-Keeps) depth 20

  own_context-Keeps :
      (id : ℕ) (ctx : CryptoContext)
      → Keeps (Holds env Q) (update_peer id (λ p. record p { peer_crypto = some ctx }))
  own_context-Keeps id ctx = update_peer-Keeps env Q kept id _ (λ p. (refl, refl))

  send_audio_by-Keeps :
      (ctx : Option CryptoContext) (local_id seq : ℕ) (opus_data : List ℕ) (entry : PeerEntry)
      → Keeps (Holds env Q) (send_audio_by env ctx local_id seq opus_data entry)
  unfolding send_audio_by
  send_audio_by-Keeps none local_id seq opus_data (id, addr) = send_counted-Keeps _ _ _ _ _
  send_audio_by-Keeps (some ctx) local_id seq opus_data (id, addr) =
      search (keeps_rules, own_context-Keeps, send_to-Keeps) depth 20

  send_audio_known-Keeps :
      (local_id : ℕ) (opus_data : List ℕ) (entry : PeerEntry)
      (peer : Option (RemotePeer env.fl env.op))
      → Keeps (Holds env Q) (send_audio_known env local_id opus_data entry peer)
  unfolding send_audio_known
  send_audio_known-Keeps local_id opus_data entry none = search keeps_rules
  send_audio_known-Keeps local_id opus_data entry (some peer) =
      Keeps-bind _ _ (update_peer-Keeps env Q kept entry.0 _ (λ p. unfold next_seq in (refl, refl)))
        (λ done. send_audio_by-Keeps _ _ _ _ _)

  broadcast_audio-Keeps : (opus_data : List ℕ) → Keeps (Holds env Q) (broadcast_audio env opus_data)
  unfolding broadcast_audio
  broadcast_audio-Keeps opus_data =
      search (keeps_rules, for_each-Keeps env, send_audio_known-Keeps) depth 20

  pub broadcast_all-Keeps :
      (packets : List (List ℕ)) → Keeps (Holds env Q) (broadcast_all env packets)
  unfolding broadcast_all
  broadcast_all-Keeps [] = search keeps_rules
  broadcast_all-Keeps (opus_data ∷ rest) =
      Keeps-bind _ _ (broadcast_audio-Keeps opus_data) (λ done. broadcast_all-Keeps rest)

  timeouts-Keeps : Keeps (Holds env Q) (update_peers (check_timeouts env.fl env.op env.now))
  unfolding check_timeouts
  timeouts-Keeps =
      map_peers-Keeps env Q kept _ (expire env.fl env.op env.now)
        (expire_keeps env.fl env.op env.now) (λ pm. refl)

  pub keepalive-Keeps : Keeps (Holds env Q) (keepalive env)
  unfolding keepalive
  keepalive-Keeps =
      search (keeps_rules, for_each-Keeps env, send_counted-Keeps, timeouts-Keeps) depth 20

  ping_known-Keeps :
      (pick : List (ℕ × ℕ) → Option ℕ) (local_id : ℕ) (entry : PeerEntry)
      (peer : Option (RemotePeer env.fl env.op))
      → Keeps (Holds env Q) (ping_known env pick local_id entry peer)
  unfolding ping_known
  ping_known-Keeps pick local_id entry none = search keeps_rules
  ping_known-Keeps pick local_id entry (some peer) =
      Keeps-bind _ _ (update_peer-Keeps env Q kept entry.0 _ (λ p. (refl, refl)))
        (λ done. send_counted-Keeps _ _ _ _ _)

  pub send_pings-Keeps :
      (pick : List (ℕ × ℕ) → Option ℕ) → Keeps (Holds env Q) (send_pings env pick)
  unfolding send_pings
  send_pings-Keeps pick = search (keeps_rules, for_each-Keeps env, ping_known-Keeps) depth 20

  pub offer_keys-Keeps : Keeps (Holds env Q) (offer_keys env)
  unfolding offer_keys offer_key
  offer_keys-Keeps = search (keeps_rules, for_each-Keeps env, send_key-Keeps) depth 30
