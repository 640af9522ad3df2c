-- ===== src/Session/Speech.antt =====
-- An encoded frame on its way from the loop of one session to the jitter buffer of another.
pub mod Paired
use voicechat.Base.{
  ℕ, ◌+◌, ◌<◌, List, ◌∷◌, [], ◌++◌, ◌≡◌, refl, ap, ok, some, none, true, false, arith, IsByte,
  IsU16,
}
use voicechat.Crypto.Aead.{Opens}
use voicechat.Net.Addr.{SocketAddr}
use voicechat.Net.Header.{PacketHeader, IsHeader, pkt_audio}
use voicechat.Peer.{RemotePeer, next_seq, get_peer, modify_peer}
use voicechat.Session.World.{Env, World, ◌>>=◌, update_peers, seal}
use voicechat.Session.Audio.{peer_context, hear}
use voicechat.Session.Counted.{taken, packet_under, send_counted_left}
use voicechat.Session.Delivery.{shared_audio_heard}
use voicechat.Session.Incoming.{handle_incoming}
use voicechat.Session.Outgoing.{pair_context, send_audio_by, send_audio_known}

-- The header of an audio packet.
abbrev pub audio_header : ℕ → ℕ → ℕ → PacketHeader
audio_header local_id seq counter = record {
  pkt_type = pkt_audio;
  peer_id = local_id;
  seq_num = seq;
  counter = counter;
}

module _ (here : Env) (local_id : ℕ) (opus_data wire : List ℕ) (id : ℕ) (addr : SocketAddr)
    (peer : RemotePeer here.fl here.op) (w : World here) where
  one_packet :
      seal here w.crypto_ctx
          (audio_header local_id peer.send_seq w.crypto_ctx.send_counter)
          opus_data
        ≡ ok wire
      → here.sendable wire addr ≡ true
      → packet_under here pkt_audio local_id peer.send_seq opus_data w.crypto_ctx addr
          w.crypto_ctx.send_counter
        ≡ (wire, addr) ∷ []
  unfolding packet_under taken
  one_packet sealed goes = rw (sealed, goes) refl

  -- What a frame for a peer without a key of its own adds to the packets sent, and to the counter.
  sent_shared :
      pair_context here peer ≡ none
      → w.crypto_ctx.send_counter + 1 < 4294967296
      → seal here w.crypto_ctx
          (audio_header local_id peer.send_seq w.crypto_ctx.send_counter)
          opus_data
        ≡ ok wire
      → here.sendable wire addr ≡ true
      → let after = (send_audio_known here local_id opus_data (id, addr) (some peer) w).1 in
        (after.sent ≡ w.sent ++ (wire, addr) ∷ [])
        × (after.crypto_ctx.send_counter ≡ w.crypto_ctx.send_counter + 1)
  unfolding send_audio_known send_audio_by next_seq update_peers ◌>>=◌
  sent_shared shared left sealed goes =
      let moved : World here = record w {
        peer_mgr = modify_peer here.fl here.op id (λ p. (next_seq here.fl here.op p).1) w.peer_mgr;
      } in
      let packet =
        send_counted_left here pkt_audio local_id peer.send_seq opus_data addr moved left in
      let added : packet_under here pkt_audio local_id peer.send_seq opus_data w.crypto_ctx addr
            w.crypto_ctx.send_counter
          ≡ (wire, addr) ∷ [] =
        one_packet sealed goes in
      rw (shared, packet) (ap (λ ps. w.sent ++ ps) added, refl)

module _ (here there : Env) (same_cipher : there.aead ≡ here.aead) (opens : Opens here.aead) where
  -- From one session to another. When the loop sends an encoded frame to a peer that it shares no key of
  -- the pair with, a counter is left, the frame can be sealed, and the system takes the packet, then
  -- exactly that packet is added to those sent and one counter is spent. And a receiver with the sender's
  -- key and session, who knows the sender under its id and has no key of the pair either, makes of the
  -- packet what `hear` makes of exactly that frame, under the sequence number that the sender keeps for
  -- this receiver and under the counter spent; nothing else of the receiver's state changes.
  pub frame_heard :
      (local_id : ℕ) (opus_data wire : List ℕ) (id : ℕ) (addr src_addr : SocketAddr)
      (receiver_entry : RemotePeer here.fl here.op) (w : World here)
      (sender_entry : RemotePeer there.fl there.op) (v : World there)
      → IsByte local_id
      → IsU16 receiver_entry.send_seq
      → pair_context here receiver_entry ≡ none
      → w.crypto_ctx.send_counter + 1 < 4294967296
      → seal here w.crypto_ctx
          (audio_header local_id receiver_entry.send_seq w.crypto_ctx.send_counter)
          opus_data
        ≡ ok wire
      → here.sendable wire addr ≡ true
      → w.crypto_ctx.cipher ≡ v.crypto_ctx.cipher
      → w.crypto_ctx.session_id ≡ v.crypto_ctx.session_id
      → get_peer there.fl there.op v.peer_mgr local_id ≡ some sender_entry
      → peer_context there (some sender_entry) ≡ none
      → let after =
          (send_audio_known here local_id opus_data (id, addr) (some receiver_entry) w).1 in
        let header = audio_header local_id receiver_entry.send_seq w.crypto_ctx.send_counter in
        (after.sent ≡ w.sent ++ (wire, addr) ∷ [])
        × (after.crypto_ctx.send_counter ≡ w.crypto_ctx.send_counter + 1)
        × (handle_incoming there wire src_addr v ≡ (
          (hear there header opus_data false sender_entry).0,
          record v {
            peer_mgr =
                modify_peer there.fl there.op local_id
                  (λ q. (hear there header opus_data false q).1)
                  v.peer_mgr;
          },
        ))
  frame_heard local_id opus_data wire id addr src_addr receiver_entry w sender_entry v byte seq
        no_pair left sealed goes key session known no_key =
      let header = audio_header local_id receiver_entry.send_seq w.crypto_ctx.send_counter in
      let (added, spent) =
        sent_shared here local_id opus_data wire id addr receiver_entry w no_pair left sealed
          goes in
      let valid : IsHeader header = record {
        pkt_type_range = omega arith;
        peer_id_range = byte;
        seq_num_range = seq;
        counter_range = omega arith;
      } in
      (
        added,
        spent,
        shared_audio_heard here there same_cipher opens w.crypto_ctx header valid opus_data wire
            sealed src_addr v sender_entry refl key session known no_key,
      )
