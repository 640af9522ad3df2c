-- ===== src/Session/Speech/Paired.antt =====
-- An encoded frame between two sessions that have exchanged keys.
use voicechat.Base.{
  ℕ, ◌+◌, ◌%◌, ◌<◌, List, ◌∷◌, [], ◌++◌, ◌≡◌, refl, ap, ◌∙◌, Result, ok, err, panic, some, true,
  arith, IsByte, IsU16, ltb,
}
use voicechat.Crypto.Aead.{Opens}
use voicechat.Crypto.Context.{CryptoContext}
use voicechat.Crypto.Context
use voicechat.Net.Addr.{SocketAddr}
use voicechat.Net.Header.{IsHeader}
use voicechat.Peer.{RemotePeer, next_seq, get_peer, modify_peer}
use voicechat.Session.World.{Env, World, update_peers, seal}
use voicechat.Session.Audio.{peer_context, hear}
use voicechat.Session.Counted.{bind_at, taken, deliver, seal_moved}
use voicechat.Session.Delivery.{pair_audio_heard}
use voicechat.Session.Incoming.{handle_incoming}
use voicechat.Session.Loop.Survival.{seal_audio_no_panic}
use voicechat.Session.Outgoing.{seal_audio, pair_context, send_audio_by, send_audio_known}
use voicechat.Session.Pairing.{modified}
use voicechat.Session.Speech.{audio_header}

module _ (here : Env) (local_id : ℕ) (opus_data wire : List ℕ) (id : ℕ) (addr : SocketAddr)
    (peer : RemotePeer here.fl here.op) (mine : CryptoContext) (w : World here)
    (left : mine.send_counter + 1 < 4294967296)
    (sealed : seal here mine (audio_header local_id peer.send_seq mine.send_counter) opus_data
      ≡ ok wire) where
  -- The peer with its numbers moved on.
  abbrev pub spoken : RemotePeer here.fl here.op → RemotePeer here.fl here.op
  spoken p = record p {
    send_seq = (p.send_seq + 1) % 65536;
    peer_crypto = some (record mine { send_counter = mine.send_counter + 1 });
  }

  reserved :
      Context.next_counter mine
      ≡ (ok mine.send_counter, record mine { send_counter = mine.send_counter + 1 })
  unfolding Context.next_counter
  reserved = let fits : ltb (mine.send_counter + 1) 4294967296 ≡ true = ground arith in rw fits refl

  sealed_audio :
      seal_audio here mine local_id peer.send_seq opus_data
      ≡ (ok wire, record mine { send_counter = mine.send_counter + 1 })
  unfolding seal_audio
  sealed_audio =
      ap
        (λ (r : Result ℕ × CryptoContext). (
          elim r.0 [
            | ok counter ↦ seal here r.1 (audio_header local_id peer.send_seq counter) opus_data
            | err e ↦ err e
            | panic ↦ panic
          ],
          r.1,
        ))
        reserved
      ∙ ap (λ (r : Result (List ℕ)). (r, record mine { send_counter = mine.send_counter + 1 }))
          (seal_moved here mine (mine.send_counter + 1) _ opus_data ∙ sealed)

  numbered : World here
  numbered = record w {
    peer_mgr = modify_peer here.fl here.op id (λ p. (next_seq here.fl here.op p).1) w.peer_mgr;
  }

  counted : World here
  unfolding numbered
  counted = record numbered {
    peer_mgr =
        modify_peer here.fl here.op id
          (λ p. record p {
            peer_crypto = some (seal_audio here mine local_id peer.send_seq opus_data).1;
          })
          numbered.peer_mgr;
  }

  sent_paired :
      pair_context here peer ≡ some mine
      → here.sendable wire addr ≡ true
      → send_audio_known here local_id opus_data (id, addr) (some peer) w
        ≡ (ok tt, record counted { sent = w.sent ++ (wire, addr) ∷ [] })
  unfolding send_audio_known send_audio_by next_seq update_peers numbered counted taken
  sent_paired pair goes =
      bind_at _ _ w tt numbered refl
      ∙ ap (λ key. send_audio_by here key local_id peer.send_seq opus_data (id, addr) numbered) pair
      ∙ bind_at _ _ numbered tt counted refl
      ∙ deliver here addr (seal_audio here mine local_id peer.send_seq opus_data).0 counted
          (seal_audio_no_panic here mine local_id peer.send_seq opus_data)
      ∙ ap
          (λ (r : Result (List ℕ) × CryptoContext).
            (ok tt, record counted { sent = w.sent ++ taken here addr r.0 }))
          sealed_audio
      ∙ rw goes refl

  counted_peer :
      get_peer here.fl here.op w.peer_mgr id ≡ some peer
      → get_peer here.fl here.op counted.peer_mgr id ≡ some (spoken peer)
  unfolding counted numbered next_seq
  counted_peer known =
      modified here id _ _ _ (modified here id _ w.peer_mgr peer known)
      ∙ ap
          (λ (r : Result (List ℕ) × CryptoContext).
            some (record peer { send_seq = (peer.send_seq + 1) % 65536; peer_crypto = some r.1 }))
          sealed_audio

module _ (here there : Env) (same_cipher : there.aead ≡ here.aead) (opens : Opens here.aead) where
  -- Between two peers that have exchanged keys. When the loop sends an encoded frame to a peer that it
  -- has a key of the pair for, that context has a counter left, the frame can be sealed, and the system
  -- takes the packet, then exactly that packet is added to those sent, the shared context is as before,
  -- and the entry of that peer has the next sequence number and a pair context with one counter spent.
  -- And a receiver with the same key and session for the sender, whom it knows under its id, makes of
  -- the packet what `hear` makes of exactly that frame, by the replay filter of the pair and under the
  -- counter spent; nothing else of the receiver's state changes.
  pub paired_frame_heard :
      (local_id : ℕ) (opus_data wire : List ℕ) (id : ℕ) (addr src_addr : SocketAddr)
      (receiver_entry : RemotePeer here.fl here.op) (mine : CryptoContext) (w : World here)
      (sender_entry : RemotePeer there.fl there.op) (own : CryptoContext) (v : World there)
      → IsByte local_id
      → IsU16 receiver_entry.send_seq
      → get_peer here.fl here.op w.peer_mgr id ≡ some receiver_entry
      → pair_context here receiver_entry ≡ some mine
      → mine.send_counter + 1 < 4294967296
      → seal here mine (audio_header local_id receiver_entry.send_seq mine.send_counter) opus_data
        ≡ ok wire
      → here.sendable wire addr ≡ true
      → get_peer there.fl there.op v.peer_mgr local_id ≡ some sender_entry
      → peer_context there (some sender_entry) ≡ some own
      → mine.cipher ≡ own.cipher
      → mine.session_id ≡ own.session_id
      → let after =
          (send_audio_known here local_id opus_data (id, addr) (some receiver_entry) w).1 in
        let header = audio_header local_id receiver_entry.send_seq mine.send_counter in
        (after.sent ≡ w.sent ++ (wire, addr) ∷ [])
        × (after.crypto_ctx ≡ w.crypto_ctx)
        × (get_peer here.fl here.op after.peer_mgr id
            ≡ some (record receiver_entry {
              send_seq = (receiver_entry.send_seq + 1) % 65536;
              peer_crypto = some (record mine { send_counter = mine.send_counter + 1 });
            }))
        × (handle_incoming there wire src_addr v ≡ (
          (hear there header opus_data true sender_entry).0,
          record v {
            peer_mgr =
                modify_peer there.fl there.op local_id
                  (λ q. (hear there header opus_data true q).1)
                  v.peer_mgr;
          },
        ))
  unfolding counted numbered
  paired_frame_heard local_id opus_data wire id addr src_addr receiver_entry mine w sender_entry own
        v byte seq known pair left sealed goes sender opened key session =
      let header = audio_header local_id receiver_entry.send_seq mine.send_counter in
      let valid : IsHeader header = record {
        pkt_type_range = omega arith;
        peer_id_range = byte;
        seq_num_range = seq;
        counter_range = omega arith;
      } in
      let sends =
        sent_paired here local_id opus_data wire id addr receiver_entry mine w left sealed pair
          goes in
      (
        ap (λ (r : Result (Unit {0}) × World here). r.1.sent) sends,
        ap (λ (r : Result (Unit {0}) × World here). r.1.crypto_ctx) sends,
        ap (λ (r : Result (Unit {0}) × World here). get_peer here.fl here.op r.1.peer_mgr id) sends
            ∙ counted_peer here local_id opus_data wire id addr receiver_entry mine w left sealed
                known,
        pair_audio_heard here there same_cipher opens mine header valid opus_data wire sealed
            src_addr v sender_entry own refl sender opened key session,
      )
