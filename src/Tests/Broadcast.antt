-- ===== src/Tests/Broadcast.antt =====
-- The theorem on what an encoded frame makes a session send, at one input.
use voicechat.Base.{◌∷◌, [], ◌++◌, ◌≡◌, refl, ok, arith}
use native.Mathlib.Decide.{ℕ_discrete}
use voicechat.Tests.{fl, op, clear_aead}
use voicechat.Tests.Delivery.{meeting, partner}
use voicechat.Tests.Peers.{guest}
use voicechat.Tests.Session.{env_of}
use voicechat.Base.Table
use voicechat.Crypto.Context
use voicechat.Peer.{new_host, get_peer, peer_by_addr}
use voicechat.Peer.Validity.{IsValid}
use voicechat.Session.Outgoing.{broadcast_audio}
use voicechat.Session.Broadcast.{spoken_to_all}
use voicechat.Session.Broadcast.Everyone.{broadcast_audio_lem}

meeting-IsValid : IsValid fl op meeting.peer_mgr
unfolding new_host get_peer peer_by_addr Table.get ℕ_discrete
meeting-IsValid = record {
  keyed = (refl, (refl, tt));
  addr_keyed = (refl, tt);
  capacity = omega arith;
  own_id = λ i p found. ground arith;
  routed = λ a i found. (guest, ground arith, ground arith);
}

-- The guest is sent a packet with the shared key and its counter, the partner one with their own.
broadcast_audio_lem_example :
    let here = env_of clear_aead in
    let (packets, counter, peers) =
      spoken_to_all here (7 ∷ []) 0 meeting.crypto_ctx 0 ((1, guest) ∷ (2, partner) ∷ []) in
    broadcast_audio here (7 ∷ []) meeting ≡ (
      ok tt,
      record {
        peer_mgr = record meeting.peer_mgr { peers = peers };
        crypto_ctx = record meeting.crypto_ctx { send_counter = counter };
        sent = [] ++ packets;
      },
    )
unfolding new_host Context.new
broadcast_audio_lem_example =
    broadcast_audio_lem (env_of clear_aead) (7 ∷ []) meeting meeting-IsValid (omega arith)
