-- ===== src/Tests/Delivery.antt =====
-- The theorems on packets between two sessions, each at one input.
use voicechat.Base.{
  ◌+◌, ◌%◌, ℕ, List, ◌∷◌, [], ◌++◌, ◌≡◌, refl, ok, some, true, false, arith, replicate,
}
use native.Mathlib.Decide.{ℕ_discrete}
use voicechat.Tests.{fl, op, clear_aead, home, session}
use voicechat.Tests.Peers.{guest}
use voicechat.Tests.Session.{env_of, hosting}
use voicechat.Base.Table
use voicechat.Base.Bytes.{u16_from_be_bytes}
use voicechat.Crypto.Aead.{Opens}
use voicechat.Crypto.Context
use voicechat.Crypto.Context.{CryptoContext}
use voicechat.Net.Header.{PacketHeader, IsHeader}
use voicechat.Net.Header
use voicechat.Net.PeerList
use voicechat.Net.PeerList.{PeerListPayload}
use voicechat.Net.Wire.{build_wire_packet}
use voicechat.Peer.{RemotePeer, new_host, get_peer, modify_peer}
use voicechat.Session.World.{World, seal}
use voicechat.Session.Audio.{peer_context, hear}
use voicechat.Session.Speech.{audio_header, frame_heard}
use voicechat.Session.Speech.Paired.{paired_frame_heard}
use voicechat.Session.Outgoing.{pair_context, send_audio_known}
use voicechat.Session.Handshake.{greatest_id}
use voicechat.Session.Incoming.{handle_incoming}
use voicechat.Session.Joining.{peer_list_adopted}

pub clear-Opens : Opens clear_aead
clear-Opens key nonce aad msg ct e = ground arith

-- A peer that has exchanged keys, under the other id 2.
abbrev pub partner : RemotePeer fl op
partner = record guest {
  id = 2;
  peer_crypto = some (Context.new (9 ∷ []) session);
  kx_sent = true;
  kx_received = true;
}

abbrev pub meeting : World (env_of clear_aead)
meeting = record (hosting clear_aead) {
  peer_mgr = record (new_host fl op session) {
    peers = (1, guest) ∷ (2, partner) ∷ [];
    addr_to_id = (home, 1) ∷ [];
  };
}

-- The first frame that a session sends to the guest.
abbrev first_wire : List ℕ
first_wire = 1 ∷ 1 ∷ 0 ∷ 0 ∷ 0 ∷ 0 ∷ 0 ∷ 0 ∷ 7 ∷ []

sealed_frame :
    seal (env_of clear_aead) (Context.new (5 ∷ []) session) (audio_header 1 0 0) (7 ∷ [])
    ≡ ok first_wire
unfolding seal Context.encrypt Header.to_bytes build_wire_packet
sealed_frame = refl

frame_heard_example :
    let here = env_of clear_aead in
    let after = (send_audio_known here 1 (7 ∷ []) (1, home) (some guest) (hosting clear_aead)).1 in
    (after.sent ≡ [] ++ (first_wire, home) ∷ [])
    × (after.crypto_ctx.send_counter ≡ 0 + 1)
    × (handle_incoming here first_wire home meeting ≡ (
      (hear here (audio_header 1 0 0) (7 ∷ []) false guest).0,
      record meeting {
        peer_mgr =
            modify_peer fl op 1
              (λ q. (hear here (audio_header 1 0 0) (7 ∷ []) false q).1)
              meeting.peer_mgr;
      },
    ))
unfolding ℕ_discrete Context.new
frame_heard_example =
    frame_heard (env_of clear_aead) (env_of clear_aead) refl clear-Opens 1 (7 ∷ []) first_wire 1
      home home guest (hosting clear_aead) guest meeting (omega arith) (omega arith)
      (unfold pair_context in refl) (omega arith) sealed_frame refl refl refl
      (unfold get_peer in unfold Table.get in refl) (unfold peer_context in refl)

-- The first frame under the key of the pair, from a session with the id 2.
abbrev pair_wire : List ℕ
pair_wire = 1 ∷ 2 ∷ 0 ∷ 0 ∷ 0 ∷ 0 ∷ 0 ∷ 0 ∷ 7 ∷ []

sealed_pair_frame :
    seal (env_of clear_aead) (Context.new (9 ∷ []) session) (audio_header 2 0 0) (7 ∷ [])
    ≡ ok pair_wire
unfolding seal Context.encrypt Header.to_bytes build_wire_packet
sealed_pair_frame = refl

paired_frame_heard_example :
    let here = env_of clear_aead in
    let after = (send_audio_known here 2 (7 ∷ []) (2, home) (some partner) meeting).1 in
    (after.sent ≡ [] ++ (pair_wire, home) ∷ [])
    × (after.crypto_ctx ≡ meeting.crypto_ctx)
    × (get_peer fl op after.peer_mgr 2
        ≡ some (record partner {
          send_seq = (0 + 1) % 65536;
          peer_crypto = some (record (Context.new (9 ∷ []) session) { send_counter = 0 + 1 });
        }))
    × (handle_incoming here pair_wire home meeting ≡ (
      (hear here (audio_header 2 0 0) (7 ∷ []) true partner).0,
      record meeting {
        peer_mgr =
            modify_peer fl op 2
              (λ q. (hear here (audio_header 2 0 0) (7 ∷ []) true q).1)
              meeting.peer_mgr;
      },
    ))
unfolding ℕ_discrete Context.new
paired_frame_heard_example =
    paired_frame_heard (env_of clear_aead) (env_of clear_aead) refl clear-Opens 2 (7 ∷ []) pair_wire
      2 home home partner (Context.new (9 ∷ []) session) meeting partner
      (Context.new (9 ∷ []) session) meeting (omega arith) (omega arith)
      (unfold get_peer in unfold Table.get in refl) (unfold pair_context in refl) (omega arith)
      sealed_pair_frame refl (unfold get_peer in unfold Table.get in refl)
      (unfold peer_context in refl) refl refl

abbrev list_header : PacketHeader
list_header = record { pkt_type = 4; peer_id = 0; seq_num = 0; counter = 0 }

abbrev one_entry : PeerListPayload
one_entry = record { session_id = session; peers = (3, home) ∷ [] }

list_header-IsHeader : IsHeader list_header
list_header-IsHeader = record {
  pkt_type_range = omega arith;
  peer_id_range = omega arith;
  seq_num_range = omega arith;
  counter_range = omega arith;
}

abbrev list_payload : List ℕ
list_payload = session ++ 1 ∷ 3 ∷ 4 ∷ 127 ∷ 0 ∷ 0 ∷ 1 ∷ 15 ∷ 160 ∷ []

abbrev list_wire : List ℕ
list_wire = 4 ∷ 0 ∷ 0 ∷ 0 ∷ 0 ∷ 0 ∷ 0 ∷ 0 ∷ list_payload

abbrev zero_context : CryptoContext
zero_context = record { cipher = 5 ∷ []; session_id = replicate 8 0; send_counter = 0 }

sealed_list : seal (env_of clear_aead) zero_context list_header list_payload ≡ ok list_wire
unfolding seal Context.encrypt Header.to_bytes build_wire_packet
sealed_list = refl

list_read : PeerList.from_bytes list_payload ≡ ok one_entry
unfolding PeerList.from_bytes PeerList.read_entries PeerList.read_entry PeerList.read_addr
    u16_from_be_bytes
list_read = refl

peer_list_adopted_example :
    let after = (handle_incoming (env_of clear_aead) list_wire home meeting).1 in
    (after.peer_mgr.local_id ≡ 3)
    × (after.peer_mgr.session_id ≡ session)
    × (after.crypto_ctx ≡ Context.new (5 ∷ []) session)
peer_list_adopted_example =
    peer_list_adopted (env_of clear_aead) (env_of clear_aead) refl clear-Opens zero_context
      list_header list_header-IsHeader list_payload list_wire sealed_list home meeting one_entry 3
      refl refl refl list_read (unfold greatest_id in refl)
