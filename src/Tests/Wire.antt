-- ===== src/Tests/Wire.antt =====
-- The theorems on the wire formats, each at one input.
use voicechat.Base.{ℕ, List, ◌∷◌, [], ◌++◌, ◌≡◌, refl, ok, panic, replicate, arith}
use voicechat.Tests.{home, session}
use voicechat.Net.Addr.{v6}
use voicechat.Net.Header.{PacketHeader, from_bytes}
use voicechat.Net.Header.Unique.{IsHeaderOf, header_unique}
use std.Equiv.{IsContr}
use voicechat.Net.PeerList.{PeerListPayload, PeerEntry, read_entry, entries_to_bytes}
use voicechat.Net.PeerList
use voicechat.Net.PeerList.RoundTrip.{peer_list_round_trip}
use voicechat.Net.PeerList.Panics.{from_bytes_cut_after_id}

abbrev two_peers : PeerListPayload
two_peers = record {
  session_id = session;
  peers = (0, home) ∷ (1, v6 (replicate 16 254) 5000 0 0) ∷ [];
}

peer_list_round_trip_example :
    PeerList.from_bytes (PeerList.to_bytes two_peers ++ 1 ∷ []) ≡ ok two_peers
peer_list_round_trip_example =
    peer_list_round_trip two_peers (1 ∷ []) refl (omega arith) (ground arith)

from_bytes_cut_after_id_example :
    PeerList.from_bytes (session ++ (2 ∷ (entries_to_bytes ((0, home) ∷ []) ++ 1 ∷ []))) ≡ panic
from_bytes_cut_after_id_example =
    from_bytes_cut_after_id session 2 1 ((0, home) ∷ []) refl (omega arith) (ground arith)

-- The bytes of a ping header with the peer id 2, the sequence number 258 and the counter 2^24 + 5.
abbrev ping_bytes : List ℕ
ping_bytes = 7 ∷ 2 ∷ 1 ∷ 2 ∷ 1 ∷ 0 ∷ 0 ∷ 5 ∷ []

header_unique_example :
    (one : IsContr ((h : PacketHeader) × IsHeaderOf ping_bytes h)) × (from_bytes ping_bytes
      ≡ ok one.0.0)
header_unique_example = header_unique ping_bytes refl (omega arith)
