-- ===== src/Net/PeerList.antt =====
-- The PEER_LIST payload of vc-core/src/net.rs.
pub mod RoundTrip
pub mod Panics
use voicechat.Base.{
  ℕ, zero, suc, ◌+◌, ◌-◌, ◌/◌, ◌%◌, ◌≤◌, ◌<◌, List, ◌∷◌, [], ◌++◌, ◌≡◌, refl, sym, ap, ◌∙◌, Result,
  ok, err, panic, ◌>>=◌, index, slice, slice_from, length, length-append, length-take, length-drop,
  take, drop, take-append, drop-append, take-append-drop, drop-drop, get_elem?, get_elem?-drop,
  some, ltb, leb, ◌==◌, ltb→lt, ltb→le, Bool-cases, if◌then◌else◌, All, IsByte, IsU16, IsU32,
  IsArray, arith, ◌⊎◌, inl, inr,
}
use voicechat.Base.Bytes.{
  u16_to_be_bytes, u16_from_be_bytes, peer_list_too_short, peer_list_truncated, unknown_ip_version,
}
use voicechat.Net.Addr.{SocketAddr, v4, v6}

abbrev pub PeerEntry : Type 0
PeerEntry = ℕ × SocketAddr

pub record PeerListPayload : Type 0 where
  pub session_id : List ℕ
  pub peers : List PeerEntry

-- One round of the loop in `to_bytes`: what it pushes for one peer.
unfoldable pub entry_to_bytes : PeerEntry → List ℕ
unfolding u16_to_be_bytes
entry_to_bytes (id, v4 a b c d port) = id ∷ 4 ∷ a ∷ b ∷ c ∷ d ∷ u16_to_be_bytes port
entry_to_bytes (id, v6 octets port flowinfo scope_id) = id ∷ 6 ∷ (octets ++ u16_to_be_bytes port)

unfoldable pub entries_to_bytes : List PeerEntry → List ℕ
entries_to_bytes [] = []
entries_to_bytes (p ∷ ps) = entry_to_bytes p ++ entries_to_bytes ps

unfoldable pub to_bytes : PeerListPayload → List ℕ
to_bytes p = p.session_id ++ (length p.peers % 256 ∷ entries_to_bytes p.peers)

-- The `match ip_ver` of `from_bytes`: the address, and the offset behind it.
unfoldable pub read_addr : List ℕ → ℕ → ℕ → Result (SocketAddr × ℕ)
read_addr bytes ip_ver offset =
    if ip_ver == 4
    then (if ltb (length bytes) (offset + 6) then err peer_list_truncated else do
      a ← index bytes offset
      b ← index bytes (offset + 1)
      c ← index bytes (offset + 2)
      d ← index bytes (offset + 3)
      p0 ← index bytes (offset + 4)
      p1 ← index bytes (offset + 5)
      ok (v4 a b c d (u16_from_be_bytes p0 p1), offset + 6))
    else if ip_ver == 6
    then (if ltb (length bytes) (offset + 18) then err peer_list_truncated else do
      octets ← slice bytes offset 16
      p0 ← index bytes (offset + 16)
      p1 ← index bytes (offset + 17)
      ok (v6 octets (u16_from_be_bytes p0 p1) 0 0, offset + 18))
    else err unknown_ip_version

-- One round of the loop in `from_bytes`. The version marker behind the id is read unchecked.
unfoldable pub read_entry : List ℕ → ℕ → Result (PeerEntry × ℕ)
read_entry bytes offset = if leb (length bytes) offset then err peer_list_truncated else do
  id ← index bytes offset
  ip_ver ← index bytes (offset + 1)
  (addr, offset') ← read_addr bytes ip_ver (offset + 1 + 1)
  ok ((id, addr), offset')

-- The loop, over the rounds that are left.
unfoldable pub read_entries : ℕ → List ℕ → ℕ → List PeerEntry → Result (List PeerEntry)
read_entries zero bytes offset peers = ok peers
read_entries (suc rounds) bytes offset peers = do
  (peer, offset') ← read_entry bytes offset
  read_entries rounds bytes offset' (peers ++ peer ∷ [])

unfoldable pub from_bytes : List ℕ → Result PeerListPayload
from_bytes bytes = if ltb (length bytes) 9 then err peer_list_too_short else do
  session_id ← slice bytes 0 8
  count ← index bytes 8
  peers ← read_entries count bytes 9 []
  ok (record { session_id = session_id; peers = peers })
