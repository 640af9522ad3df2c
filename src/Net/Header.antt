-- ===== src/Net/Header.antt =====
-- The 8-byte packet header of vc-core/src/net.rs.
pub mod Unique
use voicechat.Base.{
  ℕ, ◌<◌, List, ◌∷◌, [], ◌++◌, ◌≡◌, Result, ok, err, ◌>>=◌, index, length, take, ltb, if◌then◌else◌,
  All, ◌⊎◌, inl, inr, IsByte, IsU16, IsU32, arith,
}
use voicechat.Base.Bytes.{
  u16_to_be_bytes, u16_from_be_bytes, u32_to_be_bytes, u32_from_be_bytes, header_too_short,
  u16_from_be_bytes-to_be_bytes, u32_from_be_bytes-to_be_bytes,
}

abbrev pub pkt_audio : ℕ
pkt_audio = 0x01

abbrev pub pkt_join : ℕ
pkt_join = 0x02

abbrev pub pkt_hello : ℕ
pkt_hello = 0x03

abbrev pub pkt_peer_list : ℕ
pkt_peer_list = 0x04

abbrev pub pkt_keepalive : ℕ
pkt_keepalive = 0x05

abbrev pub pkt_hello_ack : ℕ
pkt_hello_ack = 0x06

abbrev pub pkt_ping : ℕ
pkt_ping = 0x07

abbrev pub pkt_pong : ℕ
pkt_pong = 0x08

abbrev pub pkt_key_exchange : ℕ
pkt_key_exchange = 0x09

abbrev pub header_len : ℕ
header_len = 8

abbrev pub max_packet_len : ℕ
max_packet_len = 1200

pub record PacketHeader : Type 0 where
  pub pkt_type : ℕ
  pub peer_id : ℕ
  pub seq_num : ℕ
  pub counter : ℕ

-- The ranges of the fields' Rust types.
pub record IsHeader (h : PacketHeader) : Type 0 where
  pub pkt_type_range : IsByte h.pkt_type
  pub peer_id_range : IsByte h.peer_id
  pub seq_num_range : IsU16 h.seq_num
  pub counter_range : IsU32 h.counter

unfoldable pub to_bytes : PacketHeader → List ℕ
unfolding u16_to_be_bytes u32_to_be_bytes
to_bytes h = h.pkt_type ∷ h.peer_id ∷ (u16_to_be_bytes h.seq_num ++ u32_to_be_bytes h.counter)

unfoldable pub from_bytes : List ℕ → Result PacketHeader
from_bytes buf = if ltb (length buf) header_len then err header_too_short else do
  pkt_type ← index buf 0
  peer_id ← index buf 1
  s0 ← index buf 2
  s1 ← index buf 3
  c0 ← index buf 4
  c1 ← index buf 5
  c2 ← index buf 6
  c3 ← index buf 7
  ok (record {
    pkt_type = pkt_type;
    peer_id = peer_id;
    seq_num = u16_from_be_bytes s0 s1;
    counter = u32_from_be_bytes c0 c1 c2 c3;
  })

-- A header read back from its bytes is the header, whatever bytes follow them.
pub from_bytes-to_bytes :
    (h : PacketHeader) (rest : List ℕ) → IsHeader h → from_bytes (to_bytes h ++ rest) ≡ ok h
unfolding from_bytes to_bytes
from_bytes-to_bytes h rest v =
    ground (arith, u16_from_be_bytes-to_be_bytes h.seq_num, u32_from_be_bytes-to_be_bytes h.counter)

module _ (a b c d e f : ℕ) where
  written_back :
      IsByte a
      → IsByte b
      → IsByte c
      → IsByte d
      → IsByte e
      → IsByte f
      → u16_to_be_bytes (u16_from_be_bytes a b) ++ u32_to_be_bytes (u32_from_be_bytes c d e f)
        ≡ a ∷ b ∷ c ∷ d ∷ e ∷ f ∷ []
  unfolding u16_to_be_bytes u16_from_be_bytes u32_to_be_bytes u32_from_be_bytes
  written_back ha hb hc hd he hf = ground arith

read_range :
    (t p a b c d e f : ℕ) (rest : List ℕ)
    → All IsByte (t ∷ p ∷ a ∷ b ∷ c ∷ d ∷ e ∷ f ∷ rest)
    → IsHeader (record {
      pkt_type = t;
      peer_id = p;
      seq_num = u16_from_be_bytes a b;
      counter = u32_from_be_bytes c d e f;
    })
unfolding u16_from_be_bytes u32_from_be_bytes
read_range t p a b c d e f rest v = omega arith

-- On bytes, `from_bytes` fails below eight of them, and otherwise reads a header whose bytes are
-- the first eight; it never panics.
pub to_bytes-from_bytes :
    (buf : List ℕ)
    → All IsByte buf
    → ((length buf < 8) × (from_bytes buf ≡ err header_too_short))
      ⊎ ((h : PacketHeader) × (from_bytes buf ≡ ok h) × IsHeader h × (to_bytes h ≡ take 8 buf))
unfolding from_bytes to_bytes
to_bytes-from_bytes (t ∷ p ∷ a ∷ b ∷ c ∷ d ∷ e ∷ f ∷ rest) v =
    let h : PacketHeader = record {
      pkt_type = t;
      peer_id = p;
      seq_num = u16_from_be_bytes a b;
      counter = u32_from_be_bytes c d e f;
    } in
    (inr (
      h,
      ground arith,
      read_range t p a b c d e f rest v,
      ground (arith, written_back a b c d e f),
    ))
to_bytes-from_bytes _ v = inl (omega arith, ground arith)
