-- ===== src/Net/Wire.antt =====
-- The wire packet of vc-core/src/net.rs: the header in the clear, then the sealed payload.
use voicechat.Base.{
  ℕ, ◌<◌, List, ◌++◌, ◌≡◌, Result, ok, err, ◌>>=◌, slice, slice_from, length, length-append,
  length-take, take, drop, take-append, drop-append, take-append-drop, ltb, ltb→lt, Bool-cases,
  if◌then◌else◌, IsArray, arith, ◌⊎◌, inl, inr,
}
use voicechat.Base.Bytes.{packet_too_short}
use voicechat.Net.Header.{header_len}

unfoldable pub build_wire_packet : List ℕ → List ℕ → List ℕ
build_wire_packet header encrypted_payload = header ++ encrypted_payload

unfoldable pub parse_wire_packet : List ℕ → Result (List ℕ × List ℕ)
parse_wire_packet bytes =
    if ltb (length bytes) header_len
    then err packet_too_short
    else do header ← slice bytes 0 header_len; rest ← slice_from bytes header_len; ok (header, rest)

-- A packet that was built from an 8-byte header is taken apart into that header and its payload.
pub parse-build_wire_packet :
    (header payload : List ℕ)
    → IsArray 8 header
    → parse_wire_packet (build_wire_packet header payload) ≡ ok (header, payload)
unfolding parse_wire_packet build_wire_packet
parse-build_wire_packet header payload h = ground (
  arith,
  length-append header payload,
  take-append header payload 8,
  drop-append header payload 8,
)

-- Parsing fails on fewer than 8 bytes; otherwise it cuts the packet into two parts, the first of 8
-- bytes, that build the packet again. It never panics.
pub build-parse_wire_packet :
    (bytes : List ℕ)
    → ((length bytes < 8) × (parse_wire_packet bytes ≡ err packet_too_short))
      ⊎ ((header : List ℕ) × (payload : List ℕ) × (parse_wire_packet bytes ≡ ok (header, payload))
          × IsArray 8 header
          × (build_wire_packet header payload ≡ bytes))
unfolding parse_wire_packet build_wire_packet
build-parse_wire_packet bytes = elim (Bool-cases (ltb (length bytes) 8)) [
  | inl short ↦ inl (ltb→lt _ _ short, ground arith)
  | inr long ↦ inr (
    take 8 bytes,
    drop 8 bytes,
    ground arith,
    ground (arith, length-take 8 bytes),
    take-append-drop 8 bytes,
  )
]
