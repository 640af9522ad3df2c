-- ===== src/Net/Ping.antt =====
-- The payload of PING and PONG packets, in vc-core/src/latency.rs.
use voicechat.Base.{
  ℕ, List, ◌++◌, ◌≡◌, Result, ok, err, ◌>>=◌, index, length, ltb, if◌then◌else◌, IsU32, arith,
}
use voicechat.Base.Bytes.{
  u32_to_be_bytes, u32_from_be_bytes, u32_from_be_bytes-to_be_bytes, ping_too_short,
}

pub record PingPayload : Type 0 where
  pub ping_id : ℕ

unfoldable pub to_bytes : PingPayload → List ℕ
unfolding u32_to_be_bytes
to_bytes p = u32_to_be_bytes p.ping_id

unfoldable pub from_bytes : List ℕ → Result PingPayload
from_bytes bytes = if ltb (length bytes) 4 then err ping_too_short else do
  a ← index bytes 0
  b ← index bytes 1
  c ← index bytes 2
  d ← index bytes 3
  ok (record { ping_id = u32_from_be_bytes a b c d })

-- A ping id is read back from its bytes, whatever follows them.
pub ping_round_trip :
    (p : PingPayload) (rest : List ℕ) → IsU32 p.ping_id → from_bytes (to_bytes p ++ rest) ≡ ok p
unfolding from_bytes to_bytes
ping_round_trip p rest v = ground (arith, u32_from_be_bytes-to_be_bytes p.ping_id)
