-- ===== src/Net/Join.antt =====
-- The JOIN payload of vc-core/src/net.rs.
use voicechat.Base.{
  ℕ, List, ◌++◌, ◌≡◌, Result, ok, err, ◌>>=◌, index, length, ltb, if◌then◌else◌, IsU16, arith,
}
use voicechat.Base.Bytes.{
  u16_to_be_bytes, u16_from_be_bytes, u16_from_be_bytes-to_be_bytes, join_too_short,
}

pub record JoinPayload : Type 0 where
  pub listen_port : ℕ

unfoldable pub to_bytes : JoinPayload → List ℕ
unfolding u16_to_be_bytes
to_bytes p = u16_to_be_bytes p.listen_port

unfoldable pub from_bytes : List ℕ → Result JoinPayload
from_bytes bytes = if ltb (length bytes) 2 then err join_too_short else do
  a ← index bytes 0
  b ← index bytes 1
  ok (record { listen_port = u16_from_be_bytes a b })

-- A port is read back from its bytes, whatever follows them.
pub join_round_trip :
    (p : JoinPayload) (rest : List ℕ) → IsU16 p.listen_port → from_bytes (to_bytes p ++ rest) ≡ ok p
unfolding from_bytes to_bytes
join_round_trip p rest v = ground (arith, u16_from_be_bytes-to_be_bytes p.listen_port)
