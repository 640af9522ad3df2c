-- ===== src/Net/KeyExchangePayload.antt =====
-- The KEY_EXCHANGE payload of vc-core/src/key_exchange.rs: a 32-byte public key.
use voicechat.Base.{
  ℕ, List, ◌++◌, ◌≡◌, Result, ok, err, ◌>>=◌, slice, length, length-append, take-append, ltb,
  if◌then◌else◌, IsArray, arith,
}
use voicechat.Base.Bytes.{key_exchange_too_short}

pub record KeyExchangePayload : Type 0 where
  pub public_key : List ℕ

unfoldable pub to_bytes : KeyExchangePayload → List ℕ
to_bytes p = p.public_key

unfoldable pub from_bytes : List ℕ → Result KeyExchangePayload
from_bytes bytes =
    if ltb (length bytes) 32
    then err key_exchange_too_short
    else do public_key ← slice bytes 0 32; ok (record { public_key = public_key })

-- A public key of 32 bytes is read back from its bytes, whatever follows them.
pub key_round_trip :
    (p : KeyExchangePayload) (rest : List ℕ)
    → IsArray 32 p.public_key
    → from_bytes (to_bytes p ++ rest) ≡ ok p
unfolding from_bytes to_bytes
key_round_trip p rest v =
    ground (arith, length-append p.public_key rest, take-append p.public_key rest 32)
