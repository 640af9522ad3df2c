-- ===== src/Crypto/Nonce.antt =====
-- `build_nonce` of vc-core/src/crypto.rs.
use voicechat.Base.{
  ℕ, List, ◌∷◌, ◌++◌, ◌≡◌, sym, ap, ◌∙◌, length, length-append, take, drop, take-append,
  drop-append, replicate, IsU16, IsU32, IsArray, arith,
}
use voicechat.Base.Bytes.{u16_to_be_bytes, u32_to_be_bytes}

pub data Direction : Type 0 where
  send recv : Direction

-- `direction as u8`.
unfoldable pub direction_byte : Direction → ℕ
direction_byte send = 0x00
direction_byte recv = 0x01

unfoldable pub build_nonce : List ℕ → ℕ → Direction → ℕ → ℕ → List ℕ
build_nonce session_id peer_id direction seq_num counter =
    session_id
    ++ (peer_id
        ∷ direction_byte direction
        ∷ (u16_to_be_bytes seq_num ++ (u32_to_be_bytes counter ++ replicate 8 0)))

pub length-build_nonce :
    (session_id : List ℕ) (peer_id : ℕ) (direction : Direction) (seq_num counter : ℕ)
    → IsArray 8 session_id
    → length (build_nonce session_id peer_id direction seq_num counter) ≡ 24
unfolding build_nonce u16_to_be_bytes u32_to_be_bytes
length-build_nonce session_id peer_id direction seq_num counter s =
    omega (arith, length-append {0} session_id)

direction_byte-injective : (d e : Direction) → direction_byte d ≡ direction_byte e → d ≡ e
unfolding direction_byte
direction_byte-injective d e h = ground arith

-- The 24 bytes tell every field of a nonce.
pub build_nonce-injective :
    (s t : List ℕ) (p q : ℕ) (d e : Direction) (m n c k : ℕ)
    → IsArray 8 s
    → IsArray 8 t
    → IsU16 m
    → IsU16 n
    → IsU32 c
    → IsU32 k
    → build_nonce s p d m c ≡ build_nonce t q e n k
    → (s ≡ t) × (p ≡ q) × (d ≡ e) × (m ≡ n) × (c ≡ k)
unfolding build_nonce u16_to_be_bytes u32_to_be_bytes
build_nonce-injective s t p q d e m n c k hs ht hm hn hc hk h =
    let front : s ≡ t =
      sym (take-append s _ 8 (sym hs)) ∙ ap (take 8) h ∙ take-append t _ 8 (sym ht) in
    let back = sym (drop-append s _ 8 (sym hs)) ∙ ap (drop 8) h ∙ drop-append t _ 8 (sym ht) in
    (
      front,
      ground (arith, back),
      direction_byte-injective d e (ground (arith, back)),
      ground (arith, back),
      ground (arith, back),
    )
