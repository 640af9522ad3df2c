-- ===== src/KeyExchange.antt =====
-- `KeyExchange` of vc-core/src/key_exchange.rs: X25519 and HKDF-SHA256 are other crates' code.
use voicechat.Base.{
  ℕ, List, ◌∷◌, [], ◌++◌, ◌≡◌, refl, Result, ok, err, some, none, Option, ltb, ◌==◌, if◌then◌else◌,
  not, arith, ◌↔◌, ◌⊎◌, inr,
}
use voicechat.Base.Bytes.{zero_shared_secret, expand_failed}
use voicechat.Base.Seq.{any}

-- Public keys of secrets, shared secrets, and the expansion of a secret under a salt and an info.
pub record Dh : Type 0 where
  pub public_of : List ℕ → List ℕ
  pub diffie_hellman : List ℕ → List ℕ → List ℕ
  pub hkdf_expand : List ℕ → List ℕ → List ℕ → Option (List ℕ)

-- The two sides of an exchange compute one shared secret.
abbrev pub Agrees : Dh → Type 0
Agrees dh =
    (a b : List ℕ) → dh.diffie_hellman a (dh.public_of b) ≡ dh.diffie_hellman b (dh.public_of a)

pub record KeyExchange : Type 0 where
  pub secret : List ℕ
  pub public : List ℕ

-- A new pair from a random secret.
unfoldable pub new : Dh → List ℕ → KeyExchange
new dh secret = record { secret = secret; public = dh.public_of secret }

unfoldable pub public_key_bytes : KeyExchange → List ℕ
public_key_bytes kx = kx.public

-- "voicechat-audio".
abbrev pub info_prefix : List ℕ
info_prefix =
    b'v' ∷ b'o' ∷ b'i' ∷ b'c' ∷ b'e' ∷ b'c' ∷ b'h' ∷ b'a' ∷ b't' ∷ b'-' ∷ b'a' ∷ b'u' ∷ b'd' ∷ b'i'
    ∷ b'o' ∷ []

-- The info string: the prefix and the two ids, the lower one first.
unfoldable pub key_info : ℕ → ℕ → List ℕ
key_info local_id peer_id =
    if ltb local_id peer_id
    then info_prefix ++ local_id ∷ peer_id ∷ []
    else info_prefix ++ peer_id ∷ local_id ∷ []

unfoldable pub derive_peer_key : Dh → KeyExchange → List ℕ → List ℕ → ℕ → ℕ → Result (List ℕ)
derive_peer_key dh kx peer_public_bytes session_id local_id peer_id =
    let shared_secret = dh.diffie_hellman kx.secret peer_public_bytes in
    if not (any (λ b. not (b == 0)) shared_secret)
    then err zero_shared_secret
    else elim (dh.hkdf_expand session_id shared_secret (key_info local_id peer_id)) [
      | none ↦ err expand_failed
      | some key ↦ ok key
    ]

-- The info string tells the pair of ids, and nothing of who is who.
pub key_info_iff :
    (a b c d : ℕ) → (key_info a b ≡ key_info c d) ↔ (((a ≡ c) × (b ≡ d)) ⊎ ((a ≡ d) × (b ≡ c)))
unfolding key_info
key_info_iff a b c d = (λ e. ground arith, λ e. ground arith)

-- In one session, two peers that have each other's public keys derive the same result, key or
-- error, whichever of them is asked.
pub derive_peer_key_agree :
    (dh : Dh) (a b session_id : List ℕ) (a_id b_id : ℕ)
    → Agrees dh
    → derive_peer_key dh (new dh a) (public_key_bytes (new dh b)) session_id a_id b_id
      ≡ derive_peer_key dh (new dh b) (public_key_bytes (new dh a)) session_id b_id a_id
unfolding derive_peer_key public_key_bytes new
derive_peer_key_agree dh a b session_id a_id b_id agrees =
    ground (arith, agrees a b, (key_info_iff a_id b_id b_id a_id).1 (inr (refl, refl)))
