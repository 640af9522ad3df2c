-- ===== src/Crypto/Aead.antt =====
-- XChaCha20-Poly1305 and Argon2id are other crates' code: what crypto.rs calls of them.
use voicechat.Base.{ℕ, List, ◌≡◌, some, Option, Bool}

-- `encrypt` and `decrypt` of a cipher made from a key, over nonce, associated data and message.
pub record Aead : Type 0 where
  pub encrypt : List ℕ → List ℕ → List ℕ → List ℕ → Option (List ℕ)
  pub decrypt : List ℕ → List ℕ → List ℕ → List ℕ → Option (List ℕ)

-- What the crate documents: what was sealed opens under the same key, nonce and associated data.
abbrev pub Opens : Aead → Type 0
Opens a =
    (key nonce aad msg ct : List ℕ)
    → a.encrypt key nonce aad msg ≡ some ct
    → a.decrypt key nonce aad ct ≡ some msg

-- Argon2id: whether the parameters are accepted, and the hash of a password under them and a salt.
pub record Argon2 : Type 0 where
  pub params_accepted : ℕ → ℕ → ℕ → ℕ → Bool
  pub hash_password : ℕ → ℕ → ℕ → ℕ → List ℕ → List ℕ → Option (List ℕ)
