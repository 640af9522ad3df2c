-- ===== src/Crypto/Context.antt =====
-- `CryptoContext` and `derive_key_from_passphrase` of vc-core/src/crypto.rs.
use voicechat.Base.{
  ℕ, zero, suc, ◌+◌, ◌<◌, List, ◌∷◌, [], ◌≡◌, Result, ok, err, replicate, get_elem?, some, none,
  ltb, if◌then◌else◌, IsU32, arith,
}
use voicechat.Base.Bytes.{counter_overflow, encrypt_failed, decrypt_failed, key_params, key_hash}
use voicechat.Crypto.Aead.{Aead, Opens, Argon2}
use voicechat.Crypto.Nonce.{send, build_nonce}

-- "voicechat-v1" and four zero bytes.
abbrev pub key_salt : List ℕ
key_salt =
    b'v'
    ∷ b'o'
    ∷ b'i'
    ∷ b'c'
    ∷ b'e'
    ∷ b'c'
    ∷ b'h'
    ∷ b'a'
    ∷ b't'
    ∷ b'-'
    ∷ b'v'
    ∷ b'1'
    ∷ replicate 4 0

unfoldable pub derive_key_from_passphrase : Argon2 → List ℕ → Result (List ℕ)
derive_key_from_passphrase argon2 passphrase =
    if argon2.params_accepted 65536 3 1 32
    then elim (argon2.hash_password 65536 3 1 32 passphrase key_salt) [
      | none ↦ err key_hash
      | some key ↦ ok key
    ]
    else err key_params

-- The cipher of the crate is made from the key, so the key stands for it.
pub record CryptoContext : Type 0 where
  pub cipher : List ℕ
  pub session_id : List ℕ
  pub send_counter : ℕ

unfoldable pub new : List ℕ → List ℕ → CryptoContext
new key session_id = record { cipher = key; session_id = session_id; send_counter = 0 }

-- The counter, reserved; `checked_add` fails at the top of `u32` and leaves the context as it is.
unfoldable pub next_counter : CryptoContext → Result ℕ × CryptoContext
next_counter ctx =
    let counter = ctx.send_counter in
    if ltb (counter + 1) 4294967296
    then (ok counter, record ctx { send_counter = counter + 1 })
    else (err counter_overflow, ctx)

module _ (aead : Aead) where
  unfoldable pub encrypt : CryptoContext → List ℕ → List ℕ → ℕ → ℕ → ℕ → Result (List ℕ)
  encrypt ctx header payload peer_id seq_num counter =
      elim (aead.encrypt ctx.cipher (build_nonce ctx.session_id peer_id send seq_num counter) header
        payload) [ none ↦ err encrypt_failed | some ciphertext ↦ ok ciphertext ]

  unfoldable pub decrypt : CryptoContext → List ℕ → List ℕ → ℕ → ℕ → ℕ → Result (List ℕ)
  decrypt ctx header ciphertext_with_tag peer_id seq_num counter =
      elim (aead.decrypt ctx.cipher (build_nonce ctx.session_id peer_id send seq_num counter) header
        ciphertext_with_tag) [ none ↦ err decrypt_failed | some plaintext ↦ ok plaintext ]

  -- A receiver with the sender's key and session opens what the sender sealed, when it is given
  -- the same header, peer id, sequence number and counter.
  pub decrypt-encrypt :
      (sender receiver : CryptoContext) (header payload ct : List ℕ) (peer_id seq_num counter : ℕ)
      → Opens aead
      → sender.cipher ≡ receiver.cipher
      → sender.session_id ≡ receiver.session_id
      → encrypt sender header payload peer_id seq_num counter ≡ ok ct
      → decrypt receiver header ct peer_id seq_num counter ≡ ok payload
  unfolding encrypt decrypt
  decrypt-encrypt sender receiver header payload ct peer_id seq_num counter opens k s e = ground (
    arith,
    opens sender.cipher (build_nonce sender.session_id peer_id send seq_num counter) header payload
        ct,
  )

-- `n` calls of `next_counter`, one after the other.
pub next_counters : ℕ → CryptoContext → List (Result ℕ)
next_counters zero ctx = []
next_counters (suc n) ctx = let (r, ctx') = next_counter ctx in r ∷ next_counters n ctx'

-- Of any number of calls, the `i`-th returns the starting counter plus `i` while that is below
-- 2^32 - 1, and fails from then on: no counter is handed out twice.
pub next_counters_lem :
    (n i : ℕ) (ctx : CryptoContext)
    → i < n
    → IsU32 ctx.send_counter
    → get_elem? (next_counters n ctx) i
      ≡ some (
          if ltb (ctx.send_counter + i) 4294967295
          then ok (ctx.send_counter + i)
          else err counter_overflow)
unfolding next_counters next_counter
next_counters_lem zero i ctx h u = elim h [ ]
next_counters_lem (suc n) zero ctx h u = ground arith
next_counters_lem (suc n) (suc i) ctx h u =
    ground (arith, next_counters_lem n i (next_counter ctx).1)
