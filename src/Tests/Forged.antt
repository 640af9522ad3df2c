-- ===== src/Tests/Forged.antt =====
-- The theorem on packets that no key of a session opens, at one input.
use voicechat.Base.{ℕ, ◌+◌, List, ◌∷◌, [], some, none, Option, ◌==◌, if◌then◌else◌, arith}
use voicechat.Base.Table
use voicechat.Tests.{fl, op, total, home, session}
use voicechat.Tests.Delivery.{partner}
use voicechat.Tests.Session.{env_of, hosting}
use voicechat.Crypto.Aead.{Aead, Opens}
use voicechat.Crypto.Context
use voicechat.Peer.{new_host}
use voicechat.Session.World.{World}

-- A sum over the key and all that is sealed.
abbrev tag : List ℕ → List ℕ → List ℕ → List ℕ → ℕ
tag key nonce aad msg = total key + (total nonce + (total aad + total msg))

abbrev untagged : List ℕ → List ℕ → List ℕ → List ℕ → Option (List ℕ)
untagged key nonce aad [] = none
untagged key nonce aad (t ∷ msg) = if t == tag key nonce aad msg then some msg else none

-- A cipher whose ciphertext is the message behind its tag.
abbrev tagged_aead : Aead
tagged_aead = record {
  encrypt = λ key nonce aad msg. some (tag key nonce aad msg ∷ msg);
  decrypt = untagged;
}

tagged-Opens : Opens tagged_aead
tagged-Opens key nonce aad msg (t ∷ ct) e = ground arith
tagged-Opens key nonce aad msg [] e = absurd (ground arith)

-- A session that shares a key with its peer 2.
abbrev paired : World (env_of tagged_aead)
paired = record (hosting tagged_aead) {
  peer_mgr = record (new_host fl op session) {
    peers = (2, partner) ∷ [];
    addr_to_id = (home, 2) ∷ [];
  };
}

-- Audio in the name of that peer, with the tag 0.
abbrev forged_packet : List ℕ
forged_packet = 1 ∷ 2 ∷ 0 ∷ 0 ∷ 0 ∷ 0 ∷ 0 ∷ 0 ∷ 0 ∷ 7 ∷ []

abbrev header_part : List ℕ
header_part = 1 ∷ 2 ∷ 0 ∷ 0 ∷ 0 ∷ 0 ∷ 0 ∷ 0 ∷ []
