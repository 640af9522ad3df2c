-- ===== src/Tests/Pairing.antt =====
-- The theorem on an exchange of public keys, at one input.
use voicechat.Base.{ℕ, List, ◌∷◌, [], ◌≡◌, refl, ok, some, arith, replicate}
use native.Mathlib.Decide.{ℕ_discrete}
use voicechat.Tests.{fl, op, clear_aead, sum_dh, home, session}
use voicechat.Tests.Crypto.{total_comm}
use voicechat.Tests.Delivery.{clear-Opens}
use voicechat.Tests.Peers.{guest}
use voicechat.Tests.Session.{env_of}
use voicechat.Base.Seq.{any}
use voicechat.Base.Table
use voicechat.Crypto.Context
use voicechat.KeyExchange.{derive_peer_key, public_key_bytes}
use voicechat.KeyExchange
use voicechat.Net.Header
use voicechat.Net.KeyExchangePayload
use voicechat.Net.Wire.{build_wire_packet}
use voicechat.Peer.{new_host, get_peer}
use voicechat.Session.World.{Env, World, seal}
use voicechat.Session.Incoming.{handle_incoming}
use voicechat.Session.Pairing.{paired, offer}
use voicechat.Session.Pairing.Agreed.{keys_agree}

-- A session with a secret of 32 equal bytes.
abbrev keyed_by : ℕ → Env
keyed_by n = record (env_of clear_aead) { key_exchange = KeyExchange.new sum_dh (replicate 32 n) }

abbrev knows : ℕ → ℕ → (n : ℕ) → World (keyed_by n)
knows own other n = record {
  peer_mgr = record (new_host fl op session) {
    local_id = own;
    peers = (other, record guest { id = other }) ∷ [];
  };
  crypto_ctx = Context.new (5 ∷ []) session;
  sent = [];
}

abbrev offer_wire : ℕ → ℕ → List ℕ
offer_wire own n = 9 ∷ own ∷ 0 ∷ 0 ∷ 0 ∷ 0 ∷ 0 ∷ 0 ∷ replicate 32 n

offered : (own n : ℕ) → offer (keyed_by n) session own ≡ ok (offer_wire own n)
unfolding seal Context.encrypt Header.to_bytes build_wire_packet KeyExchangePayload.to_bytes
    public_key_bytes KeyExchange.new
offered own n = refl

keys_agree_example :
    (get_peer fl op (handle_incoming (keyed_by 3) (offer_wire 1 4) home (knows 0 1 3)).1.peer_mgr 1
      ≡ some (paired (keyed_by 3) (224 ∷ []) session (record guest { id = 1 })))
    × (get_peer fl op
          (handle_incoming (keyed_by 4) (offer_wire 0 3) home (knows 1 0 4)).1.peer_mgr
          0
        ≡ some (paired (keyed_by 4) (224 ∷ []) session (record guest { id = 0 })))
unfolding new_host any KeyExchange.new public_key_bytes
keys_agree_example =
    keys_agree (keyed_by 3) (keyed_by 4) refl refl clear-Opens refl total_comm (replicate 32 3)
      (replicate 32 4) refl refl (knows 0 1 3) (knows 1 0 4) refl (offer_wire 0 3) (offer_wire 1 4)
      (224 ∷ []) home home (record guest { id = 1 }) (record guest { id = 0 }) (offered 0 3)
      (offered 1 4) (omega arith) (omega arith) refl refl
      (unfold get_peer in unfold Table.get in unfold ℕ_discrete in refl)
      (unfold get_peer in unfold Table.get in unfold ℕ_discrete in refl)
      (unfold derive_peer_key in refl)
