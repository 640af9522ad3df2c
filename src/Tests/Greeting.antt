-- ===== src/Tests/Greeting.antt =====
-- The theorem on a HELLO and its answer, at one input.
use voicechat.Base.{ℕ, List, ◌∷◌, [], ◌++◌, ◌≡◌, refl, ok, some, arith}
use native.Mathlib.Decide.{ℕ_discrete}
use voicechat.Tests.{fl, op, clear_aead, home, session}
use voicechat.Tests.Delivery.{clear-Opens}
use voicechat.Tests.Peers.{guest}
use voicechat.Tests.Session.{env_of, hosting}
use voicechat.Tests.Joining.{far, newcomer}
use voicechat.Base.Table
use voicechat.Crypto.Context
use voicechat.Net.Header
use voicechat.Net.Wire.{build_wire_packet}
use voicechat.Peer.{new_host, get_peer, add_peer, add_new, new_peer}
use voicechat.Codec.{new_codec_decoder}
use voicechat.Session.World.{World, seal, with_peers}
use voicechat.Session.Handshake.{psk_ctx, add_unknown}
use voicechat.Session.Incoming.{handle_incoming}
use voicechat.Session.Welcome.{connected_now}
use voicechat.Session.Greeting.{hello_header, ack_header, greeted_by}
use voicechat.Session.Greeting.Exchanged.{hello_exchanged}

-- The greeter, which knows the host.
abbrev greeter : World (env_of clear_aead)
greeter = record (hosting clear_aead) {
  peer_mgr = record (new_host fl op session) {
    local_id = 1;
    peers = (0, record guest { id = 0 }) ∷ [];
  };
}

-- The host once it has added the greeter.
abbrev host_with : World (env_of clear_aead)
host_with = record (hosting clear_aead) {
  peer_mgr = record (new_host fl op session) {
    peers = (1, newcomer) ∷ [];
    addr_to_id = (far, 1) ∷ [];
  };
}

abbrev hello_wire : List ℕ
hello_wire = 3 ∷ 1 ∷ 0 ∷ 0 ∷ 0 ∷ 0 ∷ 0 ∷ 0 ∷ []

abbrev ack_wire : List ℕ
ack_wire = 6 ∷ 0 ∷ 0 ∷ 0 ∷ 0 ∷ 0 ∷ 0 ∷ 0 ∷ []

greets : seal (env_of clear_aead) (Context.new (5 ∷ []) session) (hello_header 1) [] ≡ ok hello_wire
unfolding seal Context.encrypt Header.to_bytes build_wire_packet
greets = refl

answers : seal (env_of clear_aead) (Context.new (5 ∷ []) session) (ack_header 0) [] ≡ ok ack_wire
unfolding seal Context.encrypt Header.to_bytes build_wire_packet
answers = refl

added :
    add_unknown
      (env_of clear_aead)
      1
      far
      (get_peer fl op (hosting clear_aead).peer_mgr 1)
      (hosting clear_aead)
    ≡ (ok tt, host_with)
unfolding add_unknown with_peers add_peer add_new new_peer new_codec_decoder get_peer new_host
    Table.get Table.insert ℕ_discrete
added = refl

hello_exchanged_example :
    let here = env_of clear_aead in
    let after = greeted_by here 1 host_with ([] ++ (ack_wire, far) ∷ []) in
    (handle_incoming here hello_wire far (hosting clear_aead) ≡ (ok tt, after))
    × (get_peer fl op after.peer_mgr 1 ≡ some (connected_now here newcomer))
    × (get_peer fl op (handle_incoming here ack_wire home greeter).1.peer_mgr 0
        ≡ some (connected_now here (record guest { id = 0 })))
unfolding new_host
hello_exchanged_example =
    hello_exchanged (env_of clear_aead) (env_of clear_aead) refl refl clear-Opens greeter
      (hosting clear_aead) host_with refl hello_wire ack_wire far home (record guest { id = 0 })
      newcomer (unfold psk_ctx in greets) (unfold psk_ctx in answers) (omega arith) (omega arith)
      added (unfold get_peer in unfold Table.get in unfold ℕ_discrete in refl) refl
      (unfold get_peer in unfold Table.get in unfold ℕ_discrete in refl)
