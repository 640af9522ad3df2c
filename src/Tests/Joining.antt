-- ===== src/Tests/Joining.antt =====
-- The theorem on a joiner and its host, at one input.
use voicechat.Base.{ℕ, List, ◌∷◌, [], ◌++◌, ◌≡◌, refl, ok, some, arith}
use voicechat.Tests.{fl, op, clear_aead, home, session}
use voicechat.Tests.Delivery.{clear-Opens}
use voicechat.Tests.Peers.{guest}
use voicechat.Tests.Session.{env_of, hosting}
use voicechat.Base.Table
use voicechat.Crypto.Context
use voicechat.Codec.{new_codec_decoder}
use voicechat.Session.Start.{send_join_to}
use voicechat.Net.Addr.{SocketAddr, v4, ip, port, is_unspecified}
use voicechat.Net.Header
use voicechat.Net.Join.{JoinPayload}
use voicechat.Net.Join
use voicechat.Net.PeerList
use voicechat.Net.Wire.{build_wire_packet}
use voicechat.Peer.{
  RemotePeer, discovered, new_host, new_joiner, new_peer, get_peer, build_peer_list, all_peer_addrs,
  touch,
}
use voicechat.Session.World.{World, seal}
use voicechat.Session.Handshake.{psk_ctx, own_addr, connect}
use voicechat.Session.Incoming.{handle_incoming}
use voicechat.Session.Welcome.{admitted, welcomed, answer_header, answer_list}
use voicechat.Session.Welcome.Joined.{join_header, joined}

abbrev pub far : SocketAddr
far = v4 10 0 0 2 4001

abbrev pub newcomer : RemotePeer fl op
newcomer = record guest { addr = far; state = discovered; last_seen = 9 }

abbrev joining : World (env_of clear_aead)
joining = record (hosting clear_aead) { peer_mgr = new_joiner fl op }

abbrev request : List ℕ
request = 2 ∷ 0 ∷ 0 ∷ 0 ∷ 0 ∷ 0 ∷ 0 ∷ 0 ∷ 15 ∷ 161 ∷ []

abbrev answer : List ℕ
answer =
    4
    ∷ 0
    ∷ 0
    ∷ 0
    ∷ 0
    ∷ 0
    ∷ 0
    ∷ 0
    ∷ (session ++ 2 ∷ 0 ∷ 4 ∷ 127 ∷ 0 ∷ 0 ∷ 1 ∷ 15 ∷ 160 ∷ 1 ∷ 4 ∷ 10 ∷ 0 ∷ 0 ∷ 2 ∷ 15 ∷ 161 ∷ [])

abbrev payload : JoinPayload
payload = record { listen_port = 4001 }

-- The joiner when it has sent its request.
abbrev asked_home : World (env_of clear_aead)
asked_home = record joining { sent = [] ++ (request, home) ∷ [] }

asked :
    seal
      (env_of clear_aead)
      (Context.new (5 ∷ []) (0 ∷ 0 ∷ 0 ∷ 0 ∷ 0 ∷ 0 ∷ 0 ∷ 0 ∷ []))
      join_header
      (Join.to_bytes payload)
    ≡ ok request
unfolding seal Context.encrypt Header.to_bytes build_wire_packet Join.to_bytes
asked = refl

answered :
    let here = env_of clear_aead in
    seal here
      (Context.new (5 ∷ []) (0 ∷ 0 ∷ 0 ∷ 0 ∷ 0 ∷ 0 ∷ 0 ∷ 0 ∷ []))
      (answer_header here (hosting clear_aead) 1 far newcomer)
      (PeerList.to_bytes (answer_list here (hosting clear_aead) 1 far newcomer home))
    ≡ ok answer
unfolding seal Context.encrypt Header.to_bytes build_wire_packet PeerList.to_bytes
    PeerList.entries_to_bytes PeerList.entry_to_bytes build_peer_list all_peer_addrs admitted
    connect touch new_host
answered = refl

made : new_peer fl op 9 1 far ≡ ok newcomer
unfolding new_peer new_codec_decoder
made = refl

named : own_addr (env_of clear_aead) far ≡ ok home
unfolding own_addr ip is_unspecified
named = refl

joined_example :
    let here = env_of clear_aead in
    let after = (handle_incoming here answer home asked_home).1 in
    (send_join_to here far (some home) joining ≡ (ok tt, asked_home))
    × (handle_incoming here request far (hosting clear_aead)
        ≡ (ok tt, welcomed here (hosting clear_aead) 1 far newcomer ([] ++ (answer, far) ∷ [])))
    × (after.peer_mgr.local_id ≡ 1)
    × (after.peer_mgr.session_id ≡ session)
    × (after.crypto_ctx ≡ Context.new (5 ∷ []) session)
unfolding new_host port
joined_example =
    joined (env_of clear_aead) (env_of clear_aead) refl refl clear-Opens (hosting clear_aead)
      joining 1 newcomer far home home far home request answer (unfold psk_ctx in asked)
      (unfold psk_ctx in answered) (omega arith) refl refl refl (omega arith) (omega arith)
      (unfold get_peer in unfold Table.get in refl) made named refl refl
      (unfold all_peer_addrs in omega arith) (omega arith) (unfold all_peer_addrs in omega arith)
