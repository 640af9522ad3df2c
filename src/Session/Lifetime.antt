-- ===== src/Session/Lifetime.antt =====
-- A session of vc-core/src/lib.rs from its start on.
use voicechat.Base.{ℕ, List, [], ◌∷◌, All, none, some, Option, ◌≡◌, ok, Bool-cases, arith, inl, inr}
use voicechat.Base.Floats.{Float32}
use voicechat.Crypto.Aead.{Argon2}
use voicechat.Dsp.{Denoiser}
use voicechat.Peer.Validity.{IsValid, new_host-IsValid, new_joiner-IsValid}
use voicechat.Session.World.{Env, World}
use voicechat.Net.Addr.{SocketAddr}
use voicechat.Session.Keeps.{Keeps, keeps_rules}
use voicechat.Session.Kept.{Holds}
use voicechat.Session.Kept.Packets.{send_control-Keeps}
use voicechat.Session.Kept.Rounds.{KeptIn, IsHarmless, rounds_keep}
use voicechat.Session.Tables.{Tables, ValidTables, tables-Kept, incoming-Keeps}
use voicechat.Session.State.{Tick, LoopState}
use voicechat.Session.Loop.{rounds, env_at}
use voicechat.Session.Loop.Shared.{SessionConfig}
use voicechat.Session.Start.{
  Boot, first_session_id, first_peers, prepare, send_join_to, send_join, enter_loop,
}

module _ (env : Env) (fl32 : Float32) (dn : Denoiser fl32) (argon2 : Argon2)
    (config : SessionConfig fl32) (boot : Boot env.op) where
  first_peers-IsValid :
      IsValid env.fl env.op
        (first_peers env.fl fl32 env.op dn config (first_session_id fl32 config boot.random_id))
  unfolding first_peers
  first_peers-IsValid = elim (Bool-cases config.is_host) [
    | inl hosts ↦ rw hosts (new_host-IsValid env.fl env.op _)
    | inr joins ↦ rw joins (new_joiner-IsValid env.fl env.op)
  ]

  prepare-first_peers :
      (key : List ℕ) (s : LoopState env.fl fl32 env.op dn)
      → prepare env.fl fl32 env.op dn argon2 config boot ≡ ok (key, s)
      → s.peer_mgr
        ≡ first_peers env.fl fl32 env.op dn config (first_session_id fl32 config boot.random_id)
  unfolding prepare
  prepare-first_peers key s done = ground arith

  send_join_to-Keeps :
      (bind_addr : SocketAddr) (host_addr : Option SocketAddr)
      → Keeps (Tables env) (send_join_to env bind_addr host_addr)
  unfolding send_join_to
  send_join_to-Keeps bind_addr none = search keeps_rules
  send_join_to-Keeps bind_addr (some host_addr) =
      search (keeps_rules, send_control-Keeps env (ValidTables env) (tables-Kept env))

  send_join-Keeps : Keeps (Tables env) (send_join env fl32 config)
  unfolding send_join
  send_join-Keeps = search (keeps_rules, send_join_to-Keeps)

  enter_loop-IsValid :
      (s s' : LoopState env.fl fl32 env.op dn)
      → enter_loop env fl32 dn config boot.set_read_timeout s ≡ ok s'
      → IsValid env.fl env.op s.peer_mgr
      → IsValid env.fl env.op s'.peer_mgr
  unfolding enter_loop Holds
  enter_loop-IsValid s s' entered v =
      let start : World env = record {
        peer_mgr = s.peer_mgr;
        crypto_ctx = s.crypto_ctx;
        sent = s.sent;
      } in
      let after = send_join env fl32 config start in
      let same : s'.peer_mgr ≡ after.1.peer_mgr = ground arith in
      rw same (send_join-Keeps.at start v)

  received-IsHarmless :
      (t : Tick fl32) (received : Option (List ℕ × SocketAddr))
      → IsHarmless env fl32 dn (ValidTables env) t received
  received-IsHarmless t none = tt
  received-IsHarmless t (some (bytes, src_addr)) =
      incoming-Keeps (env_at env fl32 dn t) bytes src_addr

  All-IsHarmless :
      (ts : List (Tick fl32)) → All (λ t. IsHarmless env fl32 dn (ValidTables env) t t.received) ts
  All-IsHarmless [] = tt
  All-IsHarmless (t ∷ ts) = (received-IsHarmless t t.received, All-IsHarmless ts)

  rounds-IsValid :
      (ts : List (Tick fl32)) (s : LoopState env.fl fl32 env.op dn)
      → IsValid env.fl env.op s.peer_mgr
      → IsValid env.fl env.op (rounds env fl32 dn ts s).1.peer_mgr
  unfolding KeptIn
  rounds-IsValid ts s v =
      rounds_keep env fl32 dn (ValidTables env) (tables-Kept env) ts s (All-IsHarmless ts) v

  -- A session that starts has valid peer tables from then on: after any number of rounds, whatever it
  -- receives and captures, and also when a round ends it.
  pub session-IsValid :
      (key : List ℕ) (s s' : LoopState env.fl fl32 env.op dn) (ts : List (Tick fl32))
      → prepare env.fl fl32 env.op dn argon2 config boot ≡ ok (key, s)
      → enter_loop env fl32 dn config boot.set_read_timeout s ≡ ok s'
      → IsValid env.fl env.op (rounds env fl32 dn ts s').1.peer_mgr
  session-IsValid key s s' ts done entered =
      rounds-IsValid ts s'
        (enter_loop-IsValid s s' entered (rw (prepare-first_peers key s done) first_peers-IsValid))
