-- ===== src/Tests/Crypto.antt =====
-- The theorems on nonces, contexts, replay and keys, each at one input.
use voicechat.Base.{ℕ, List, ◌∷◌, [], ◌≡◌, refl, err, some, arith, if◌then◌else◌, get_elem?}
use voicechat.Tests.{sum_dh, session}
use voicechat.Base.Bytes.{counter_overflow}
use voicechat.Crypto.Nonce.{send, build_nonce-injective}
use voicechat.Crypto.Context.{CryptoContext, next_counters, next_counters_lem}
use voicechat.Crypto.Replay.{ReplayFilter, check_and_accept, receive}
use voicechat.Crypto.Replay
use voicechat.Crypto.Replay.Window.{Stands, fresh, new-Stands, check_and_accept-Stands}
use voicechat.Crypto.Replay.Traffic.{receive_once, receive_increasing, IsDistinct}

build_nonce-injective_example :
    (session ≡ session)
    × (◌≡◌ {A = ℕ} 1 1)
    × (send ≡ send)
    × (◌≡◌ {A = ℕ} 65535 65535)
    × (◌≡◌ {A = ℕ} 70000 70000)
build_nonce-injective_example =
    build_nonce-injective session session 1 1 send send 65535 65535 70000 70000 refl refl
      (omega arith) (omega arith) (omega arith) (omega arith) refl

abbrev ctx : CryptoContext
ctx = record { cipher = 5 ∷ []; session_id = session; send_counter = 4294967294 }

next_counters_lem_example : get_elem? (next_counters 3 ctx) 1 ≡ some (err counter_overflow)
next_counters_lem_example = next_counters_lem 3 1 ctx (omega arith) (omega arith)

check_and_accept-Stands_example :
    ((check_and_accept Replay.new 70).0 ≡ fresh [] 70)
    × Stands (check_and_accept Replay.new 70).1 (if fresh [] 70 then 70 ∷ [] else [])
check_and_accept-Stands_example = check_and_accept-Stands Replay.new [] 70 new-Stands

receive_once_example : IsDistinct (receive Replay.new (5 ∷ 3 ∷ 5 ∷ 80 ∷ 3 ∷ []))
receive_once_example = receive_once (5 ∷ 3 ∷ 5 ∷ 80 ∷ 3 ∷ [])

receive_increasing_example : receive Replay.new (1 ∷ 4 ∷ 100 ∷ []) ≡ 1 ∷ 4 ∷ 100 ∷ []
receive_increasing_example = receive_increasing (1 ∷ 4 ∷ 100 ∷ []) (ground arith)

pub total_comm : (a b : List ℕ) → sum_dh.diffie_hellman a b ≡ sum_dh.diffie_hellman b a
total_comm a b = ground arith
