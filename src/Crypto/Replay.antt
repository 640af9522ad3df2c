-- ===== src/Crypto/Replay.antt =====
-- `ReplayFilter` of vc-core/src/crypto.rs.
pub mod Window
pub mod Traffic
use voicechat.Base.{
  ℕ, zero, suc, ◌+◌, ◌-◌, ◌*◌, ◌/◌, ◌%◌, ◌^◌, ◌≤◌, ◌<◌, List, ◌∷◌, [], ◌++◌, ◌≡◌, ◌≢◌, refl, sym,
  ap, ◌∙◌, Result, ok, err, panic, ◌>>=◌, length, length-append, take, drop, take-append,
  drop-append, replicate, get_elem?, some, none, Option, ltb, leb, ◌==◌, ltb→lt, ltb→le, Bool-cases,
  Option-cases, if◌then◌else◌, Bool, true, false, not, ◌&&◌, ◌||◌, All, IsByte, IsU16, IsU32,
  IsArray, arith, ◌⊎◌, inl, inr,
}
use Prim.Native.Nat.{bit_and, bit_or}

abbrev pub sliding_window_size : ℕ
sliding_window_size = 64

pub record ReplayFilter : Type 0 where
  pub highest : ℕ
  pub bitmap : ℕ

unfoldable pub new : ReplayFilter
new = record { highest = 0; bitmap = 0 }

-- `bits << shift` on a `u64`, for a shift below 64.
abbrev pub shl64 : ℕ → ℕ → ℕ
shl64 bits shift = bits * 2 ^ shift % 2 ^ 64

-- The two branches of `check_and_accept`: a counter above all the others, and one that is not.
unfoldable pub accept_newer : ReplayFilter → ℕ → Bool × ReplayFilter
accept_newer f counter =
    let shift = counter - f.highest in
    let shifted = if leb sliding_window_size shift then 0 else shl64 f.bitmap shift in
    (true, record { highest = counter; bitmap = bit_or shifted 1 })

unfoldable pub accept_older : ReplayFilter → ℕ → Bool × ReplayFilter
accept_older f counter =
    let diff = f.highest - counter in
    if leb sliding_window_size diff
    then (false, f)
    else let bit = shl64 1 diff in
      if not (bit_and f.bitmap bit == 0)
      then (false, f)
      else (true, record f { bitmap = bit_or f.bitmap bit })

unfoldable pub check_and_accept : ReplayFilter → ℕ → Bool × ReplayFilter
check_and_accept f counter =
    if ltb f.highest counter then accept_newer f counter else accept_older f counter

-- The counters that a filter lets through, in the order in which they arrive.
unfoldable pub receive : ReplayFilter → List ℕ → List ℕ
receive f [] = []
receive f (c ∷ cs) =
    let (accepted, f') = check_and_accept f c in
    let rest = receive f' cs in if accepted then c ∷ rest else rest
