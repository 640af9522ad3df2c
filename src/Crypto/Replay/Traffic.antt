-- ===== src/Crypto/Replay/Traffic.antt =====
-- What the filter lets through of a whole stream of counters.
use voicechat.Base.{ℕ, ◌≤◌, ◌<◌, List, ◌∷◌, [], ◌≡◌, refl, Bool-cases, true, false, arith, inl, inr}
use voicechat.Crypto.Replay.{ReplayFilter, new, check_and_accept, receive}
use voicechat.Crypto.Replay.Window.{
  contains, greatest, fresh, Stands, new-Stands, contains-le_greatest, check_and_accept-Stands,
}

-- No element twice.
abbrev pub IsDistinct : List ℕ → Type 0
IsDistinct [] = Unit {0}
IsDistinct (x ∷ xs) = (contains x xs ≡ false) × IsDistinct xs

-- Every element is above the one before it.
abbrev pub IsIncreasing : List ℕ → Type 0
IsIncreasing [] = Unit {0}
IsIncreasing (x ∷ []) = Unit {0}
IsIncreasing (x ∷ y ∷ ys) = (x < y) × IsIncreasing (y ∷ ys)

fresh-contains : (seen : List ℕ) (c : ℕ) → fresh seen c ≡ true → contains c seen ≡ false
unfolding fresh
fresh-contains seen c h = ground (arith, contains-le_greatest c seen)

-- A counter that was accepted is never let through again.
receive_seen :
    (f : ReplayFilter) (seen : List ℕ) (cs : List ℕ) (x : ℕ)
    → Stands f seen
    → contains x seen ≡ true
    → contains x (receive f cs) ≡ false
unfolding receive contains
receive_seen f seen [] x v h = refl
receive_seen f seen (c ∷ cs) x v h =
    let (decides, stands) = check_and_accept-Stands f seen c v in
    elim (Bool-cases (fresh seen c)) [
      | inl new ↦
          let rest =
            receive_seen (check_and_accept f c).1 (c ∷ seen) cs x (rw new at stands)
              (ground arith) in
          ground (arith, fresh-contains seen c new)
      | inr old ↦
          let rest = receive_seen (check_and_accept f c).1 seen cs x (rw old at stands) h in
          ground arith
    ]

receive-IsDistinct :
    (f : ReplayFilter) (seen : List ℕ) (cs : List ℕ) → Stands f seen → IsDistinct (receive f cs)
unfolding receive contains
receive-IsDistinct f seen [] v = tt
receive-IsDistinct f seen (c ∷ cs) v =
    let (decides, stands) = check_and_accept-Stands f seen c v in
    elim (Bool-cases (fresh seen c)) [
      | inl new ↦
          let next : Stands (check_and_accept f c).1 (c ∷ seen) = rw new at stands in
          rw (decides, new)
            (
              receive_seen (check_and_accept f c).1 (c ∷ seen) cs c next (ground arith),
              receive-IsDistinct (check_and_accept f c).1 (c ∷ seen) cs next,
            )
      | inr old ↦
          rw (decides, old) (receive-IsDistinct (check_and_accept f c).1 seen cs (rw old at stands))
    ]

-- Whatever counters arrive, in whatever order, a new filter lets none of them through twice.
pub receive_once : (cs : List ℕ) → IsDistinct (receive new cs)
receive_once cs = receive-IsDistinct new [] cs new-Stands

receive_above :
    (f : ReplayFilter) (seen : List ℕ) (c : ℕ) (cs : List ℕ)
    → Stands f seen
    → fresh seen c ≡ true
    → IsIncreasing (c ∷ cs)
    → (greatest seen ≤ c)
    → receive f (c ∷ cs) ≡ c ∷ cs
unfolding receive fresh greatest
receive_above f seen c [] v h i g = ground (arith, check_and_accept-Stands f seen c v)
receive_above f seen c (d ∷ cs) v h i g =
    let (decides, stands) = check_and_accept-Stands f seen c v in
    let next : Stands (check_and_accept f c).1 (c ∷ seen) = rw h at stands in
    ground (
      arith,
      decides,
      receive_above (check_and_accept f c).1 (c ∷ seen) d cs next (ground arith) i.1 (ground arith),
    )

-- Counters that only grow, as those of one sender do, are all let through.
pub receive_increasing : (cs : List ℕ) → IsIncreasing cs → receive new cs ≡ cs
unfolding receive
receive_increasing [] i = refl
receive_increasing (c ∷ cs) i =
    receive_above new [] c cs new-Stands (unfold fresh contains greatest in ground arith) i
      (unfold greatest in omega arith)

-- A counter that was just checked is refused.
pub check_and_accept_again :
    (f : ReplayFilter) (seen : List ℕ) (c : ℕ)
    → Stands f seen
    → (check_and_accept (check_and_accept f c).1 c).0 ≡ false
unfolding fresh contains greatest
check_and_accept_again f seen c v =
    let (decides, stands) = check_and_accept-Stands f seen c v in
    elim (Bool-cases (fresh seen c)) [
      | inl new ↦
          let next : Stands (check_and_accept f c).1 (c ∷ seen) = rw new at stands in
          ground (arith, check_and_accept-Stands (check_and_accept f c).1 (c ∷ seen) c next)
      | inr old ↦
          let next : Stands (check_and_accept f c).1 seen = rw old at stands in
          ground (arith, check_and_accept-Stands (check_and_accept f c).1 seen c next)
    ]
