-- ===== src/Crypto/Replay/Window.antt =====
-- The filter keeps, of all the counters that it accepted, those of the last 64 values.
use voicechat.Base.{
  ℕ, zero, suc, ◌+◌, ◌-◌, ◌*◌, ◌%◌, ◌^◌, ◌≤◌, ◌<◌, max, List, ◌∷◌, [], ◌≡◌, refl, ap, ◌∙◌, ltb, leb,
  ◌==◌, ltb→lt, ltb→le, Bool-cases, if◌then◌else◌, Bool, true, false, not, ◌&&◌, ◌||◌, arith, inl,
  inr,
}
use Prim.Native.Nat.{bit_and, bit_or}
use voicechat.Base.Bits.{
  bit, bit_le_one, bit-zero, bit-two_pow, bit-mod, bit-shift_low, bit-shift_high, bit-bit_or,
  bit_and-two_pow, two_pow_pos, two_pow_suc,
}
use native.Mathlib.Nat.{one-mul, mod-eq_of_lt}
use voicechat.Crypto.Replay.{ReplayFilter, new, shl64, accept_newer, accept_older, check_and_accept}

-- The specification: the counters that were accepted, and nothing else.
unfoldable pub contains : ℕ → List ℕ → Bool
contains c [] = false
contains c (x ∷ xs) = c == x || contains c xs

unfoldable pub greatest : List ℕ → ℕ
greatest [] = 0
greatest (x ∷ xs) = max x (greatest xs)

-- A counter is fresh above the greatest accepted one, and within 64 below it if not yet accepted.
unfoldable pub fresh : List ℕ → ℕ → Bool
fresh seen c = ltb (greatest seen) c || (ltb (greatest seen - c) 64 && not (contains c seen))

-- The filter stands for the list of accepted counters.
pub record Stands (f : ReplayFilter) (seen : List ℕ) : Type 0 where
  pub top : f.highest ≡ greatest seen
  pub window :
      (d : ℕ)
      → d < 64
      → d ≤ f.highest
      → bit f.bitmap d ≡ (if contains (f.highest - d) seen then 1 else 0)

pub contains-le_greatest : (c : ℕ) (xs : List ℕ) → greatest xs < c → contains c xs ≡ false
unfolding contains greatest
contains-le_greatest c [] h = refl
contains-le_greatest c (x ∷ xs) h = ground (arith, contains-le_greatest c xs)

pub new-Stands : Stands new []
unfolding new greatest contains
new-Stands = record { top = refl; window = λ d h k. bit-zero d }

two_pow-lt : (k w : ℕ) → k < w → 2 ^ k < 2 ^ w
two_pow-lt k zero h = elim h [ ]
two_pow-lt zero (suc w) h = omega (arith, two_pow_suc w, two_pow_pos w)
two_pow-lt (suc k) (suc w) h =
    omega (arith, two_pow_suc k, two_pow_suc w, two_pow-lt k w (omega arith))

shl64-one : (k : ℕ) → k < 64 → shl64 1 k ≡ 2 ^ k
shl64-one k h = ap (λ (n : ℕ). n % 2 ^ 64) (one-mul (2 ^ k)) ∙ mod-eq_of_lt (two_pow-lt k 64 h)

-- `bits & (1 << k) != 0`, and `bits | (1 << k)`.
test_bit : (b k : ℕ) → k < 64 → not (bit_and b (shl64 1 k) == 0) ≡ (bit b k == 1)
test_bit b k h =
    rw (shl64-one k h, bit_and-two_pow b k)
      (ground (arith, bit_le_one b k, two_pow_pos k, ap (λ (n : ℕ). n * 2 ^ k) one_or_zero))
  where
    one_or_zero : bit b k ≡ (if bit b k == 1 then 1 else 0)
    one_or_zero = ground (arith, bit_le_one b k)

set_bit : (b k d : ℕ) → k < 64 → bit (bit_or b (shl64 1 k)) d ≡ (if d == k then 1 else bit b d)
set_bit b k d h = rw (shl64-one k h, bit-bit_or, bit-two_pow) (ground (arith, bit_le_one b d))

-- The new bitmap's bit `d`, for a counter above the old ones.
shifted_bit :
    (b shift d : ℕ)
    → 0 < shift
    → d < 64
    → bit (bit_or (shl64 b shift) 1) d
      ≡ (if d == 0 then 1 else if ltb d shift then 0 else bit b (d - shift))
shifted_bit b shift d h w =
    set_bit (shl64 b shift) 0 d (omega arith)
    ∙ ap (λ n. if d == 0 then 1 else n) (bit-mod 64 (b * 2 ^ shift) d w ∙ unwrapped)
  where
    unwrapped : bit (b * 2 ^ shift) d ≡ (if ltb d shift then 0 else bit b (d - shift))
    unwrapped = elim (Bool-cases (ltb d shift)) [
      | inl low ↦ rw low (bit-shift_low shift b d (ltb→lt _ _ low))
      | inr high ↦ rw high (
          ap (bit (b * 2 ^ shift)) {x = d} {y = shift + (d - shift)}
            (omega (arith, ltb→le _ _ high))
          ∙ bit-shift_high shift b (d - shift))
    ]

cleared_bit : (d : ℕ) → bit (bit_or 0 1) d ≡ (if d == 0 then 1 else 0)
cleared_bit d = set_bit 0 0 d (omega arith) ∙ ap (λ n. if d == 0 then 1 else n) (bit-zero d)

module _ (f : ReplayFilter) (seen : List ℕ) (c : ℕ) (v : Stands f seen) where
  accept_newer-Stands : f.highest < c → Stands (accept_newer f c).1 (c ∷ seen)
  unfolding accept_newer greatest contains
  accept_newer-Stands h = record {
    top = omega (arith, v.top);
    window = λ d w k. ground (
      arith,
      shifted_bit f.bitmap (c - f.highest) d (omega arith) w,
      cleared_bit d,
      contains-le_greatest (c - d) seen,
      v.top,
      v.window (d - (c - f.highest)),
      ap (λ n. contains n seen) {x = f.highest - (d - (c - f.highest))} {y = c - d},
    );
  }

  -- What the tested bit says of a counter in the window.
  seen_bit :
      c ≤ f.highest
      → f.highest - c < 64
      → not (bit_and f.bitmap (shl64 1 (f.highest - c)) == 0) ≡ contains c seen
  seen_bit h w =
      test_bit f.bitmap (f.highest - c) w
      ∙ ground (
        arith,
        v.window (f.highest - c) w,
        ap (λ n. contains n seen) {x = f.highest - (f.highest - c)} {y = c},
      )

  marked-Stands :
      c ≤ f.highest
      → f.highest - c < 64
      → Stands (record f { bitmap = bit_or f.bitmap (shl64 1 (f.highest - c)) }) (c ∷ seen)
  unfolding greatest contains
  marked-Stands h w = record {
    top = omega (arith, v.top);
    window = λ e u k. ground (arith, set_bit f.bitmap (f.highest - c) e w, v.window e u);
  }

  accept_older-Stands :
      c ≤ f.highest
      → ((accept_older f c).0 ≡ (ltb (f.highest - c) 64 && not (contains c seen)))
        × Stands (accept_older f c).1 (if (accept_older f c).0 then c ∷ seen else seen)
  unfolding accept_older
  accept_older-Stands h = elim (Bool-cases (leb 64 (f.highest - c))) [
    | inl old ↦ rw old (ground arith, v)
    | inr recent ↦ elim (Bool-cases (contains c seen)) [
      | inl dup ↦ rw (recent, seen_bit h (ground arith), dup) (ground arith, v)
      | inr new ↦
          rw (recent, seen_bit h (ground arith), new) (ground arith, marked-Stands h (ground arith))
    ]
  ]

accept_newer_lem : (f : ReplayFilter) (c : ℕ) → (accept_newer f c).0 ≡ true
unfolding accept_newer
accept_newer_lem f c = refl

-- On every counter the filter decides as the specification does, and stands for its next state.
pub check_and_accept-Stands :
    (f : ReplayFilter) (seen : List ℕ) (c : ℕ)
    → Stands f seen
    → ((check_and_accept f c).0 ≡ fresh seen c)
      × Stands (check_and_accept f c).1 (if fresh seen c then c ∷ seen else seen)
unfolding check_and_accept fresh
check_and_accept-Stands f seen c v = elim (Bool-cases (ltb f.highest c)) [
  | inl newer ↦
      let above : ltb (greatest seen) c ≡ true = ground (arith, v.top) in
      rw (newer, above) (accept_newer_lem f c, accept_newer-Stands f seen c v (ltb→lt _ _ newer))
  | inr older ↦
      let (decides, stands) = accept_older-Stands f seen c v (ltb→le _ _ older) in
      let below : ltb (greatest seen) c ≡ false = ground (arith, v.top) in
      rw (older, below, ← v.top, ← decides) (refl, stands)
]
