-- ===== src/Base/Seq.antt =====
-- `Vec` operations by position, as the standard library defines them.
use voicechat.Base.Tests.{if◌then◌else◌}
use voicechat.Base.Lists.{length}
use Prim.Native.Nat.{ℕ, zero, suc}
use mathlib.Core.Path.{◌≡◌, refl}
use mathlib.Core.Bool.{Bool, false, ◌||◌}
use mathlib.Core.List.{List, [], ◌∷◌}
use mathlib.Core.Option.{Option, none, some}
use native.Mathlib.Omega.{arith}

module _ {ℓ} {A : Type ℓ} where
  -- `iter().position(p)`.
  unfoldable pub position : (A → Bool) → List A → Option ℕ
  position p [] = none
  position p (x ∷ xs) =
      if p x then some 0 else elim (position p xs) [ none ↦ none | some i ↦ some (suc i) ]

  -- `iter().any(p)`.
  unfoldable pub any : (A → Bool) → List A → Bool
  any p [] = false
  any p (x ∷ xs) = p x || any p xs

  -- `v.insert(i, x)`, for `i` up to the length.
  unfoldable pub insert : ℕ → A → List A → List A
  insert zero a xs = a ∷ xs
  insert (suc i) a [] = a ∷ []
  insert (suc i) a (x ∷ xs) = x ∷ insert i a xs

  -- `v.remove(i)`: what is taken out, and what is left; `none` is out of range.
  unfoldable pub remove : ℕ → List A → Option (A × List A)
  remove i [] = none
  remove zero (x ∷ xs) = some (x, xs)
  remove (suc i) (x ∷ xs) = elim (remove i xs) [ none ↦ none | some (a, ys) ↦ some (a, x ∷ ys) ]

  -- `o.unwrap_or(d)`.
  abbrev pub unwrap_or : Option A → A → A
  unwrap_or none d = d
  unwrap_or (some a) d = a

  pub length-insert : (i : ℕ) (a : A) (xs : List A) → length (insert i a xs) ≡ suc (length xs)
  unfolding insert
  length-insert zero a xs = refl
  length-insert (suc i) a [] = refl
  length-insert (suc i) a (x ∷ xs) = omega (arith, length-insert i a xs)
