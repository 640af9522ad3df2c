-- ===== src/Base/Table.antt =====
-- `HashMap`: an association list in which no key stands twice. The order of the list stands for the
-- map's unspecified order of iteration, and no theorem depends on it.
pub mod Behind
use voicechat.Base.Lists.{length}
use Prim.Native.Nat.{suc, ◌+◌, ◌≤◌}
use mathlib.Core.Path.{◌≡◌, refl, ap}
use mathlib.Core.Logic.{ite}
use mathlib.Core.List.{List, [], ◌∷◌}
use mathlib.Core.Option
use mathlib.Core.Option.{Option, none, some}
use native.Mathlib.Omega.{arith}

module _ {ℓ} {K : Type 0} {V : Type ℓ} (d : Discrete K) where
  unfoldable pub get : K → List (K × V) → Option V
  get k [] = none
  get k ((j, v) ∷ m) = ite (d j k) (some v) (get k m)

  unfoldable pub insert : K → V → List (K × V) → List (K × V)
  insert k v [] = (k, v) ∷ []
  insert k v ((j, w) ∷ m) = ite (d j k) ((k, v) ∷ m) ((j, w) ∷ insert k v m)

  unfoldable pub remove : K → List (K × V) → List (K × V)
  remove k [] = []
  remove k ((j, w) ∷ m) = ite (d j k) m ((j, w) ∷ remove k m)

  -- No key twice.
  abbrev pub IsMap : List (K × V) → Type ℓ
  IsMap [] = Unit {ℓ}
  IsMap ((j, v) ∷ m) = (get j m ≡ none) × IsMap m

  pub get-insert :
      (k j : K) (v : V) (m : List (K × V)) → get j (insert k v m) ≡ ite (d k j) (some v) (get j m)
  unfolding get insert
  get-insert k j v [] = refl
  get-insert k j v ((i, w) ∷ m) = ground (arith, get-insert k j v m)

  pub get-remove :
      (k j : K) (m : List (K × V)) → IsMap m → get j (remove k m) ≡ ite (d k j) none (get j m)
  unfolding get remove
  get-remove k j [] h = ground arith
  get-remove k j ((i, w) ∷ m) h = ground (arith, get-remove k j m h.1)

  pub insert-IsMap : (k : K) (v : V) (m : List (K × V)) → IsMap m → IsMap (insert k v m)
  unfolding get insert
  insert-IsMap k v [] h = (refl, h)
  insert-IsMap k v ((i, w) ∷ m) h = ground (arith, insert-IsMap k v m h.1, get-insert k i v m)

  pub remove-IsMap : (k : K) (m : List (K × V)) → IsMap m → IsMap (remove k m)
  unfolding get remove
  remove-IsMap k [] h = h
  remove-IsMap k ((i, w) ∷ m) h = ground (arith, remove-IsMap k m h.1, get-remove k i m h.1)

  pub length-insert :
      (k : K) (v : V) (m : List (K × V))
      → length (insert k v m) ≡ elim (get k m) [ none ↦ suc (length m) | some w ↦ length m ]
  unfolding get insert
  length-insert k v [] = refl
  length-insert k v ((i, w) ∷ m) = ground (arith, length-insert k v m)

  pub length-remove-le : (k : K) (m : List (K × V)) → length (remove k m) ≤ length m
  unfolding remove
  length-remove-le k [] = omega arith
  length-remove-le k ((i, w) ∷ m) = ground (arith, length-remove-le k m)

  pub length-remove :
      (k : K) (m : List (K × V)) (v : V) → get k m ≡ some v → length (remove k m) + 1 ≡ length m
  unfolding get remove
  length-remove k [] v h = cc
  length-remove k ((i, w) ∷ m) v h = ground (arith, length-remove k m v)

  -- `get_mut(k)`, and what the caller then does to the value.
  unfoldable pub modify : K → (V → V) → List (K × V) → List (K × V)
  modify k f [] = []
  modify k f ((j, v) ∷ m) = ite (d j k) ((j, f v) ∷ m) ((j, v) ∷ modify k f m)

  pub get-modify :
      (k j : K) (f : V → V) (m : List (K × V))
      → get j (modify k f m) ≡ ite (d k j) (Option.map f (get j m)) (get j m)
  unfolding get modify
  get-modify k j f [] = ground arith
  get-modify k j f ((i, w) ∷ m) = ground (arith, get-modify k j f m)

  pub length-modify : (k : K) (f : V → V) (m : List (K × V)) → length (modify k f m) ≡ length m
  unfolding modify
  length-modify k f [] = refl
  length-modify k f ((i, w) ∷ m) = ground (arith, length-modify k f m)

  pub modify-IsMap : (k : K) (f : V → V) (m : List (K × V)) → IsMap m → IsMap (modify k f m)
  unfolding get modify
  modify-IsMap k f [] h = h
  modify-IsMap k f ((i, w) ∷ m) h = ground (arith, modify-IsMap k f m h.1, get-modify k i f m)

  -- `values_mut()`: the same done to every value.
  unfoldable pub map_values : (V → V) → List (K × V) → List (K × V)
  map_values f [] = []
  map_values f ((j, v) ∷ m) = (j, f v) ∷ map_values f m

  pub get-map_values :
      (j : K) (f : V → V) (m : List (K × V)) → get j (map_values f m) ≡ Option.map f (get j m)
  unfolding get map_values
  get-map_values j f [] = refl
  get-map_values j f ((i, w) ∷ m) = ground (arith, get-map_values j f m)

  pub length-map_values : (f : V → V) (m : List (K × V)) → length (map_values f m) ≡ length m
  unfolding map_values
  length-map_values f [] = refl
  length-map_values f ((i, w) ∷ m) = ap suc (length-map_values f m)

  pub map_values-IsMap : (f : V → V) (m : List (K × V)) → IsMap m → IsMap (map_values f m)
  unfolding get map_values
  map_values-IsMap f [] h = h
  map_values-IsMap f ((i, w) ∷ m) h = ground (arith, map_values-IsMap f m h.1, get-map_values i f m)
