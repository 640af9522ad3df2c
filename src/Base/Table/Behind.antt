-- ===== src/Base/Table/Behind.antt =====
-- Tables that are gone through from the first entry to the last.
use voicechat.Base.{ℕ, List, ◌∷◌, [], ◌++◌, ◌≡◌, ◌≢◌, some, none, All, arith}
use native.Mathlib.Decide.{ℕ_discrete}
use voicechat.Base.Table

-- A table with an entry behind others that do not have its key.
module _ {V : Type 0} (k : ℕ) (v : V) where
  pub get_behind :
      (done m : List (ℕ × V))
      → Table.get ℕ_discrete k done ≡ none
      → Table.get ℕ_discrete k (done ++ (k, v) ∷ m) ≡ some v
  unfolding Table.get
  get_behind [] m new = ground arith
  get_behind ((j, w) ∷ done) m new = ground (arith, get_behind done m)

  pub modify_behind :
      (f : V → V) (done m : List (ℕ × V))
      → Table.get ℕ_discrete k done ≡ none
      → Table.modify ℕ_discrete k f (done ++ (k, v) ∷ m) ≡ done ++ (k, f v) ∷ m
  unfolding Table.get Table.modify
  modify_behind f [] m new = ground arith
  modify_behind f ((j, w) ∷ done) m new = ground (arith, modify_behind f done m)

  get_before :
      (j : ℕ) (done : List (ℕ × V))
      → Table.get ℕ_discrete j done ≡ none
      → j ≢ k
      → Table.get ℕ_discrete j (done ++ (k, v) ∷ []) ≡ none
  unfolding Table.get
  get_before j [] new other = ground arith
  get_before j ((i, w) ∷ done) new other = ground (arith, get_before j done)

  -- The keys of a table that does not have `k` are still new behind an entry for `k`.
  pub still_new :
      (done m : List (ℕ × V))
      → Table.get ℕ_discrete k m ≡ none
      → All (λ (e : ℕ × V). Table.get ℕ_discrete e.0 done ≡ none) m
      → All (λ (e : ℕ × V). Table.get ℕ_discrete e.0 (done ++ (k, v) ∷ []) ≡ none) m
  unfolding Table.get
  still_new done [] new h = tt
  still_new done ((j, w) ∷ m) new h =
      (get_before j done h.0 (λ e. ground arith), still_new done m (ground arith) h.1)
