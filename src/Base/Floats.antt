-- ===== src/Base/Floats.antt =====
-- IEEE floats are not computed here: the operations that the code uses of `f64` and `f32`, as
-- parameters of the development.
use Prim.Native.Nat.{ℕ}
use mathlib.Core.Bool.{Bool}
use mathlib.Core.List.{List}
use voicechat.Base.Int.{ℤ}

pub record Float64 : Type 1 where
  pub F64 : Type 0
  -- `n as f64`, `x as u64`, and the literal m / 10^k.
  pub of_u64 : ℕ → F64
  pub to_u64 : F64 → ℕ
  pub literal : ℕ → ℕ → F64
  pub add : F64 → F64 → F64
  pub sub : F64 → F64 → F64
  pub mul : F64 → F64 → F64
  pub div : F64 → F64 → F64
  pub abs : F64 → F64
  -- `x < y` and `x <= y`.
  pub lt : F64 → F64 → Bool
  pub le : F64 → F64 → Bool

pub record Float32 : Type 1 where
  pub F32 : Type 0
  pub literal : ℕ → ℕ → F32
  pub neg : F32 → F32
  pub neg_infinity : F32
  -- `n as f32` of an index or an `i16`, and `x as i16`.
  pub of_ℕ : ℕ → F32
  pub of_i16 : ℤ → F32
  pub to_i16 : F32 → ℤ
  pub add : F32 → F32 → F32
  pub mul : F32 → F32 → F32
  pub div : F32 → F32 → F32
  -- `iter().sum()`.
  pub sum : List F32 → F32
  pub sqrt : F32 → F32
  pub log10 : F32 → F32
  pub tanh : F32 → F32
  pub clamp : F32 → F32 → F32 → F32
  pub lt : F32 → F32 → Bool
