-- ===== src/Net/Header/Unique.antt =====
-- The headers of vc-core/src/net.rs and their bytes, one to one.
use voicechat.Base.{
  ℕ, List, [], ◌++◌, ◌≡◌, ◌∙◌, ap, sym, ok, take, take-append, All, inl, inr, IsByte, IsArray,
  arith,
}
use mathlib.Core.List.{append-nil}
use native.Mathlib.Bridge.{le_prop}
use std.Equiv.{IsContr}
use std.HLevel.{Σ_prop_path}
use voicechat.Net.Header.{
  PacketHeader, IsHeader, to_bytes, from_bytes, from_bytes-to_bytes, to_bytes-from_bytes,
}

List-ℕ_set : IsSet (List ℕ)
List-ℕ_set = hlevel

IsHeader-prop : (h : PacketHeader) → IsProp (IsHeader h)
IsHeader-prop h = hlevel le_prop

-- A header in range that has these bytes.
abbrev pub IsHeaderOf : List ℕ → PacketHeader → Type 0
IsHeaderOf buf h = IsHeader h × (to_bytes h ≡ buf)

IsHeaderOf-prop : (buf : List ℕ) (h : PacketHeader) → IsProp (IsHeaderOf buf h)
IsHeaderOf-prop buf h = hlevel (IsHeader-prop h, List-ℕ_set)

-- Two headers with the same bytes are the same.
same_header : (h k : PacketHeader) → IsHeader h → IsHeader k → to_bytes h ≡ to_bytes k → h ≡ k
same_header h k hv kv e =
    let same : ok h ≡ ok k =
      sym (from_bytes-to_bytes h [] hv)
      ∙ ap (λ bs. from_bytes (bs ++ [])) e
      ∙ from_bytes-to_bytes k [] kv in
    ground arith

whole : (buf : List ℕ) → IsArray 8 buf → take 8 buf ≡ buf
whole buf n = ap (take 8) (sym (append-nil buf)) ∙ take-append buf [] 8 (sym n)

read_bytes :
    (buf : List ℕ)
    → IsArray 8 buf
    → All IsByte buf
    → (h : PacketHeader) × (from_bytes buf ≡ ok h) × IsHeader h × (to_bytes h ≡ buf)
read_bytes buf n v = elim (to_bytes-from_bytes buf v) [
  | inl (short, _) ↦ absurd (omega arith)
  | inr (h, read, valid, bytes) ↦ (h, read, valid, bytes ∙ whole buf n)
]

-- Any eight bytes are the bytes of exactly one header with fields in the ranges of their types, and
-- that header is the one that `from_bytes` reads from them.
pub header_unique :
    (buf : List ℕ)
    → IsArray 8 buf
    → All IsByte buf
    → (one : IsContr ((h : PacketHeader) × IsHeaderOf buf h)) × (from_bytes buf ≡ ok one.0.0)
header_unique buf n v =
    let (h, read, valid, bytes) = read_bytes buf n v in
    (
      (
        (h, (valid, bytes)),
        λ other.
            Σ_prop_path {B = IsHeaderOf buf} (IsHeaderOf-prop buf)
              (same_header other.0 h other.1.0 valid (other.1.1 ∙ sym bytes)),
      ),
      read,
    )
