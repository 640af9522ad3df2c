-- ===== src/Net/PeerList/Panics.antt =====
-- Where reading a peer list panics: the version marker behind an id is read with no check.
use voicechat.Base.{
  ℕ, zero, suc, ◌+◌, ◌-◌, ◌≤◌, ◌<◌, List, ◌∷◌, [], ◌++◌, ◌≡◌, refl, sym, panic, length,
  length-append, drop, drop-append, get_elem?, some, All, IsArray, arith, none, ◌≢◌, ◌↔◌,
}
use native.Mathlib.Decide.{dec_lt}
use voicechat.Net.PeerList.{
  PeerEntry, entries_to_bytes, read_addr, read_entry, read_entries, from_bytes,
}
use voicechat.Net.PeerList.RoundTrip.{
  IsEntry, read_entries_prefix, get_elem?-behind, drop-behind, length-behind,
}

get_elem?_lt {ℓ} :
    {A : Type ℓ} (xs : List A) (i : ℕ) → i < length xs → (a : A) × (get_elem? xs i ≡ some a)
get_elem?_lt [] i h = elim h [ ]
get_elem?_lt (x ∷ xs) zero h = (x, refl)
get_elem?_lt (x ∷ xs) (suc i) h = get_elem?_lt xs i (omega arith)

get_elem?_ge {ℓ} : {A : Type ℓ} (xs : List A) (i : ℕ) → length xs ≤ i → get_elem? xs i ≡ none
get_elem?_ge [] i h = refl
get_elem?_ge (x ∷ xs) zero h = absurd (omega arith)
get_elem?_ge (x ∷ xs) (suc i) h = get_elem?_ge xs i (omega arith)

read_addr-ne-panic : (bytes : List ℕ) (ip_ver offset : ℕ) → read_addr bytes ip_ver offset ≢ panic
unfolding read_addr
read_addr-ne-panic bytes ip_ver offset e = ground (
  arith,
  get_elem?_lt bytes offset,
  get_elem?_lt bytes (offset + 1),
  get_elem?_lt bytes (offset + 2),
  get_elem?_lt bytes (offset + 3),
  get_elem?_lt bytes (offset + 4),
  get_elem?_lt bytes (offset + 5),
  get_elem?_lt bytes (offset + 16),
  get_elem?_lt bytes (offset + 17),
)

-- Reading an entry panics exactly when one byte is left: an id with no version marker behind it.
pub read_entry-panic_iff :
    (bytes : List ℕ) (offset : ℕ) → (read_entry bytes offset ≡ panic) ↔ (length bytes ≡ offset + 1)
unfolding read_entry
read_entry-panic_iff bytes offset = (
  λ e. short e,
  λ e.
      let (id, first) = get_elem?_lt bytes offset (omega arith) in
      ground (arith, first, get_elem?_ge bytes (offset + 1)),
)
  where
    short : read_entry bytes offset ≡ panic → length bytes ≡ offset + 1
    short e = elim (dec_lt (offset + 1) (length bytes)) [
      | yes long ↦
          let (id, first) = get_elem?_lt bytes offset (omega arith) in
          let (ip_ver, second) = get_elem?_lt bytes (offset + 1) long in
          absurd (ground (arith, first, second, read_addr-ne-panic bytes ip_ver (offset + 1 + 1)))
      | no h ↦ ground arith
    ]

-- A payload that ends right behind the id of an entry that its count still asks for makes
-- `from_bytes` panic, whatever whole entries come first.
pub from_bytes_cut_after_id :
    (session_id : List ℕ) (count id : ℕ) (ps : List PeerEntry)
    → IsArray 8 session_id
    → length ps < count
    → All IsEntry ps
    → from_bytes (session_id ++ (count ∷ (entries_to_bytes ps ++ id ∷ []))) ≡ panic
unfolding from_bytes read_entries
from_bytes_cut_after_id session_id count id ps s n v =
    let tail : List ℕ = entries_to_bytes ps ++ id ∷ [] in
    let whole : List ℕ = session_id ++ count ∷ tail in
    let behind : drop 8 whole ≡ count ∷ tail = drop-append session_id (count ∷ tail) 8 (sym s) in
    let (end, reads, left) =
      read_entries_prefix ps count (suc (count - length ps - 1)) whole 9 [] (id ∷ []) v
        (omega arith) (drop-behind whole 8 (count ∷ tail) behind 1) in
    let cut =
      (read_entry-panic_iff whole end).1 (omega (arith, length-behind whole end (id ∷ []) left)) in
    ground (
      arith,
      length-append session_id (count ∷ tail),
      get_elem?-behind whole 8 (count ∷ tail) behind 0,
      reads,
      cut,
    )
