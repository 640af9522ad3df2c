-- ===== src/Net/PeerList/RoundTrip.antt =====
-- A peer list that was written is read back.
use voicechat.Base.{
  ℕ, zero, suc, ◌+◌, ◌-◌, ◌%◌, ◌<◌, List, ◌∷◌, [], ◌++◌, ◌≡◌, sym, ap, ◌∙◌, ok, length,
  length-append, length-drop, take, drop, take-append, drop-append, drop-drop, get_elem?,
  get_elem?-drop, All, IsByte, IsArray, arith,
}
use voicechat.Base.Bytes.{u16_to_be_bytes, u16_from_be_bytes-to_be_bytes}
use mathlib.Core.List.{append_assoc, append-nil}
use voicechat.Net.Addr.{v4, v6, IsAddr, IsPlain}
use voicechat.Net.PeerList.{
  PeerEntry, PeerListPayload, entry_to_bytes, entries_to_bytes, to_bytes, read_addr, read_entry,
  read_entries, from_bytes,
}

abbrev pub IsEntry : PeerEntry → Type 0
IsEntry (id, addr) = IsByte id × IsAddr addr × IsPlain addr

-- What stands at and behind an offset, from what is left there.
module _ (bytes : List ℕ) (offset : ℕ) (left : List ℕ) (e : drop offset bytes ≡ left) where
  pub get_elem?-behind : (k : ℕ) → get_elem? bytes (offset + k) ≡ get_elem? left k
  get_elem?-behind k = sym (get_elem?-drop offset k bytes) ∙ ap (λ l. get_elem? l k) e

  pub drop-behind : (k : ℕ) → drop (offset + k) bytes ≡ drop k left
  drop-behind k = sym (drop-drop offset k bytes) ∙ ap (drop k) e

  pub length-behind : length left ≡ length bytes - offset
  length-behind = ap length (sym e) ∙ length-drop offset bytes

read_entry-entry_to_bytes :
    (bytes : List ℕ) (offset : ℕ) (p : PeerEntry) (rest : List ℕ)
    → IsEntry p
    → drop offset bytes ≡ entry_to_bytes p ++ rest
    → (read_entry bytes offset ≡ ok (p, offset + length (entry_to_bytes p)))
      × (drop (offset + length (entry_to_bytes p)) bytes ≡ rest)
unfolding read_entry entry_to_bytes read_addr u16_to_be_bytes
read_entry-entry_to_bytes bytes offset (id, v4 a b c d port) rest v e =
    let at = get_elem?-behind bytes offset _ e in
    (
      ground (
        arith,
        length-behind bytes offset _ e,
        at 0,
        at 1,
        at 2,
        at 3,
        at 4,
        at 5,
        at 6,
        at 7,
        u16_from_be_bytes-to_be_bytes port,
      ),
      drop-behind bytes offset _ e 8,
    )
read_entry-entry_to_bytes bytes offset (id, v6 octets port flowinfo scope_id) rest v e =
    let left : List ℕ = id ∷ 6 ∷ ((octets ++ u16_to_be_bytes port) ++ rest) in
    let at = get_elem?-behind bytes offset left e in
    let tail = append_assoc octets (u16_to_be_bytes port) rest in
    let behind : drop (offset + 18) bytes ≡ u16_to_be_bytes port ++ rest =
      drop-behind bytes offset left e 18
      ∙ ap (drop 16) tail
      ∙ drop-append octets (u16_to_be_bytes port ++ rest) 16 (sym v.1.0) in
    let octets_at : take 16 (drop (offset + 2) bytes) ≡ octets =
      ap (take 16) (drop-behind bytes offset left e 2 ∙ tail)
      ∙ take-append octets (u16_to_be_bytes port ++ rest) 16 (sym v.1.0) in
    (
      ground (
        arith,
        length-behind bytes offset left e,
        length-append octets (u16_to_be_bytes port),
        length-append (octets ++ u16_to_be_bytes port) rest,
        at 0,
        at 1,
        octets_at,
        get_elem?-behind bytes (offset + 18) _ behind 0,
        get_elem?-behind bytes (offset + 18) _ behind 1,
        u16_from_be_bytes-to_be_bytes port,
      ),
      ground (
        arith,
        length-append octets (u16_to_be_bytes port),
        drop-behind bytes (offset + 18) _ behind 2,
      ),
    )

-- The loop reads the entries that were written, and goes on behind them.
pub read_entries_prefix :
    (ps : List PeerEntry) (rounds more : ℕ) (bytes : List ℕ) (offset : ℕ) (seen : List PeerEntry)
    (rest : List ℕ)
    → All IsEntry ps
    → rounds ≡ length ps + more
    → drop offset bytes ≡ entries_to_bytes ps ++ rest
    → (behind : ℕ) × (read_entries rounds bytes offset seen
        ≡ read_entries more bytes behind (seen ++ ps))
      × (drop behind bytes ≡ rest)
unfolding read_entries entries_to_bytes
read_entries_prefix [] rounds more bytes offset seen rest v n e =
    let same : rounds ≡ more = omega arith in (offset, rw (same, append-nil), e)
read_entries_prefix (p ∷ ps) zero more bytes offset seen rest v n e = absurd (omega arith)
read_entries_prefix (p ∷ ps) (suc rounds) more bytes offset seen rest v n e =
    let (read, behind) =
      read_entry-entry_to_bytes bytes offset p (entries_to_bytes ps ++ rest) v.0
        (e ∙ append_assoc (entry_to_bytes p) (entries_to_bytes ps) rest) in
    let (end, reads, left) =
      read_entries_prefix ps rounds more bytes _ (seen ++ p ∷ []) rest v.1 (omega arith) behind in
    (end, rw read (reads ∙ ap (read_entries more bytes end) (append_assoc seen (p ∷ []) ps)), left)

-- A peer list of at most 255 entries, whose IPv6 addresses carry no flow information and no scope,
-- is read back from its bytes, whatever follows them.
pub peer_list_round_trip :
    (p : PeerListPayload) (rest : List ℕ)
    → IsArray 8 p.session_id
    → length p.peers < 256
    → All IsEntry p.peers
    → from_bytes (to_bytes p ++ rest) ≡ ok p
unfolding from_bytes to_bytes read_entries
peer_list_round_trip p rest s n v =
    let body : List ℕ = length p.peers % 256 ∷ entries_to_bytes p.peers in
    let whole : List ℕ = (p.session_id ++ body) ++ rest in
    let split = append_assoc p.session_id body rest in
    let behind : drop 8 whole ≡ body ++ rest =
      ap (drop 8) split ∙ drop-append p.session_id (body ++ rest) 8 (sym s) in
    let count : length p.peers % 256 ≡ length p.peers = omega arith in
    let all_read =
      read_entries_prefix p.peers (length p.peers) 0 whole 9 [] rest v (omega arith)
        (drop-behind whole 8 (body ++ rest) behind 1) in
    ground (
      arith,
      length-append (p.session_id ++ body) rest,
      length-append p.session_id body,
      ap (take 8) split ∙ take-append p.session_id (body ++ rest) 8 (sym s),
      get_elem?-behind whole 8 (body ++ rest) behind 0,
      count,
      all_read.1,
    )
