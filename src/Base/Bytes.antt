-- ===== src/Base/Bytes.antt =====
-- Bytes: a `u8` is a number below 256, a slice is a list of them. The big-endian forms of `u16`
-- and `u32` (`to_be_bytes`, `from_be_bytes`), and the results of fallible code.
use voicechat.Base.Tests.{ltb, if◌then◌else◌}
use voicechat.Base.Lists.{length, get_elem?, take, drop}
use Prim.Native.Nat.{ℕ, ◌+◌, ◌*◌, ◌/◌, ◌%◌, ◌<◌}
use mathlib.Core.Path.{◌≡◌}
use mathlib.Core.List.{List, [], ◌∷◌}
use mathlib.Core.Option.{Option, none, some}
use native.Mathlib.Omega.{arith}

abbrev pub IsByte : ℕ → Type 0
IsByte b = b < 256

abbrev pub IsU16 : ℕ → Type 0
IsU16 n = n < 65536

abbrev pub IsU32 : ℕ → Type 0
IsU32 n = n < 4294967296

-- An array `[u8; n]`.
abbrev pub IsArray : ℕ → List ℕ → Type 0
IsArray n bs = length bs ≡ n

unfoldable pub u16_to_be_bytes : ℕ → List ℕ
u16_to_be_bytes n = n / 256 % 256 ∷ n % 256 ∷ []

unfoldable pub u16_from_be_bytes : ℕ → ℕ → ℕ
u16_from_be_bytes a b = a * 256 + b

unfoldable pub u32_to_be_bytes : ℕ → List ℕ
u32_to_be_bytes n = n / 16777216 % 256 ∷ n / 65536 % 256 ∷ n / 256 % 256 ∷ n % 256 ∷ []

unfoldable pub u32_from_be_bytes : ℕ → ℕ → ℕ → ℕ → ℕ
u32_from_be_bytes a b c d = ((a * 256 + b) * 256 + c) * 256 + d

pub u16_from_be_bytes-to_be_bytes :
    (n : ℕ) → IsU16 n → u16_from_be_bytes (n / 256 % 256) (n % 256) ≡ n
unfolding u16_from_be_bytes
u16_from_be_bytes-to_be_bytes n h = omega arith

pub u32_from_be_bytes-to_be_bytes :
    (n : ℕ)
    → IsU32 n
    → u32_from_be_bytes (n / 16777216 % 256) (n / 65536 % 256) (n / 256 % 256) (n % 256) ≡ n
unfolding u32_from_be_bytes
u32_from_be_bytes-to_be_bytes n h = omega arith

pub u16_from_be_bytes-IsU16 : (a b : ℕ) → IsByte a → IsByte b → IsU16 (u16_from_be_bytes a b)
unfolding u16_from_be_bytes
u16_from_be_bytes-IsU16 a b ha hb = omega arith

-- What a call of the program can end in: a value, an `Err`, or a panic of the thread.
pub data Error : Type 0 where
  header_too_short packet_too_short : Error
  join_too_short ping_too_short key_exchange_too_short : Error
  peer_list_too_short peer_list_truncated unknown_ip_version : Error
  key_params key_hash counter_overflow encrypt_failed decrypt_failed : Error
  zero_shared_secret expand_failed : Error
  max_peers_reached not_host no_peer_ids : Error
  replay_detected non_host_join no_local_ip empty_peer_list unknown_packet_type : Error
  no_device_list device_not_found no_default_device play_failed no_supported_config : Error
  discovery_failed no_external_ip add_port_failed address_unreadable : Error
  encoder_init bitrate_refused fec_refused loss_perc_refused : Error
  decoder_init decode_failed invalid_packet encode_failed wrong_frame_length io_error : Error

pub data Result {ℓ} (A : Type ℓ) : Type ℓ where
  ok : A → Result A
  err : Error → Result A
  panic : Result A

infixl 5 ◌>>=◌
abbrev pub ◌>>=◌ {ℓ κ} : {A : Type ℓ} {B : Type κ} → Result A → (A → Result B) → Result B
ok a >>= f = f a
err e >>= f = err e
panic >>= f = panic

abbrev or_panic {ℓ} : {A : Type ℓ} → Option A → Result A
or_panic none = panic
or_panic (some a) = ok a

-- `bs[i]`.
abbrev pub index {ℓ} : {A : Type ℓ} → List A → ℕ → Result A
index bs i = or_panic (get_elem? bs i)

-- `bs[i..i + n]`.
abbrev pub slice {ℓ} : {A : Type ℓ} → List A → ℕ → ℕ → Result (List A)
slice bs i n = if ltb (length bs) (i + n) then panic else ok (take n (drop i bs))

-- `bs[i..]`.
abbrev pub slice_from {ℓ} : {A : Type ℓ} → List A → ℕ → Result (List A)
slice_from bs i = if ltb (length bs) i then panic else ok (drop i bs)
