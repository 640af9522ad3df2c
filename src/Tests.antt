-- ===== src/Tests.antt =====
-- Concrete values that the theorems are tried on: toy floats, a toy codec and ciphers, a session.
pub mod Wire
pub mod Crypto
pub mod Audio
pub mod Peers
pub mod Session
pub mod Forged
pub mod Loop
pub mod Delivery
pub mod Joining
pub mod Pairing
pub mod Greeting
pub mod Broadcast
pub mod Devices
use voicechat.Base.{
  ℕ, zero, suc, ◌+◌, ◌-◌, ◌*◌, ◌/◌, ◌≤◌, ◌<◌, List, ◌∷◌, [], ◌≡◌, refl, Result, ok, err, panic,
  replicate, none, some, Option, ltb, leb, Bool, true, false, arith, length,
}
use voicechat.Base.Floats.{Float64, Float32}
use voicechat.Base.Int.{ℤ, pos}
use voicechat.Codec.{Opus}
use voicechat.Crypto.Aead.{Aead}
use voicechat.KeyExchange.{Dh}
use voicechat.Net.Addr.{SocketAddr, v4, IpAddr}

abbrev pub fl : Float64
fl = record {
  F64 = ℕ;
  of_u64 = λ n. n;
  to_u64 = λ n. n;
  literal = λ m k. m;
  add = λ x y. x + y;
  sub = λ x y. x - y;
  mul = λ x y. x * y;
  div = λ x y. x / y;
  abs = λ x. x;
  lt = ltb;
  le = leb;
}

abbrev pub total : List ℕ → ℕ
total [] = 0
total (x ∷ xs) = x + total xs

abbrev pub fl32 : Float32
fl32 = record {
  F32 = ℕ;
  literal = λ m k. m;
  neg = λ x. 0;
  neg_infinity = 0;
  of_ℕ = λ n. n;
  of_i16 = λ i. 1;
  to_i16 = λ x. pos x;
  add = λ x y. x + y;
  mul = λ x y. x * y;
  div = λ x y. x / y;
  sum = total;
  sqrt = λ x. x;
  log10 = λ x. x;
  tanh = λ x. x;
  clamp = λ x lo hi. hi;
  lt = ltb;
}

-- Every packet decodes to no samples; the decoder counts the packets.
abbrev pub op : Opus
op = record {
  Encoder = Unit {0};
  Decoder = ℕ;
  new_decoder = some 0;
  is_packet = λ bytes. true;
  encode = λ e pcm n. (some [], e);
  decode = λ d bytes n. (some ([], 0), suc d);
}

-- A cipher that hands the message on as it is, and one that opens nothing.
abbrev pub clear_aead : Aead
clear_aead = record {
  encrypt = λ key nonce aad msg. some msg;
  decrypt = λ key nonce aad ct. some ct;
}

-- The shared secret is the sum of the two keys.
abbrev pub sum_dh : Dh
sum_dh = record {
  public_of = λ s. s;
  diffie_hellman = λ a b. (total a + total b) ∷ [];
  hkdf_expand = λ salt secret info. some secret;
}

abbrev pub home : SocketAddr
home = v4 127 0 0 1 4000

abbrev pub session : List ℕ
session = 1 ∷ 2 ∷ 3 ∷ 4 ∷ 5 ∷ 6 ∷ 7 ∷ 8 ∷ []
