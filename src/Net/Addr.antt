-- ===== src/Net/Addr.antt =====
-- The socket addresses that net.rs and peer.rs handle (`std::net::SocketAddr`), as the data that the
-- code reads of them: octets, port, and for IPv6 the flow information and the scope.
use voicechat.Base.{ℕ, List, IsByte, IsU16, IsArray, All, ◌≡◌, ◌==◌, ◌&&◌, Bool, not}
use voicechat.Base.Seq.{any}
use native.Mathlib.Decide.{ℕ_discrete}

pub data SocketAddr : Type 0 where
  v4 : (a b c d port : ℕ) → SocketAddr
  v6 : (octets : List ℕ) (port flowinfo scope_id : ℕ) → SocketAddr

-- `IpAddr`, and the parts of an address.
pub data IpAddr : Type 0 where
  ipv4 : (a b c d : ℕ) → IpAddr
  ipv6 : (octets : List ℕ) → IpAddr

unfoldable pub ip : SocketAddr → IpAddr
ip (v4 a b c d p) = ipv4 a b c d
ip (v6 octets p flowinfo scope_id) = ipv6 octets

unfoldable pub port : SocketAddr → ℕ
port (v4 a b c d p) = p
port (v6 octets p flowinfo scope_id) = p

-- `SocketAddr::new`.
unfoldable pub with_port : IpAddr → ℕ → SocketAddr
with_port (ipv4 a b c d) p = v4 a b c d p
with_port (ipv6 octets) p = v6 octets p 0 0

-- All octets are zero.
unfoldable pub is_unspecified : IpAddr → Bool
is_unspecified (ipv4 a b c d) = (a == 0) && ((b == 0) && ((c == 0) && (d == 0)))
is_unspecified (ipv6 octets) = not (any (λ o. not (o == 0)) octets)

unfoldable pub SocketAddr-discrete : Discrete SocketAddr
SocketAddr-discrete = hlevel ℕ_discrete

-- What every address satisfies by its Rust type.
abbrev pub IsAddr : SocketAddr → Type 0
IsAddr (v4 a b c d port) = IsByte a × IsByte b × IsByte c × IsByte d × IsU16 port
IsAddr (v6 octets port flowinfo scope_id) = IsArray 16 octets × All IsByte octets × IsU16 port

-- An address that carries no IPv6 flow information and no scope.
abbrev pub IsPlain : SocketAddr → Type 0
IsPlain (v4 a b c d port) = Unit {0}
IsPlain (v6 octets port flowinfo scope_id) = (flowinfo ≡ 0) × (scope_id ≡ 0)
