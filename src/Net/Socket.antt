-- ===== src/Net/Socket.antt =====
-- `UdpSocket` of vc-core/src/net.rs over the sockets of the system.
pub mod Settings
use voicechat.Base.{ℕ, List, Result, ok, err, ◌>>=◌, Option, some, none, Bool, true, false}
use voicechat.Base.Bytes.{io_error}
use voicechat.Net.Addr.{SocketAddr, v4, v6}

pub data Domain : Type 0 where
  inet inet6 : Domain

-- What the socket2 crate and `std::net` call of the system: a datagram socket for UDP, the options that
-- are set on it, and its use. A call returns the socket after it, or nothing where it fails.
pub record Sockets : Type 1 where
  pub Socket : Type 0
  pub create : Domain → Option Socket
  pub set_reuse_address : Bool → Socket → Option Socket
  pub set_nonblocking : Bool → Socket → Option Socket
  pub set_send_buffer_size : ℕ → Socket → Option Socket
  pub set_recv_buffer_size : ℕ → Socket → Option Socket
  -- In nanoseconds; with none it waits for ever.
  pub set_read_timeout : Option ℕ → Socket → Option Socket
  pub bind : SocketAddr → Socket → Option Socket
  pub send_to : List ℕ → SocketAddr → Socket → Option ℕ
  -- The bytes received into a buffer of a size, and the sender.
  pub recv_from : ℕ → Socket → Option (List ℕ × SocketAddr)
  pub local_addr : Socket → Option SocketAddr

-- An error of the system, under `?`.
unfoldable pub io {ℓ} : {A : Type ℓ} → Option A → Result A
io none = err io_error
io (some a) = ok a

-- `addr.is_ipv4()`.
unfoldable pub domain_of : SocketAddr → Domain
domain_of (v4 a b c d port) = inet
domain_of (v6 octets port flowinfo scope_id) = inet6

module _ (sys : Sockets) where
  -- `UdpSocket::bind`: the first call that fails ends it.
  unfoldable pub bind : SocketAddr → Result sys.Socket
  unfolding io domain_of
  bind addr = do
    socket ← io (sys.create (domain_of addr))
    reusing ← io (sys.set_reuse_address true socket)
    blocking ← io (sys.set_nonblocking false reusing)
    sending ← io (sys.set_send_buffer_size 65536 blocking)
    receiving ← io (sys.set_recv_buffer_size 65536 sending)
    timed ← io (sys.set_read_timeout (some 100000000) receiving)
    io (sys.bind addr timed)

  unfoldable pub send_to : sys.Socket → List ℕ → SocketAddr → Result ℕ
  unfolding io
  send_to socket bytes addr = io (sys.send_to bytes addr socket)

  unfoldable pub recv_from : sys.Socket → ℕ → Option (List ℕ × SocketAddr)
  recv_from socket size = sys.recv_from size socket

  unfoldable pub local_addr : sys.Socket → Result SocketAddr
  unfolding io
  local_addr socket = io (sys.local_addr socket)

  unfoldable pub set_read_timeout : sys.Socket → Option ℕ → Result sys.Socket
  unfolding io
  set_read_timeout socket dur = io (sys.set_read_timeout dur socket)
