-- ===== src/Net/Socket/Settings.antt =====
-- What a socket that `UdpSocket::bind` returned was asked for.
use voicechat.Base.{
  ℕ, ◌≡◌, refl, ap, ◌∙◌, Result, ok, err, panic, ◌>>=◌, Option, some, none, Bool, true, false,
  arith,
}
use voicechat.Net.Addr.{SocketAddr}
use voicechat.Net.Socket.{Domain, Sockets, io, domain_of, bind}

-- What was asked of a socket.
pub record Settings : Type 0 where
  pub domain : Domain
  pub reuse_address : Bool
  pub nonblocking : Bool
  pub send_buffer_size : Option ℕ
  pub recv_buffer_size : Option ℕ
  pub read_timeout : Option ℕ
  pub bound : Option SocketAddr

-- A new socket has the defaults, and a call that succeeds sets what it names.
pub record Obeys (sys : Sockets) (settings : sys.Socket → Settings) : Type 0 where
  pub created :
      (d : Domain) (s : sys.Socket)
      → sys.create d ≡ some s
      → settings s ≡ record {
        domain = d;
        reuse_address = false;
        nonblocking = false;
        send_buffer_size = none;
        recv_buffer_size = none;
        read_timeout = none;
        bound = none;
      }
  pub reuse_address_set :
      (b : Bool) (s t : sys.Socket)
      → sys.set_reuse_address b s ≡ some t
      → settings t ≡ record (settings s) { reuse_address = b }
  pub nonblocking_set :
      (b : Bool) (s t : sys.Socket)
      → sys.set_nonblocking b s ≡ some t
      → settings t ≡ record (settings s) { nonblocking = b }
  pub send_buffer_size_set :
      (n : ℕ) (s t : sys.Socket)
      → sys.set_send_buffer_size n s ≡ some t
      → settings t ≡ record (settings s) { send_buffer_size = some n }
  pub recv_buffer_size_set :
      (n : ℕ) (s t : sys.Socket)
      → sys.set_recv_buffer_size n s ≡ some t
      → settings t ≡ record (settings s) { recv_buffer_size = some n }
  pub read_timeout_set :
      (d : Option ℕ) (s t : sys.Socket)
      → sys.set_read_timeout d s ≡ some t
      → settings t ≡ record (settings s) { read_timeout = d }
  pub bound_set :
      (addr : SocketAddr) (s t : sys.Socket)
      → sys.bind addr s ≡ some t
      → settings t ≡ record (settings s) { bound = some addr }

io_ok {ℓ} : {A : Type ℓ} (o : Option A) (a : A) → io o ≡ ok a → o ≡ some a
unfolding io
io_ok none a e = absurd (ground arith)
io_ok (some b) a e = ground arith

>>=-ok {ℓ κ} :
    {A : Type ℓ} {B : Type κ} (m : Result A) (f : A → Result B) (b : B)
    → (m >>= f) ≡ ok b
    → (a : A) × (m ≡ ok a) × (f a ≡ ok b)
>>=-ok (ok a) f b e = (a, refl, e)
>>=-ok (err x) f b e = absurd (ground arith)
>>=-ok panic f b e = absurd (ground arith)

module _ (sys : Sockets) (settings : sys.Socket → Settings) (obeys : Obeys sys settings) where
  -- A socket that `bind` returns is of the address's family and bound to the address, it may reuse the
  -- address, waits for packets, but at most 100 milliseconds, and has buffers of 65536 bytes.
  pub bind_settings :
      (addr : SocketAddr) (s : sys.Socket)
      → bind sys addr ≡ ok s
      → settings s ≡ record {
        domain = domain_of addr;
        reuse_address = true;
        nonblocking = false;
        send_buffer_size = some 65536;
        recv_buffer_size = some 65536;
        read_timeout = some 100000000;
        bound = some addr;
      }
  unfolding bind
  bind_settings addr s e =
      let (s0, c0, e0) = >>=-ok _ _ s e in
      let (s1, c1, e1) = >>=-ok _ _ s e0 in
      let (s2, c2, e2) = >>=-ok _ _ s e1 in
      let (s3, c3, e3) = >>=-ok _ _ s e2 in
      let (s4, c4, e4) = >>=-ok _ _ s e3 in
      let (s5, c5, e5) = >>=-ok _ _ s e4 in
      obeys.bound_set addr s5 s (io_ok _ _ e5)
      ∙ ap (λ (r : Settings). record r { bound = some addr })
          (obeys.read_timeout_set (some 100000000) s4 s5 (io_ok _ _ c5)
            ∙ ap (λ (r : Settings). record r { read_timeout = some 100000000 })
                (obeys.recv_buffer_size_set 65536 s3 s4 (io_ok _ _ c4)
                  ∙ ap (λ (r : Settings). record r { recv_buffer_size = some 65536 })
                      (obeys.send_buffer_size_set 65536 s2 s3 (io_ok _ _ c3)
                        ∙ ap (λ (r : Settings). record r { send_buffer_size = some 65536 })
                            (obeys.nonblocking_set false s1 s2 (io_ok _ _ c2)
                              ∙ ap (λ (r : Settings). record r { nonblocking = false })
                                  (obeys.reuse_address_set true s0 s1 (io_ok _ _ c1)
                                    ∙ ap (λ (r : Settings). record r { reuse_address = true })
                                        (obeys.created (domain_of addr) s0 (io_ok _ _ c0)))))))
