-- ===== src/Rbcp/Construct.antt =====
-- SiDaqApi/sitcp/SiTcpRbcpLib2.cpp: the constructor and the destructor of `SiTcpRbcp`, with
-- `make_sockaddr_in` and `get_ip_from_host`, as built for Windows. The socket library is a
-- parameter.
pub mod Cases
use si_daq_api.Base.{
  ℕ, ◌+◌, ◌-◌, ◌*◌, ◌/◌, ◌%◌, ◌^◌, ◌<◌, ◌≡◌, ◌≢◌, ◌⊎◌, inl, inr, refl, sym, Bool, true, false,
  Option, none, some, List, [], arith, ◌==◌, if◌then◌else◌, replicate, sub32, length,
}
use si_daq_api.Rbcp.{
  Rbcp, RbcpException, Attempt, returned, thrown, socket_error, max_pkt_len, set_timeout,
  get_timeout,
}

-- `struct sockaddr_in`
pub record SockaddrIn : Type 0 where
  pub sin_family : ℕ
  pub sin_port : ℕ
  pub s_addr : ℕ

abbrev pub af_inet : ℕ
af_inet = 2

-- The socket library: `socket`, `getaddrinfo` and `inet_pton` (`none` where they fail),
-- `setsockopt` and `connect`.
pub record Host : Type 0 where
  pub has_socket : Bool
  pub getaddrinfo : List ℕ → Option ℕ
  pub inet_pton : List ℕ → Option ℕ
  pub setsockopt : ℕ
  pub connect : SockaddrIn → ℕ

-- A constructor that throws leaves no object; `open_sockets` is what it does not close.
pub data Construction : Type 0 where
  made : Rbcp → SockaddrIn → Construction
  failed : RbcpException → ℕ → Construction

-- The 16 bits with their bytes swapped, on a processor that stores the low byte first.
pub htons : ℕ → ℕ
htons port = port % 256 * 256 + port / 256 % 256

-- The object before the body of the constructor runs. The timeout, which is not set yet, stands as 0.
abbrev pub blank : Rbcp
blank = record {
  buf = replicate max_pkt_len 0;
  id = 0;
  wait = record { tv_sec = 0; tv_usec = 0 };
  closed = 0;
  sent = [];
}

module _ (host : Host) where
  -- `get_ip_from_host`: the result, and `*saddr` after it.
  pub get_ip_from_host : List ℕ → ℕ → ℕ × ℕ
  get_ip_from_host hostname saddr = elim (host.getaddrinfo hostname) [
    | none ↦ (sub32 0 1, saddr)
    | some found ↦ (0, found)
  ]

  -- `make_sockaddr_in`
  pub make_sockaddr_in : List ℕ → ℕ → SockaddrIn
  unfolding get_ip_from_host
  make_sockaddr_in host_addr port =
      let r = get_ip_from_host host_addr 0 in
      let addr : SockaddrIn = record {
        sin_family = af_inet;
        sin_port = htons port;
        s_addr = r.1;
      } in
      if r.0 == 0
      then elim (host.inet_pton host_addr) [
        | none ↦ addr
        | some parsed ↦ record addr { s_addr = parsed }
      ]
      else addr

  -- The end of the constructor.
  connect_socket : List ℕ → ℕ → Attempt (Unit {0}) → Construction
  connect_socket host_addr port (thrown e r) = failed e (1 - r.closed)
  connect_socket host_addr port (returned _ r) =
      let sock_addr = make_sockaddr_in host_addr port in
      if host.connect sock_addr == 0
      then made r sock_addr
      else failed (record { error_number = socket_error; message = "connect() failed" })
          (1 - r.closed)

  -- The constructor; the packet buffer begins as zeros.
  pub construct : List ℕ → ℕ → ℕ → Construction
  unfolding connect_socket
  construct host_addr port msec =
      if host.has_socket
      then connect_socket host_addr port (set_timeout host.setsockopt msec blank)
      else failed (record { error_number = socket_error; message = "socket() failed" }) 0

-- The destructor: `closesocket`.
pub destruct : Rbcp → Rbcp
destruct r = record r { closed = r.closed + 1 }
