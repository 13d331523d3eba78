-- ===== src/Rbcp.antt =====
-- SiDaqApi/sitcp/SiTcpRbcpLib2.cpp and SiTcpRbcpLib2.h: register access over UDP packets. The
-- network is a parameter: the results of `send`, `select` and `recv` by the packet that was sent.
-- An `int` result is its word.
pub mod Bounds
pub mod Construct
pub mod Device
mod Masks
pub mod Packets
use Prim.Native.Nat.{bit_and}
use Prim.Native.String.{String, ◌++◌ as str_append}
use si_daq_api.Base.{
  ℕ, ◌+◌, ◌-◌, ◌*◌, ◌/◌, ◌%◌, ◌^◌, Bool, true, false, not, ◌&&◌, ◌||◌, Option, none, some, List, [],
  ◌∷◌, ◌++◌, ◌==◌, ltb, if◌then◌else◌, length, get_or, take, drop, is_neg,
}

-- `SITCPRBCP_ERR_NUM`
pub data ErrNum : Type 0 where
  timeout : ErrNum
  bus_error : ErrNum
  invalid_packet : ErrNum
  socket_error : ErrNum
  invalid_param : ErrNum
  unknown : ErrNum

-- `SiTcpRbcpException`
pub record RbcpException : Type 0 where
  pub error_number : ErrNum
  pub message : String

-- The prefix that the constructor puts before the message.
type_text : ErrNum → String
type_text timeout = "Timeout:"
type_text bus_error = "Bus Error:"
type_text invalid_packet = "Invalid Packet:"
type_text socket_error = "Socket Error:"
type_text invalid_param = "Invalid Parameter:"
type_text unknown = "Unknown:"

-- `what()`
pub what : RbcpException → String
unfolding type_text
what e = str_append (type_text e.error_number) (str_append " " e.message)

abbrev pub header_size : ℕ
header_size = 8

abbrev pub max_data_len : ℕ
max_data_len = 255

abbrev pub max_pkt_len : ℕ
max_pkt_len = header_size + max_data_len

abbrev pub header_vertype : ℕ
header_vertype = 0xff

abbrev header_cmd_mask : ℕ
header_cmd_mask = 0xf0

abbrev pub header_cmd_read : ℕ
header_cmd_read = 0xc0

abbrev pub header_cmd_write : ℕ
header_cmd_write = 0x80

abbrev pub header_flag_ack : ℕ
header_flag_ack = 0x08

abbrev pub header_flag_buserr : ℕ
header_flag_buserr = 0x01

-- `struct timeval`
pub record Timeval : Type 0 where
  pub tv_sec : ℕ
  pub tv_usec : ℕ

-- `SiTcpRbcp`; `closed` counts the calls of `closesocket` on `sock`, and `sent` logs the packets
-- that were handed to `send`, the latest first.
pub record Rbcp : Type 0 where
  pub buf : List ℕ
  pub id : ℕ
  pub wait : Timeval
  pub closed : ℕ
  pub sent : List (List ℕ)

pub record Net : Type 0 where
  pub send : List ℕ → ℕ
  pub select : List ℕ → ℕ
  -- `none` is a negative result.
  pub recv : List ℕ → Option (List ℕ)

-- A call leaves the object changed also when it throws.
pub data Attempt {ℓ} (A : Type ℓ) : Type ℓ where
  returned : A → Rbcp → Attempt A
  thrown : RbcpException → Rbcp → Attempt A

abbrev pub Method : Type 0 → Type 0
Method A = Rbcp → Attempt A

abbrev and_then : {A B : Type 0} → Attempt A → (A → Method B) → Attempt B
and_then (returned a r) k = k a r
and_then (thrown e r) k = thrown e r

infixl 5 ◌>>=◌ ◌>>◌
abbrev ◌>>=◌ : {A B : Type 0} → Method A → (A → Method B) → Method B
◌>>=◌ m k r = and_then (m r) k

abbrev ◌>>◌ : {A B : Type 0} → Method A → Method B → Method B
m >> n = m >>= λ _. n

abbrev pub throw : {A : Type 0} → ErrNum → String → Method A
throw num message r = thrown (record { error_number = num; message = message }) r

abbrev modify : (Rbcp → Rbcp) → Method (Unit {0})
modify f r = returned tt (f r)

-- `send` answered `res` to the packet.
send_packet : ℕ → List ℕ → ℕ → Method (Unit {0})
send_packet res packet len r =
    let r' = record r { sent = packet ∷ r.sent } in
    if res == len
    then returned tt r'
    else throw socket_error "send() failed" (record r' { closed = r'.closed + 1 })

-- `select` answered `result`, and `recv` puts `arrived` at the head of the buffer; a datagram
-- that is longer than the buffer is a negative result.
recv_packet : ℕ → Option (List ℕ) → Method ℕ
recv_packet result arrived =
    if is_neg result
    then throw socket_error "select() failed"
    else if result == 0
    then throw timeout "select() timeout"
    else elim arrived [
      | none ↦ throw socket_error "recv() failed"
      | some bytes ↦
          if ltb max_pkt_len (length bytes) then throw socket_error "recv() failed" else λ r.
          returned (length bytes) (record r { buf = bytes ++ drop (length bytes) r.buf })
    ]

-- `htonl(addr)` in memory.
abbrev pub big_endian : ℕ → List ℕ
big_endian addr =
    (addr / 2 ^ 24 % 256) ∷ (addr / 2 ^ 16 % 256) ∷ (addr / 2 ^ 8 % 256) ∷ (addr % 256) ∷ []

-- `x & 0xff` is `x % 2 ^ 8`.
unfoldable pub header : ℕ → ℕ → ℕ → Bool → List ℕ
header id addr len read =
    header_vertype
    ∷ (if read then header_cmd_read else header_cmd_write)
    ∷ (id % 2 ^ 8)
    ∷ (len % 2 ^ 8)
    ∷ big_endian addr

make_header : ℕ → ℕ → Bool → Method (Unit {0})
make_header addr len read =
    modify (λ r. record r { buf = header r.id addr len read ++ drop header_size r.buf })

-- `check_packet`, over the bytes of the reply and the identifier.
unfoldable pub check_packet : List ℕ → ℕ → ℕ → ℕ → Bool → Method (Unit {0})
check_packet buf id len recv_len read =
    let cmd = get_or buf 1 0 in
    if not (len + header_size == recv_len)
    then throw invalid_packet "unexpected packet length"
    else if not (get_or buf 0 0 == header_vertype)
    then throw invalid_packet "unexpected header value"
    else if (read && not (bit_and cmd header_cmd_mask == header_cmd_read))
        || (not read && not (bit_and cmd header_cmd_mask == header_cmd_write))
    then throw invalid_packet "unexpected header value"
    else if not (bit_and cmd header_flag_ack == header_flag_ack)
    then throw invalid_packet "unexpected header value"
    else if bit_and cmd header_flag_buserr == header_flag_buserr
    then (if read then throw bus_error "read failed" else throw bus_error "write failed")
    else if not (get_or buf 2 0 == id)
    then throw invalid_packet "unexpected id value"
    else if not (get_or buf 3 0 == len)
    then throw invalid_packet "unexpected data length"
    else modify (λ r. r)

module _ (net : Net) where
  exchange : ℕ → Bool → ℕ → Method (Unit {0})
  exchange len read send_len r =
      let packet = take send_len r.buf in
      and_then (send_packet (net.send packet) packet send_len r) λ _.
        recv_packet (net.select packet) (net.recv packet) >>= λ recv_len r.
        check_packet r.buf r.id len recv_len read r

  pub rw_memory : ℕ → ℕ → Bool → Method (Unit {0})
  rw_memory addr len read = do
    modify (λ r. record r { id = (r.id + 1) % 2 ^ 8 })
    make_header addr len read
    exchange len read (if read then header_size else len + header_size)

  -- The bytes that `ReadBytes` copies to its caller, or leaves behind the header in the buffer.
  pub read_bytes : ℕ → ℕ → Method (List ℕ)
  read_bytes addr len =
      if ltb max_data_len len
      then throw invalid_param "too large length"
      else (do rw_memory addr len true; λ r. returned (take len (drop header_size r.buf)) r)

  -- `buffer` is the memory from the caller's pointer on, at least `len` bytes.
  pub write_bytes : List ℕ → ℕ → ℕ → Method (Unit {0})
  write_bytes buffer addr len =
      if ltb max_data_len len then throw invalid_param "too large length" else (do
        modify (λ r. record r {
          buf = take header_size r.buf ++ take len buffer ++ drop (header_size + len) r.buf;
        })
        rw_memory addr len false)

-- `SetTimeout`, where `setsockopt` answers `res`, for a timeout below 2 ^ 31: `tv_sec` is a `long` of
-- 32 bits, and from there on its product with 1000 may overflow.
pub set_timeout : ℕ → ℕ → Method (Unit {0})
set_timeout res msec r =
    let sec = msec / 1000 in
    let r' = record r { wait = record { tv_sec = sec; tv_usec = (msec - sec * 1000) * 1000 } } in
    if res == 0
    then returned tt r'
    else throw socket_error "setsocketopt() failed" (record r' { closed = r'.closed + 1 })

pub get_timeout : Rbcp → ℕ
get_timeout r = (r.wait.tv_sec * 1000 + r.wait.tv_usec / 1000) % 2 ^ 32
