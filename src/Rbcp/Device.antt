-- ===== src/Rbcp/Device.antt =====
-- Register access against a device that follows the protocol, over a network that loses nothing.
use si_daq_api.Base.{
  ℕ, zero, suc, ◌+◌, ◌%◌, ◌^◌, ◌<◌, ◌≤◌, ◌≡◌, ◌∙◌, refl, ap, Bool, true, false, none, some, List,
  [], ◌∷◌, ◌++◌, arith, get_or, length, take, drop, take_all, take-append_le, take-append_ge,
  length-take, is_neg, if◌then◌else◌, le→ltb,
}
use si_daq_api.Rbcp.{
  Rbcp, Net, returned, header, big_endian, send_packet, recv_packet, make_header, exchange,
  rw_memory, read_bytes, write_bytes, max_data_len,
}
use si_daq_api.Rbcp.Packets.{
  Request, parse_request, parse_request-header, IsReply, check_packet_iff,
}

-- `len` bytes of a memory, from `addr` on.
unfoldable pub dump : (ℕ → ℕ) → ℕ → ℕ → List ℕ
dump mem addr zero = []
dump mem addr (suc n) = mem addr ∷ dump mem (addr + 1) n

pub length-dump : (mem : ℕ → ℕ) (addr n : ℕ) → length (dump mem addr n) ≡ n
unfolding dump
length-dump mem addr zero = refl
length-dump mem addr (suc n) = ap suc (length-dump mem (addr + 1) n)

-- The device answers a request with its own header, acknowledged, and the data.
unfoldable pub answer : (ℕ → ℕ) → Request → List ℕ
answer mem q =
    0xff ∷ (if q.read then 0xc8 else 0x88) ∷ q.id ∷ q.len ∷ big_endian q.addr
    ++ (if q.read then dump mem q.addr q.len else take q.len q.payload)

unfoldable pub device_net : (ℕ → ℕ) → Net
device_net mem = record {
  send = λ packet. length packet;
  select = λ packet. 1;
  recv = λ packet. elim (parse_request packet) [ none ↦ none | some q ↦ some (answer mem q) ];
}

recv_packet-some :
    (bytes : List ℕ) (r : Rbcp)
    → length bytes ≤ 263
    → recv_packet 1 (some bytes) r
      ≡ returned (length bytes) (record r { buf = bytes ++ drop (length bytes) r.buf })
unfolding recv_packet is_neg
recv_packet-some bytes r le = ground arith

-- An exchange of a packet that the device reads as `q`, where the answer passes as a reply.
exchange-answer :
    (mem : ℕ → ℕ) (q : Request) (len send_len : ℕ) (read : Bool) (r : Rbcp)
    → length (take send_len r.buf) ≡ send_len
    → parse_request (take send_len r.buf) ≡ some q
    → length (answer mem q) ≤ 263
    → get_or (answer mem q ++ drop (length (answer mem q)) r.buf) 1 0 < 256
    → IsReply
        (answer mem q ++ drop (length (answer mem q)) r.buf)
        r.id
        len
        (length (answer mem q))
        read
    → exchange (device_net mem) len read send_len r
      ≡ returned tt (record r {
        buf = answer mem q ++ drop (length (answer mem q)) r.buf;
        sent = take send_len r.buf ∷ r.sent;
      })
unfolding exchange device_net send_packet
exchange-answer mem q len send_len read r l p le byte v =
    let bytes = answer mem q in
    let r' : Rbcp = record r { sent = take send_len r.buf ∷ r.sent } in
    let r'' : Rbcp = record r' { buf = bytes ++ drop (length bytes) r.buf } in
    ground (
      arith,
      recv_packet-some bytes r' le,
      (check_packet_iff (bytes ++ drop (length bytes) r.buf) r.id len (length bytes) r'' byte
            read).1
          v,
    )

abbrev pub next_id : Rbcp → ℕ
next_id r = (r.id + 1) % 2 ^ 8

abbrev pub read_request : Rbcp → ℕ → ℕ → Request
read_request r addr len = record {
  read = true;
  id = next_id r;
  len = len;
  addr = addr;
  payload = [];
}

abbrev pub write_request : Rbcp → List ℕ → ℕ → Request
write_request r buffer addr = record {
  read = false;
  id = next_id r;
  len = length buffer;
  addr = addr;
  payload = buffer;
}

-- The object after an exchange of `packet`, answered by `bytes`.
abbrev exchanged : Rbcp → List ℕ → List ℕ → List ℕ → Rbcp
exchanged r buf packet bytes = record r {
  buf = bytes ++ drop (length bytes) buf;
  id = next_id r;
  sent = packet ∷ r.sent;
}

module _ (mem : ℕ → ℕ) (r : Rbcp) (addr : ℕ) (in_range : addr < 2 ^ 32) where
  length-answer-read : (len : ℕ) → length (answer mem (read_request r addr len)) ≡ 8 + len
  unfolding answer
  length-answer-read len = omega (arith, length-dump mem addr len)

  rw_memory-read :
      (len : ℕ)
      → len ≤ 255
      → rw_memory (device_net mem) addr len true r
        ≡ returned tt (
            exchanged r
              (header (next_id r) addr len true ++ drop 8 r.buf)
              (header (next_id r) addr len true)
              (answer mem (read_request r addr len)))
  unfolding rw_memory make_header header answer
  rw_memory-read len le =
      exchange-answer mem (read_request r addr len) len 8 true
        (record r { id = next_id r; buf = header (next_id r) addr len true ++ drop 8 r.buf }) refl
        (parse_request-header (next_id r) addr len true [] (omega arith) in_range le)
        (omega (arith, length-answer-read len)) (omega arith)
        (record {
          size = omega (arith, length-answer-read len);
          version = refl;
          command = refl;
          acknowledged = refl;
          no_bus_error = refl;
          id_eq = refl;
          len_eq = refl;
        })

  data-answer-read :
      (len : ℕ) (tail : List ℕ)
      → take len (drop 8 (answer mem (read_request r addr len) ++ tail)) ≡ dump mem addr len
  unfolding answer
  data-answer-read len tail =
      take-append_le len (dump mem addr len) tail (omega (arith, length-dump mem addr len))
      ∙ take_all len (dump mem addr len) (omega (arith, length-dump mem addr len))

  -- For an address of 32 bits and a length of at most 255, `ReadBytes` answers the bytes that the
  -- device holds at the address, and sends one packet, the request to read them.
  pub read_bytes-dump :
      (len : ℕ)
      → len ≤ 255
      → (r' : Rbcp) × (read_bytes (device_net mem) addr len r ≡ returned (dump mem addr len) r')
        × (r'.sent ≡ header (next_id r) addr len true ∷ r.sent)
  unfolding read_bytes
  read_bytes-dump len le =
      let packet = header (next_id r) addr len true in
      let bytes = answer mem (read_request r addr len) in
      let r' = exchanged r (packet ++ drop 8 r.buf) packet bytes in
      (
        r',
        rw (le→ltb max_data_len len le, rw_memory-read len le)
            (ap (λ b. returned b r')
              (data-answer-read len (drop (length bytes) (packet ++ drop 8 r.buf)))),
        refl,
      )

-- A write at the start of a list leaves what is behind it.
drop-overwrite :
    {A : Type 0} (n : ℕ) (buf xs ys : List A)
    → n ≤ length buf
    → drop n (take n buf ++ xs ++ ys) ≡ xs ++ ys
drop-overwrite zero buf xs ys le = refl
drop-overwrite (suc n) [] xs ys le = absurd (omega arith)
drop-overwrite (suc n) (b ∷ buf) xs ys le = drop-overwrite n buf xs ys (omega arith)

module _ (mem : ℕ → ℕ) (r : Rbcp) (addr : ℕ) (buffer : List ℕ) (in_range : addr < 2 ^ 32)
    (room : 8 ≤ length r.buf) (le : length buffer ≤ 255) where
  abbrev filled : Rbcp
  filled = record r {
    buf = take 8 r.buf ++ take (length buffer) buffer ++ drop (8 + length buffer) r.buf;
  }

  write_packet :
      take (length buffer + 8) (header (next_id r) addr (length buffer) false ++ drop 8 filled.buf)
      ≡ header (next_id r) addr (length buffer) false ++ buffer
  unfolding header
  write_packet =
      rw
        (
          drop-overwrite 8 r.buf (take (length buffer) buffer) (drop (8 + length buffer) r.buf)
              room,
          take_all (length buffer) buffer (omega arith),
        )
        (take-append_ge (length buffer + 8) (header (next_id r) addr (length buffer) false)
            (buffer ++ drop (8 + length buffer) r.buf) (omega arith)
          ∙ ap
              (λ k.
                header (next_id r) addr (length buffer) false
                ++ take k (buffer ++ drop (8 + length buffer) r.buf))
              (omega arith)
          ∙ ap (◌++◌ (header (next_id r) addr (length buffer) false)) (
              take-append_le (length buffer) buffer (drop (8 + length buffer) r.buf) (omega arith)
              ∙ take_all (length buffer) buffer (omega arith)))

  rw_memory-write :
      (r' : Rbcp) × (rw_memory (device_net mem) addr (length buffer) false filled ≡ returned tt r')
      × (r'.sent ≡ (header (next_id r) addr (length buffer) false ++ buffer) ∷ r.sent)
  unfolding rw_memory make_header
  rw_memory-write =
      let bytes = answer mem (write_request r buffer addr) in
      let r₁ : Rbcp = record filled {
        id = next_id r;
        buf = header (next_id r) addr (length buffer) false ++ drop 8 filled.buf;
      } in
      let size : length bytes ≡ 8 + length buffer =
        unfold answer in omega (arith, length-take (length buffer) buffer) in
      (
        record r₁ {
          buf = bytes ++ drop (length bytes) r₁.buf;
          sent = take (length buffer + 8) r₁.buf ∷ r.sent;
        },
        unfold answer in
            exchange-answer mem (write_request r buffer addr) (length buffer) (length buffer + 8)
              false r₁ (rw write_packet (unfold header in omega arith))
              (rw write_packet (
                parse_request-header (next_id r) addr (length buffer) false buffer (omega arith)
                  in_range le))
              (omega (arith, size)) (omega arith)
              (record {
                size = omega (arith, size);
                version = refl;
                command = refl;
                acknowledged = refl;
                no_bus_error = refl;
                id_eq = refl;
                len_eq = refl;
              }),
        rw write_packet,
      )

  -- For an address of 32 bits, at most 255 bytes and a buffer with room for the header,
  -- `WriteBytes` sends the device one packet, which it reads as the request to store the bytes,
  -- and takes its answer for a success.
  pub write_bytes-stores :
      (r' : Rbcp) × (packet : List ℕ) × (write_bytes (device_net mem) buffer addr (length buffer) r
        ≡ returned tt r')
      × (r'.sent ≡ packet ∷ r.sent)
      × (parse_request packet ≡ some (write_request r buffer addr))
  unfolding write_bytes
  write_bytes-stores =
      let (r', e, log) = rw_memory-write in
      (
        r',
        header (next_id r) addr (length buffer) false ++ buffer,
        rw (le→ltb max_data_len (length buffer) le) e,
        log,
        parse_request-header (next_id r) addr (length buffer) false buffer (omega arith) in_range
            le,
      )
