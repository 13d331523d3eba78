-- ===== src/Rbcp/Packets.antt =====
-- The packets of the RBCP protocol, described apart from the code, and the code against it.
use si_daq_api.Base.{
  ℕ, ◌+◌, ◌*◌, ◌/◌, ◌%◌, ◌^◌, ◌<◌, ◌≤◌, ◌≡◌, ◌↔◌, Bool, true, false, Option, none, some, List, ◌∷◌,
  ◌++◌, arith, ◌==◌, get_or, if◌then◌else◌,
}
use si_daq_api.Rbcp.{Rbcp, returned, header, check_packet}
use si_daq_api.Rbcp.Masks.{bit_and_mask, bit_and_ack, bit_and_buserr}

-- A request as the device reads it.
pub record Request : Type 0 where
  pub read : Bool
  pub id : ℕ
  pub len : ℕ
  pub addr : ℕ
  pub payload : List ℕ

unfoldable pub parse_request : List ℕ → Option Request
parse_request (v ∷ c ∷ i ∷ l ∷ a ∷ b ∷ c' ∷ d ∷ payload) =
    if v == 0xff
    then some (record {
      read = c / 16 == 12;
      id = i;
      len = l;
      addr = a * 2 ^ 24 + b * 2 ^ 16 + c' * 2 ^ 8 + d;
      payload = payload;
    })
    else none
parse_request _ = none

-- What `make_header` writes for a byte as identifier, an address of 32 bits and a length of at
-- most 255, a device reads back as that request, with the bytes that follow as its payload.
pub parse_request-header :
    (id addr len : ℕ) (read : Bool) (payload : List ℕ)
    → id < 256
    → addr < 2 ^ 32
    → len ≤ 255
    → parse_request (header id addr len read ++ payload)
      ≡ some (record { read = read; id = id; len = len; addr = addr; payload = payload })
unfolding parse_request header
parse_request-header id addr len true payload i a l = ground arith
parse_request-header id addr len false payload i a l = ground arith

-- A reply to the request `id` for `len` bytes: the command, acknowledged and without a bus error.
pub record IsReply (buf : List ℕ) (id len recv_len : ℕ) (read : Bool) : Type 0 where
  pub size : recv_len ≡ len + 8
  pub version : get_or buf 0 0 ≡ 255
  pub command : get_or buf 1 0 / 16 ≡ (if read then 12 else 8)
  pub acknowledged : get_or buf 1 0 / 8 % 2 ≡ 1
  pub no_bus_error : get_or buf 1 0 % 2 ≡ 0
  pub id_eq : get_or buf 2 0 ≡ id
  pub len_eq : get_or buf 3 0 ≡ len

module _ (buf : List ℕ) (id len recv_len : ℕ) (r : Rbcp) (byte : get_or buf 1 0 < 256) where
  check_packet-IsReply :
      (read : Bool)
      → IsReply buf id len recv_len read
      → check_packet buf id len recv_len read r ≡ returned tt r
  unfolding check_packet
  check_packet-IsReply true v = ground (
    arith,
    bit_and_mask (get_or buf 1 0) byte,
    bit_and_ack (get_or buf 1 0) byte,
    bit_and_buserr (get_or buf 1 0) byte,
  )
  check_packet-IsReply false v = ground (
    arith,
    bit_and_mask (get_or buf 1 0) byte,
    bit_and_ack (get_or buf 1 0) byte,
    bit_and_buserr (get_or buf 1 0) byte,
  )

  check_packet_complete :
      (read : Bool)
      → check_packet buf id len recv_len read r ≡ returned tt r
      → IsReply buf id len recv_len read
  unfolding check_packet
  check_packet_complete true e = ground (
    arith,
    bit_and_mask (get_or buf 1 0) byte,
    bit_and_ack (get_or buf 1 0) byte,
    bit_and_buserr (get_or buf 1 0) byte,
  )
  check_packet_complete false e = ground (
    arith,
    bit_and_mask (get_or buf 1 0) byte,
    bit_and_ack (get_or buf 1 0) byte,
    bit_and_buserr (get_or buf 1 0) byte,
  )

  -- For a buffer whose second entry is a byte, `check_packet` lets a packet pass exactly when it
  -- is a reply to the request.
  pub check_packet_iff :
      (read : Bool)
      → (check_packet buf id len recv_len read r ≡ returned tt r) ↔ IsReply buf id len recv_len read
  check_packet_iff read = (check_packet_complete read, check_packet-IsReply read)
