-- ===== src/Rbcp/Bounds.antt =====
-- What holds of the object whatever the network answers, and the timeout.
use si_daq_api.Base.{
  ℕ, ◌+◌, ◌^◌, ◌<◌, ◌≤◌, ◌≡◌, sym, ap, ◌∙◌, le→ltb, Bool, true, false, Option, none, some, List,
  ◌++◌, arith, length, length-append, length-take, length-drop, take, drop, ltb, lt→ltb, ltb→le,
  Bool-cases, inl, inr, if◌then◌else◌,
}
use si_daq_api.Rbcp.{
  Rbcp, Net, Attempt, returned, thrown, and_then, invalid_param, throw, header, header_size,
  max_data_len, max_pkt_len, send_packet, recv_packet, make_header, check_packet, exchange,
  rw_memory, read_bytes, write_bytes, set_timeout, get_timeout,
}

abbrev pub object {ℓ} : {A : Type ℓ} → Attempt A → Rbcp
object (returned a r) = r
object (thrown e r) = r

-- The buffer has its size, and the identifier is a byte.
pub record IsSound (r : Rbcp) : Type 0 where
  pub size : length r.buf ≡ max_pkt_len
  pub id_byte : r.id < 256

recv_packet-IsSound :
    (result : ℕ) (arrived : Option (List ℕ)) (r : Rbcp)
    → IsSound r
    → IsSound (object (recv_packet result arrived r))
unfolding recv_packet
recv_packet-IsSound result none r v = ground (arith, v.size, v.id_byte)
recv_packet-IsSound result (some bytes) r v = ground (
  arith,
  v.size,
  v.id_byte,
  length-append bytes (drop (length bytes) r.buf),
  length-drop (length bytes) r.buf,
)

check_packet-object :
    (buf : List ℕ) (id len recv_len : ℕ) (read : Bool) (r : Rbcp)
    → object (check_packet buf id len recv_len read r) ≡ r
unfolding check_packet
check_packet-object buf id len recv_len read r = ground arith

-- A chain of calls keeps what each call keeps.
and_then-IsSound :
    {A B : Type 0} (m : Attempt A) (k : A → Rbcp → Attempt B)
    → IsSound (object m)
    → ((a : A) (r : Rbcp) → IsSound r → IsSound (object (k a r)))
    → IsSound (object (and_then m k))
and_then-IsSound (returned a r) k v next = next a r v
and_then-IsSound (thrown e r) k v next = v

send_packet-IsSound :
    (res : ℕ) (packet : List ℕ) (len : ℕ) (r : Rbcp)
    → IsSound r
    → IsSound (object (send_packet res packet len r))
unfolding send_packet
send_packet-IsSound res packet len r v = ground (arith, v.size, v.id_byte)

-- The data behind the header of a sound buffer, once the exchange is over.
taken-length :
    (m : Attempt (Unit {0})) (len : ℕ) (bytes : List ℕ) (r' : Rbcp)
    → len ≤ max_data_len
    → IsSound (object m)
    → and_then m (λ _ r. returned (take len (drop header_size r.buf)) r) ≡ returned bytes r'
    → length bytes ≡ len
taken-length (thrown e r) len bytes r' le v eq = absurd (cc eq)
taken-length (returned _ r) len bytes r' le v eq =
    ap (λ a. elim a [ returned xs s ↦ length xs | thrown e s ↦ 0 ]) (sym eq)
    ∙ omega (arith, length-take len (drop header_size r.buf), length-drop header_size r.buf, v.size)

module _ (net : Net) where
  exchange-IsSound :
      (len send_len : ℕ) (read : Bool) (r : Rbcp)
      → IsSound r
      → IsSound (object (exchange net len read send_len r))
  unfolding exchange
  exchange-IsSound len send_len read r v =
      let packet = take send_len r.buf in
      and_then-IsSound (send_packet (net.send packet) packet send_len r) _
        (send_packet-IsSound (net.send packet) packet send_len r v)
        λ _ r₁ w.
          and_then-IsSound (recv_packet (net.select packet) (net.recv packet) r₁) _
            (recv_packet-IsSound (net.select packet) (net.recv packet) r₁ w)
            λ recv_len r₂ w'. rw (check_packet-object r₂.buf r₂.id len recv_len read r₂) w'

  rw_memory-IsSound :
      (addr len : ℕ) (read : Bool) (r : Rbcp)
      → IsSound r
      → IsSound (object (rw_memory net addr len read r))
  unfolding rw_memory make_header header
  rw_memory-IsSound addr len read r v =
      exchange-IsSound len (if read then header_size else len + header_size) read _ (record {
        size = omega (arith, v.size, length-drop header_size r.buf);
        id_byte = omega arith;
      })

  -- Whatever the network answers, `ReadBytes` leaves the object sound, also when it throws.
  pub read_bytes-IsSound :
      (addr len : ℕ) (r : Rbcp) → IsSound r → IsSound (object (read_bytes net addr len r))
  unfolding read_bytes
  read_bytes-IsSound addr len r v = elim (Bool-cases (ltb max_data_len len)) [
    | inl e ↦ rw e v
    | inr e ↦ rw e (
        and_then-IsSound (rw_memory net addr len true r) _ (rw_memory-IsSound addr len true r v)
          λ _ r₁ w. w)
  ]

  -- The bytes that `ReadBytes` hands over are as many as it was asked for.
  pub read_bytes-length :
      (addr len : ℕ) (r : Rbcp) (bytes : List ℕ) (r' : Rbcp)
      → len ≤ max_data_len
      → IsSound r
      → read_bytes net addr len r ≡ returned bytes r'
      → length bytes ≡ len
  unfolding read_bytes
  read_bytes-length addr len r bytes r' le v e =
      taken-length (rw_memory net addr len true r) len bytes r' le
        (rw_memory-IsSound addr len true r v) (rw (le→ltb max_data_len len le) at e)

  -- Whatever the network answers, `WriteBytes` of no more bytes than its caller has leaves the
  -- object sound, also when it throws.
  pub write_bytes-IsSound :
      (buffer : List ℕ) (addr len : ℕ) (r : Rbcp)
      → len ≤ length buffer
      → IsSound r
      → IsSound (object (write_bytes net buffer addr len r))
  unfolding write_bytes
  write_bytes-IsSound buffer addr len r le v = elim (Bool-cases (ltb max_data_len len)) [
    | inl e ↦ rw e v
    | inr e ↦ rw e (
        rw_memory-IsSound addr len false _ (record {
          size = omega (
            arith,
            ltb→le _ _ e,
            length-append (take header_size r.buf ++ take len buffer)
                (drop (header_size + len) r.buf),
            length-append (take header_size r.buf) (take len buffer),
            length-take header_size r.buf,
            length-take len buffer,
            length-drop (header_size + len) r.buf,
            v.size,
          );
          id_byte = v.id_byte;
        }))
  ]

  -- A length above 255 is refused: nothing is sent, and the object stays as it is.
  pub access_too_large :
      (buffer : List ℕ) (addr len : ℕ) (r : Rbcp)
      → 255 < len
      → (read_bytes net addr len r ≡ throw invalid_param "too large length" r)
        × (write_bytes net buffer addr len r ≡ throw invalid_param "too large length" r)
  unfolding read_bytes write_bytes
  access_too_large buffer addr len r gt =
      (rw (lt→ltb max_data_len len gt), rw (lt→ltb max_data_len len gt))

-- `GetTimeout` answers the milliseconds, fewer than 2 ^ 31, that `SetTimeout` was given, also where
-- that throws.
pub get_timeout-set_timeout :
    (res msec : ℕ) (r : Rbcp) → msec < 2 ^ 31 → get_timeout (object (set_timeout res msec r)) ≡ msec
unfolding set_timeout get_timeout
get_timeout-set_timeout res msec r h = ground arith
