-- ===== src/Examples/Device.antt =====
-- An object with a device whose memory holds at each address its lowest byte.
use si_daq_api.Base.{
  ℕ, ◌%◌, ◌≡◌, ◌↔◌, ◌⊎◌, refl, true, none, some, List, [], ◌∷◌, arith, length, replicate,
}
use si_daq_api.Rbcp.{Rbcp, Net, returned, header, check_packet, read_bytes, write_bytes}
use si_daq_api.Rbcp.Construct.{Host, construct}
use si_daq_api.Rbcp.Construct.Cases.{Accepts, Made, Refused, construct-cases}
use si_daq_api.Rbcp.Packets.{parse_request, IsReply, check_packet_iff}
use si_daq_api.Rbcp.Device.{
  dump, device_net, next_id, write_request, read_bytes-dump, write_bytes-stores,
}
use si_daq_api.Rbcp.Bounds.{object, IsSound, read_bytes-IsSound}

abbrev low_byte : ℕ → ℕ
low_byte a = a % 256

abbrev device_object : Rbcp
device_object = record {
  buf = replicate 263 0;
  id = 255;
  wait = record { tv_sec = 1; tv_usec = 0 };
  closed = 0;
  sent = [];
}

-- A socket library that reaches every address.
abbrev pub reaching : Host
reaching = record {
  has_socket = true;
  getaddrinfo = λ name. some 0x0100007f;
  inet_pton = λ name. none;
  setsockopt = 0;
  connect = λ peer. 0;
}

abbrev silent_net : Net
silent_net = record { send = λ p. length p; select = λ p. 0; recv = λ p. none }

device_object-IsSound : IsSound device_object
device_object-IsSound = record { size = refl; id_byte = omega arith }

abbrev reply : List ℕ
reply = 255 ∷ 200 ∷ 7 ∷ 2 ∷ 0 ∷ 0 ∷ 0 ∷ 16 ∷ 16 ∷ 17 ∷ []

check_packet_iff_example :
    (check_packet reply 7 2 10 true device_object ≡ returned tt device_object)
    ↔ IsReply reply 7 2 10 true
check_packet_iff_example = check_packet_iff reply 7 2 10 device_object (omega arith) true

read_bytes-dump_example :
    (r' : Rbcp) × (read_bytes (device_net low_byte) 0xffffff00 64 device_object
      ≡ returned (dump low_byte 0xffffff00 64) r')
    × (r'.sent ≡ header (next_id device_object) 0xffffff00 64 true ∷ [])
read_bytes-dump_example =
    read_bytes-dump low_byte device_object 0xffffff00 (omega arith) 64 (omega arith)

write_bytes-stores_example :
    (r' : Rbcp) × (packet : List ℕ) × (write_bytes
        (device_net low_byte)
        (1 ∷ 2 ∷ [])
        0xffffff10
        2
        device_object
      ≡ returned tt r')
    × (r'.sent ≡ packet ∷ [])
    × (parse_request packet ≡ some (write_request device_object (1 ∷ 2 ∷ []) 0xffffff10))
write_bytes-stores_example =
    write_bytes-stores low_byte device_object 0xffffff10 (1 ∷ 2 ∷ []) (omega arith) (omega arith)
      (omega arith)

read_bytes-IsSound_example : IsSound (object (read_bytes silent_net 0xffffff00 64 device_object))
read_bytes-IsSound_example =
    read_bytes-IsSound silent_net 0xffffff00 64 device_object device_object-IsSound

construct-cases_example :
    (Accepts reaching (49 ∷ 48 ∷ []) 4660
      × Made reaching (49 ∷ 48 ∷ []) 4660 200 (construct reaching (49 ∷ 48 ∷ []) 4660 200))
    ⊎ (¬ Accepts reaching (49 ∷ 48 ∷ []) 4660
        × Refused reaching (49 ∷ 48 ∷ []) 4660 (construct reaching (49 ∷ 48 ∷ []) 4660 200))
construct-cases_example = construct-cases reaching (49 ∷ 48 ∷ []) 4660 200 (omega arith)
