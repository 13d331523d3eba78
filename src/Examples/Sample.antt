-- ===== src/Examples/Sample.antt =====
-- The dialog's framer, on packets with a header of two bytes.
use si_daq_api.Base.{◌≡◌, refl, some, [], ◌∷◌, flatten, arith, done, replicate}
use si_daq_api.Framer.{Framer, no_error}
use si_daq_api.Framer.Outcomes.{Packets, held}
use si_daq_api.Framer.Stream.{feed}
use si_daq_api.Sample.FrameLength.{length_of, big_endian}
use si_daq_api.Sample.Packets.{IsSample, packets, packet, AllBodies, feed-packets}

abbrev sample : Framer
sample = record {
  rest = 0;
  buff_size = 16;
  buff = replicate 16 0;
  length_func = some length_of;
  header_len = 2;
  error_flg = 0;
  error_code = no_error;
  queue_limit = 0;
  max_frame_len = 16;
  fixed_frame_len = 0;
}

sample-IsSample : IsSample sample
sample-IsSample = record {
  tuned = record {
    room = omega arith;
    small = omega arith;
    header = omega arith;
    short = omega arith;
    unlimited = refl;
  };
  func = refl;
  some_header = omega arith;
}

abbrev bodies : Packets
bodies = (7 ∷ []) ∷ (8 ∷ 9 ∷ 10 ∷ []) ∷ []

bodies-AllBodies : AllBodies sample bodies
bodies-AllBodies = (
  record { positive = omega arith; encodes = omega arith; fits = omega arith },
  (record { positive = omega arith; encodes = omega arith; fits = omega arith }, tt),
)

abbrev pieces : Packets
pieces = (0 ∷ 1 ∷ 7 ∷ 0 ∷ []) ∷ (3 ∷ 8 ∷ []) ∷ (9 ∷ 10 ∷ []) ∷ []

feed-packets_example :
    (f' : Framer) × (feed 0 sample pieces [] ≡ done (f', packets 2 bodies)) × (held f' ≡ [])
unfolding flatten big_endian packets packet
feed-packets_example =
    feed-packets 0 sample bodies pieces [] sample-IsSample refl refl bodies-AllBodies
      (omega arith, (omega arith, (omega arith, tt)))
      (omega arith, (omega arith, (omega arith, tt))) refl
