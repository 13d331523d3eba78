-- ===== src/Framer/Messages/Sizes.antt =====
-- The settings find the length of a message, and it passes both checks.
use si_daq_api.Base.{
  ℕ, ◌+◌, ◌-◌, ◌≤◌, ◌≡◌, refl, false, List, arith, length, take, add32, add32_exact, is_neg-false,
  le→ltb,
}
use si_daq_api.Framer.{Framer, event_length, checked_length, sized, limit_hit}
use si_daq_api.Framer.Messages.{IsTuned, IsMessage, holding}

module _ (s : Framer) (t : IsTuned s) (message : List ℕ) (v : IsMessage s message) (rest : ℕ)
    (buff : List ℕ) where
  pub add32_total : add32 (length message - s.header_len) s.header_len ≡ length message
  add32_total =
      let exact : add32 (length message - s.header_len) s.header_len
          ≡ length message - s.header_len + s.header_len =
        add32_exact (length message - s.header_len) s.header_len
          (omega (arith, v.fits, v.header, t.room, t.small)) in
      omega (arith, exact, v.header)

  pub sized-message :
      (bytes : List ℕ) (len : ℕ)
      → s.header_len ≤ len
      → take s.header_len bytes ≡ take s.header_len message
      → sized (holding s rest buff) bytes len ≡ (holding s rest buff, length message - s.header_len)
  unfolding sized checked_length event_length
  sized-message bytes len le heads =
      rw
        (
          v.size bytes len le heads,
          is_neg-false (length message - s.header_len) (omega (arith, v.fits, t.room, t.small)),
          add32_total,
          le→ltb s.max_frame_len (length message) v.fits,
        )
        refl

pub limit_hit-unlimited :
    (s : Framer) (rest : ℕ) (buff : List ℕ) (count : ℕ)
    → IsTuned s
    → limit_hit (holding s rest buff) count ≡ false
unfolding limit_hit
limit_hit-unlimited s rest buff count t = ground (arith, t.unlimited)
