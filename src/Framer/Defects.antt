-- ===== src/Framer/Defects.antt =====
-- Where the code departs from what it means to do, for whole classes of inputs.
use si_daq_api.Base.{
  ℕ, suc, ◌+◌, ◌<◌, ◌≤◌, ◌≡◌, ◌^◌, Option, List, [], ◌∷◌, arith, Outcome, done, fault, length, drop,
  add32_exact, slt-ltb, is_neg-false,
}
use si_daq_api.Framer.{
  Framer, event_length, sized, checked_length, memcpy, frames, recv_loop, recv_round, cut_round,
  cut_at, recv_data,
}
use si_daq_api.Framer.Outcomes.{memcpy-done}

module _ {Q : Type 0} (put : List ℕ → Q → Outcome (Option ℕ × Q)) (past : ℕ) (f : Framer) (q : Q)
    (fresh : f.rest ≡ 0) where
  recv_data-fresh :
      (data_ : List ℕ)
      → length data_ < 2 ^ 31
      → recv_data put past f data_ (length data_) q
        ≡ recv_loop put (suc (length data_)) past f data_ (length data_) 0 q
  unfolding recv_data
  recv_data-fresh data_ small = ground (arith, is_neg-false (length data_) small, slt-ltb 0 f.rest)

  -- Where nothing is held: of two or more bytes that are fewer than a header, only the first is
  -- kept; the others of the held bytes are what the buffer held before.
  pub recv_data_short_header :
      (a b : ℕ) (more : List ℕ)
      → length more + 2 < f.header_len
      → f.header_len < 2 ^ 31
      → 1 ≤ length f.buff
      → let data_ = a ∷ b ∷ more in
        recv_data put past f data_ (length data_) q
        ≡ done (record f { rest = length data_; buff = a ∷ drop 1 f.buff }, q, frames 0)
  recv_data_short_header a b more lt small room =
      let data_ : List ℕ = a ∷ b ∷ more in
      rw (recv_data-fresh data_ (omega arith)) (
        unfold recv_loop recv_round in
        ground (arith, slt-ltb (length data_) f.header_len, memcpy-done f.buff 0 (a ∷ []) 1))

  -- Where nothing is held and the limit on frames allows it: a frame that is not complete, and of
  -- which more bytes are there than the buffer has, is copied past the buffer's end.
  pub recv_data_overflow :
      (data_ : List ℕ)
      → length data_ < 2 ^ 31
      → f.header_len ≤ length data_
      → length f.buff < length data_
      → length data_ < event_length f data_ (length data_) + f.header_len
      → event_length f data_ (length data_) + f.header_len ≤ f.max_frame_len
      → f.max_frame_len < 2 ^ 31
      → recv_data put past f data_ (length data_) q ≡ fault
  unfolding recv_round cut_round cut_at sized checked_length memcpy
  recv_data_overflow data_ small hd over more bound max =
      let event : ℕ = event_length f data_ (length data_) in
      rw (recv_data-fresh data_ small) (
        unfold recv_loop in
        ground (
          arith,
          slt-ltb (length data_) f.header_len,
          is_neg-false event,
          add32_exact event f.header_len,
          slt-ltb (length data_) (event + f.header_len),
        ))
