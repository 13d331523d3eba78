-- ===== src/Framer/Messages/Rounds.antt =====
-- A round of the loop on a stream of messages, and the whole loop.
use si_daq_api.Base.{
  ℕ, zero, suc, ◌+◌, ◌<◌, ◌≤◌, ◌≡◌, refl, sym, ap, ◌⊎◌, ◌∙◌, inl, inr, ◌^◌, ◌||◌, List, [], ◌∷◌,
  ◌++◌, flatten, append_assoc, arith, Returns, returns, Returns-bind, length, length-append,
  length-drop, take, drop, take_all, get_or, ltb→lt, ltb→le, sub32_exact, slt, slt-ltb, Bool-cases,
  ◌==◌,
}
use si_daq_api.Framer.{
  Framer, Round, finish, again, after_frame, cut_at, cut_round, recv_round, recv_loop, resume,
  list_put, sized,
}
use si_daq_api.Framer.Outcomes.{Packets, memcpy-done, put_frame-done, short_held}
use si_daq_api.Framer.Steps.{copied_held}
use si_daq_api.Framer.Messages.{
  IsTuned, AllMessages, holding, Short, Waits, Cutting, GoesOn, take_front, take_head,
}
use si_daq_api.Framer.Messages.Sizes.{add32_total, sized-message, limit_hit-unlimited}

pub append-one :
    (q : Packets) (message : List ℕ) (left : Packets)
    → (q ++ message ∷ []) ++ left ≡ q ++ message ∷ left
append-one q message left = append_assoc q (message ∷ []) left

module _ (s : Framer) (t : IsTuned s) (future : List ℕ) (full : Packets) (buff : List ℕ)
    (size : s.buff_size ≡ length buff) (read : List ℕ) (count : ℕ) (q : Packets)
    (small : length read < 2 ^ 31) where
  -- The first message is not complete: it is kept.
  cut_at-message :
      (message : List ℕ) (left : Packets)
      → q ++ message ∷ left ≡ full
      → AllMessages s (message ∷ left)
      → read ++ future ≡ message ++ flatten left
      → Returns
          (GoesOn s future full (length read))
          (cut_at list_put (holding s 0 buff) (length message) read (length read) count q)
  unfolding cut_at after_frame flatten
  cut_at-message message left whole valid bytes =
      let signs =
        slt-ltb (length read) (length message) small
          (omega (arith, valid.0.fits, t.room, t.small)) in
      elim (Bool-cases (slt (length read) (length message))) [
        | inl m ↦
            let lt : length read < length message = ltb→lt _ _ (sym signs ∙ m) in
            rw
              (
                m,
                memcpy-done buff 0 read (length read) (omega (arith, valid.0.fits, t.room))
                    (omega arith),
              )
              (returns (record {
                rest = length read;
                buff = take (length read) read ++ drop (0 + length read) buff;
                same = refl;
                size = omega (
                  arith,
                  ap length (take_all (length read) read (omega arith)),
                  length-append (take (length read) read) (drop (0 + length read) buff),
                  length-drop (0 + length read) buff,
                  valid.0.fits,
                  t.room,
                );
                left = message ∷ left;
                whole = whole;
                valid = valid;
                bytes =
                    ap (λ k. k ++ future) (copied_held read (drop (0 + length read) buff)) ∙ bytes;
                few = lt;
              }))
        | inr m ↦
            let le : length message ≤ length read = ltb→le _ _ (sym signs ∙ m) in
            let (front, behind) = take_front message read (flatten left) future bytes le in
            rw
              (
                m,
                put_frame-done read (length message) q (omega arith) le,
                limit_hit-unlimited s 0 buff (length q + 1) t,
                front,
              )
              (returns (record {
                buff = buff;
                same = refl;
                size = size;
                left = left;
                whole = append-one q message left ∙ whole;
                valid = valid.1;
                bytes = behind;
                exact = omega (
                  arith,
                  sub32_exact (length read) (length message) (omega arith) le,
                  length-drop (length message) read,
                );
                less = omega (arith, length-drop (length message) read, valid.0.positive);
              }))
      ]

  -- Too few bytes for a header: that is none, or one, and it is kept.
  kept-Short :
      (past : ℕ) (left : Packets)
      → q ++ left ≡ full
      → AllMessages s left
      → read ++ future ≡ flatten left
      → length read ≤ 1
      → Short (length read) left
      → Waits s future full (holding s (length read) (get_or read 0 past ∷ drop 1 buff)) q
  kept-Short past left whole valid bytes le few = record {
    rest = length read;
    buff = get_or read 0 past ∷ drop 1 buff;
    same = refl;
    size = omega (arith, length-drop 1 buff, t.header, t.room);
    left = left;
    whole = whole;
    valid = valid;
    bytes = ap (λ k. k ++ future) (short_held read past (drop 1 buff) le) ∙ bytes;
    few = few;
  }

  few-Short :
      (left : Packets)
      → AllMessages s left
      → read ++ future ≡ flatten left
      → (length read ≡ 0) ⊎ (length read < s.header_len)
      → Short (length read) left
  unfolding flatten
  few-Short [] valid bytes e = omega (arith, ap length bytes, length-append read future)
  few-Short (message ∷ left) valid bytes (inl e) = omega (arith, valid.0.positive)
  few-Short (message ∷ left) valid bytes (inr e) = omega (arith, valid.0.header)

  whole_header :
      (left : Packets)
      → q ++ left ≡ full
      → AllMessages s left
      → read ++ future ≡ flatten left
      → 0 < length read
      → s.header_len ≤ length read
      → Returns (GoesOn s future full (length read)) (
          cut_round list_put
            (sized (holding s 0 buff) read (length read))
            read
            (length read)
            count
            q)
  unfolding cut_round flatten
  whole_header [] whole valid bytes pos le =
      absurd (omega (arith, ap length bytes, length-append read future))
  whole_header (message ∷ left) whole valid bytes pos le =
      rw
        (
          sized-message s t message valid.0 0 buff read (length read) le
              (take_head s.header_len message read (flatten left) future bytes le valid.0.header),
          add32_total s t message valid.0 0 buff,
        )
        (cut_at-message message left whole valid bytes)

  recv_round-GoesOn :
      (past : ℕ) (left : Packets)
      → q ++ left ≡ full
      → AllMessages s left
      → read ++ future ≡ flatten left
      → Returns
          (GoesOn s future full (length read))
          (recv_round list_put past (holding s 0 buff) read (length read) count q)
  unfolding recv_round
  recv_round-GoesOn past left whole valid bytes =
      let signs = slt-ltb (length read) s.header_len small (omega (arith, t.short)) in
      elim (Bool-cases ((length read == 0) || slt (length read) s.header_len)) [
        | inl e ↦
            rw
              (
                e,
                memcpy-done buff 0 (get_or read 0 past ∷ []) 1 (omega (arith, t.header, t.room))
                    (omega arith),
              )
              (returns (
                kept-Short past left whole valid bytes (ground (arith, signs, t.short))
                  (few-Short left valid bytes (ground (arith, signs)))))
        | inr e ↦
            rw e
              (whole_header left whole valid bytes (ground (arith, e)) (ground (arith, signs, e)))
      ]

module _ (s : Framer) (t : IsTuned s) (future : List ℕ) (full : Packets) where
  abbrev LoopOk : ℕ → ℕ → Type 0
  LoopOk fuel past =
      (f : Framer) (read : List ℕ) (len count : ℕ) (q : Packets)
      → Cutting s future full fuel f read len q
      → length read < 2 ^ 31
      → Returns (λ (f', q', ret). Waits s future full f' q')
          (recv_loop list_put fuel past f read len count q)

  -- A round, and the loop behind it.
  pub resume-Waits :
      (fuel past most : ℕ)
      → LoopOk fuel past
      → most ≤ fuel
      → most < 2 ^ 31
      → (r : Round Packets) → GoesOn s future full most r
      → Returns
          (λ (f', q', ret). Waits s future full f' q')
          (resume (recv_loop list_put fuel past) r)
  resume-Waits fuel past most loop le small (finish f' q' ret) w = returns w
  resume-Waits fuel past most loop le small (again f' read' len' count' q') c =
      loop f' read' len' count' q'
        (record {
          buff = c.buff;
          same = c.same;
          size = c.size;
          left = c.left;
          whole = c.whole;
          valid = c.valid;
          bytes = c.bytes;
          exact = c.exact;
          less = omega (arith, c.less);
        })
        (omega (arith, c.less))

  pub recv_loop-Waits : (fuel past : ℕ) → LoopOk fuel past
  unfolding recv_loop
  recv_loop-Waits zero past f read len count q c small = absurd (omega (arith, c.less))
  recv_loop-Waits (suc fuel) past f read len count q c small =
      rw (c.same, c.exact)
        (Returns-bind
          (recv_round-GoesOn s t future full c.buff c.size read count q small past c.left c.whole
            c.valid c.bytes)
          (resume-Waits fuel past (length read) (recv_loop-Waits fuel past) (omega (arith, c.less))
            small))
