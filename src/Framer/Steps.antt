-- ===== src/Framer/Steps.antt =====
-- What each end of a round does: too few bytes, a frame that is not complete, and one that is.
use si_daq_api.Base.{
  ℕ, ◌+◌, ◌<◌, ◌≤◌, ◌≡◌, ◌≢◌, refl, sym, ap, ◌∙◌, inl, inr, ◌^◌, true, List, [], ◌∷◌, ◌++◌, flatten,
  append-nil, arith, Returns, returns, length, length-append, length-take, length-drop, take, drop,
  take_all, take-append_le, take-append-drop, get_or, sub32, sub32_exact, Bool-cases,
}
use si_daq_api.Framer.{
  Framer, exceed_frame_queue_count, event_length, frames, failed, finish, again, limit_hit,
  after_frame, list_put,
}
use si_daq_api.Framer.Sizing.{IsReady, IsSteady, incomplete-IsPartial}
use si_daq_api.Framer.Outcomes.{Packets, RoundOk, short_held, IsReady-buff}

pub copied_held : (read tail : List ℕ) → take (length read) (take (length read) read ++ tail) ≡ read
copied_held read tail = rw (take_all (length read) read (omega arith)) (
    take-append_le (length read) read tail (omega arith)
    ∙ take_all (length read) read (omega arith))

module _ (f : Framer) (read : List ℕ) (count : ℕ) (q : Packets) (v : IsReady f)
    (short : f.header_len ≤ 2) (steady : IsSteady f) where
  -- Too few bytes for a header of at most two bytes: that is none, or one, and it is kept.
  pub ends_short :
      (past : ℕ)
      → length read ≤ 1
      → length read ≤ f.header_len
      → RoundOk f read count q (
          finish
            (record f { rest = length read; buff = get_or read 0 past ∷ drop 1 f.buff })
            q
            (frames count))
  unfolding flatten
  ends_short past s below = record {
    out = [];
    lost = [];
    queue = sym (append-nil q);
    bytes = append-nil _ ∙ short_held read past (drop 1 f.buff) s;
    ready = IsReady-buff f _ _ v (omega (arith, length-drop 1 f.buff, v.size, v.room, v.header));
    rest_fits = omega (arith, v.room, v.header);
    short = short;
    steady = steady;
    partial = λ buff len e le. omega arith;
    verdict = inl (ap frames (omega arith), refl);
    limit_same = refl;
  }

  -- A frame that is not complete is kept.
  pub ends_partial :
      length read ≤ f.buff_size
      → length read < event_length f read (length read) + f.header_len
      → RoundOk f read count q (
          finish
            (record f {
              rest = length read;
              buff = take (length read) read ++ drop (0 + length read) f.buff;
            })
            q
            (frames count))
  unfolding flatten
  ends_partial s lt = record {
    out = [];
    lost = [];
    queue = sym (append-nil q);
    bytes = append-nil _ ∙ copied_held read (drop (0 + length read) f.buff);
    ready = IsReady-buff f _ _ v (
        omega (
          arith,
          length-append (take (length read) read) (drop (0 + length read) f.buff),
          length-take (length read) read,
          length-drop (0 + length read) f.buff,
          v.size,
        ));
    rest_fits = s;
    short = short;
    steady = steady;
    partial = incomplete-IsPartial f read _ (length read) steady lt (
        copied_held read (drop (0 + length read) f.buff)
        ∙ sym (take_all (length read) read (omega arith)));
    verdict = inl (ap frames (omega arith), refl);
    limit_same = refl;
  }

-- `total` bytes that are there become a frame.
module _ (f f' : Framer) (read : List ℕ) (count : ℕ) (q : Packets) (v : IsReady f')
    (hd : f'.header_len ≤ f.header_len) (fresh : f.rest ≡ 0) (rest : f'.rest ≡ f.rest) (total : ℕ)
    (pos : 0 < total) (le : total ≤ length read) (small : length read < 2 ^ 31)
    (short : f.header_len ≤ 2) (steady : IsSteady f') (same : f'.queue_limit ≡ f.queue_limit) where
  limit_hit-ne : (n : ℕ) → limit_hit f' n ≡ true → f.queue_limit ≢ 0
  unfolding limit_hit
  limit_hit-ne n e = ground (arith, same)

  cut_limit :
      f.queue_limit ≢ 0
      → RoundOk f read count q (
          finish
            (record f' { error_code = exceed_frame_queue_count })
            (q ++ take total read ∷ [])
            failed)
  unfolding flatten
  cut_limit limited = record {
    out = take total read ∷ [];
    lost = drop total read;
    queue = refl;
    bytes = rw (rest, fresh, append-nil) (take-append-drop total read);
    ready = record { size = v.size; room = v.room; small = v.small; header = v.header };
    rest_fits = omega arith;
    short = omega arith;
    steady = steady;
    partial = λ buff len e le. omega arith;
    verdict = inr (refl, λ e. cc, limited);
    limit_same = same;
  }

  cut_goes : RoundOk f read count q (
      again f'
        (drop total read)
        (sub32 (length read) total)
        (count + 1)
        (q ++ take total read ∷ []))
  cut_goes =
      let exact = sub32_exact (length read) total (omega arith) le in
      record {
        frame = take total read;
        queue = refl;
        bytes = take-append-drop total read;
        length_eq = omega (arith, exact, length-drop total read);
        less = omega (arith, exact);
        count_eq = refl;
        ready = v;
        header_le = hd;
        steady = steady;
        rest_eq = rest;
        limit_same = same;
      }

  pub cut-ok : Returns (RoundOk f read count q) (
      after_frame list_put f' read
        (length read)
        total
        (length q + 1)
        count
        (q ++ take total read ∷ []))
  unfolding after_frame
  cut-ok = elim (Bool-cases (limit_hit f' (length q + 1))) [
    | inl e ↦ rw e (returns (cut_limit (limit_hit-ne (length q + 1) e)))
    | inr e ↦ rw e (returns cut_goes)
  ]
