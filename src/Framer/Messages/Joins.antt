-- ===== src/Framer/Messages/Joins.antt =====
-- The part of a call that joins the held bytes with new ones, on a stream of messages.
use si_daq_api.Base.{
  ℕ, suc, ◌+◌, ◌-◌, ◌<◌, ◌≤◌, ◌≡◌, refl, sym, ap, ◌⊎◌, ◌∙◌, inl, inr, ◌^◌, List, [], ◌∷◌, ◌++◌,
  flatten, append_assoc, append-cancel_length, arith, Returns, returns, length, length-append,
  length-take, length-drop, take, drop, take_all, take-take, take-append-drop, ltb→lt, ltb→le,
  add32_exact, sub32, sub32_exact, slt, slt-ltb, is_neg-false, Bool-cases,
}
use si_daq_api.Framer.{Framer, sized, after_first, join_at, join_rest, recv_rest, list_put}
use si_daq_api.Framer.Buffer.{filled, length-filled, take-filled}
use si_daq_api.Framer.Sizing.{IsReady}
use si_daq_api.Framer.Outcomes.{Packets, memcpy-done, put_frame-done}
use si_daq_api.Framer.Messages.{IsTuned, AllMessages, holding, Short, GoesOn, take_head}
use si_daq_api.Framer.Messages.Sizes.{add32_total, sized-message, limit_hit-unlimited}
use si_daq_api.Framer.Messages.Rounds.{append-one}

holding-IsReady :
    (s : Framer) (rest : ℕ) (buff : List ℕ)
    → IsTuned s
    → s.buff_size ≡ length buff
    → IsReady (holding s rest buff)
holding-IsReady s rest buff t size = record {
  size = size;
  room = t.room;
  small = t.small;
  header = t.header;
}

-- The held bytes `kept` begin the message, of which `used` bytes are new.
split_message :
    (kept data_ future message rest : List ℕ) (used : ℕ)
    → kept ++ (data_ ++ future) ≡ message ++ rest
    → length kept + used ≡ length message
    → used ≤ length data_
    → (kept ++ take used data_ ≡ message) × (drop used data_ ++ future ≡ rest)
split_message kept data_ future message rest used e fits le =
    append-cancel_length (kept ++ take used data_) (drop used data_ ++ future) message rest
      (omega (arith, length-append kept (take used data_), length-take used data_))
      (append_assoc kept (take used data_) (drop used data_ ++ future)
        ∙ ap (◌++◌ kept) (
            sym (append_assoc (take used data_) (drop used data_) future)
            ∙ ap (λ k. k ++ future) (take-append-drop used data_))
        ∙ e)

no_bytes : (xs : List ℕ) → length xs ≡ 0 → xs ≡ []
no_bytes [] e = refl
no_bytes (x ∷ xs) e = absurd (omega arith)

drop_all : (n : ℕ) (xs : List ℕ) → length xs ≤ n → drop n xs ≡ []
drop_all n xs le = no_bytes (drop n xs) (omega (arith, length-drop n xs))

pub Short-zero : (s : Framer) (left : Packets) → AllMessages s left → Short 0 left
Short-zero s [] valid = refl
Short-zero s (message ∷ left) valid = valid.0.positive

module _ (s : Framer) (t : IsTuned s) (future : List ℕ) (full : Packets) (rest : ℕ) (buff : List ℕ)
    (size : s.buff_size ≡ length buff) (data_ : List ℕ) (q : Packets)
    (small : length data_ < 2 ^ 30) (message : List ℕ) (left : Packets)
    (whole : q ++ message ∷ left ≡ full) (valid : AllMessages s (message ∷ left))
    (some_held : 0 < rest) (few : rest < length message)
    (bytes : take rest buff ++ (data_ ++ future) ≡ message ++ flatten left) where
  length-kept : length (take rest buff) ≡ rest
  length-kept = omega (arith, length-take rest buff, size, few, valid.0.fits, t.room)

  -- The message is in the queue, and `used` new bytes belonged to it.
  after_first-message :
      (buff' : List ℕ) (used count : ℕ)
      → s.buff_size ≡ length buff'
      → rest + used ≡ length message
      → used ≤ length data_
      → Returns (GoesOn s future full (suc (length data_))) (
          after_first list_put
            (holding s rest buff')
            data_
            (length data_)
            used
            count
            (q ++ message ∷ []))
  unfolding after_first
  after_first-message buff' used count size' fits le =
      let signs = slt-ltb used (length data_) (omega arith) (omega arith) in
      let (front, behind) =
        split_message (take rest buff) data_ future message (flatten left) used bytes
          (omega (arith, length-kept)) le in
      elim (Bool-cases (slt used (length data_))) [
        | inl m ↦
            rw (m, is_neg-false used (omega arith), limit_hit-unlimited s rest buff' count t)
              (returns (record {
                buff = buff';
                same = refl;
                size = size';
                left = left;
                whole = append-one q message left ∙ whole;
                valid = valid.1;
                bytes = behind;
                exact = omega (
                  arith,
                  sub32_exact (length data_) used (omega arith) le,
                  length-drop used data_,
                );
                less = omega (arith, length-drop used data_);
              }))
        | inr m ↦
            rw (m, limit_hit-unlimited s rest buff' count t)
              (returns (record {
                rest = 0;
                buff = buff';
                same = refl;
                size = size';
                left = left;
                whole = append-one q message left ∙ whole;
                valid = valid.1;
                bytes =
                    ap (λ k. k ++ future) (sym (drop_all used data_ (ltb→le _ _ (sym signs ∙ m))))
                    ∙ behind;
                few = Short-zero s left valid.1;
              }))
      ]

  -- `copy` new bytes are behind the held ones.
  join_at-message :
      (buff' : List ℕ) (copy : ℕ)
      → s.buff_size ≡ length buff'
      → ((n : ℕ) → n ≤ copy → take (rest + n) buff' ≡ take rest buff ++ take n data_)
      → copy ≤ length data_
      → (copy ≡ length data_) ⊎ (rest + copy ≡ s.buff_size)
      → Returns (GoesOn s future full (suc (length data_))) (
          join_at list_put
            (holding s rest buff')
            (length message)
            rest
            data_
            (length data_)
            (rest + copy)
            q)
  unfolding join_at flatten
  join_at-message buff' copy size' joined le end =
      let bounds : rest + copy < 2 ^ 31 = omega (arith, few, valid.0.fits, t.room, t.small) in
      let signs =
        slt-ltb (rest + copy) (length message) bounds
          (omega (arith, valid.0.fits, t.room, t.small)) in
      elim (Bool-cases (slt (rest + copy) (length message))) [
        | inl m ↦
            let lt : rest + copy < length message = ltb→lt _ _ (sym signs ∙ m) in
            let all : copy ≡ length data_ = ground (arith, valid.0.fits, t.room) in
            rw m (
              returns (record {
                rest = rest + copy;
                buff = buff';
                same = refl;
                size = size';
                left = message ∷ left;
                whole = whole;
                valid = valid;
                bytes =
                    ap (λ k. k ++ future)
                      (joined copy (omega arith)
                        ∙ ap (◌++◌ (take rest buff)) (take_all copy data_ (omega arith)))
                    ∙ append_assoc (take rest buff) data_ future
                    ∙ bytes;
                few = lt;
              }))
        | inr m ↦
            let ge : length message ≤ rest + copy = ltb→le _ _ (sym signs ∙ m) in
            let used : ℕ = length message - rest in
            let (front, behind) =
              split_message (take rest buff) data_ future message (flatten left) used bytes
                (omega (arith, length-kept, few)) (omega arith) in
            let frame : take (length message) buff' ≡ message =
              ap (λ k. take k buff') (omega (arith, few)) ∙ joined used (omega arith) ∙ front in
            rw
              (
                m,
                put_frame-done buff' (length message) q
                    (omega (arith, valid.0.fits, t.room, t.small))
                    (omega (arith, size', valid.0.fits, t.room)),
                frame,
                sub32_exact (length message) rest (omega (arith, valid.0.fits, t.room, t.small))
                    (omega (arith, few)),
              )
              (after_first-message buff' used (length q + 1) size' (omega (arith, few))
                (omega arith))
      ]

  join_rest-message :
      (copy : ℕ)
      → rest + copy ≤ s.buff_size
      → copy ≤ length data_
      → s.header_len ≤ rest + copy
      → (copy ≡ length data_) ⊎ (rest + copy ≡ s.buff_size)
      → let buff' = filled (holding s rest buff) data_ copy in
        Returns (GoesOn s future full (suc (length data_))) (
          join_rest list_put
            (sized (holding s rest buff') buff' (rest + copy))
            rest
            data_
            (length data_)
            (rest + copy)
            q)
  unfolding join_rest flatten
  join_rest-message copy fits le head end =
      let f : Framer = holding s rest buff in
      let ready : IsReady f = holding-IsReady s rest buff t size in
      let buff' = filled f data_ copy in
      let all : take (rest + copy) buff' ≡ take rest buff ++ take copy data_ =
        take-filled f data_ copy ready some_held fits le copy (omega arith) in
      let kept = take rest buff ++ take copy data_ in
      let heads : take s.header_len buff' ≡ take s.header_len message =
        sym (take-take s.header_len (rest + copy) buff' head)
        ∙ ap (take s.header_len) all
        ∙ take_head s.header_len message kept (flatten left) (drop copy data_ ++ future)
            (append_assoc (take rest buff) (take copy data_) (drop copy data_ ++ future)
              ∙ ap (◌++◌ (take rest buff)) (
                  sym (append_assoc (take copy data_) (drop copy data_) future)
                  ∙ ap (λ k. k ++ future) (take-append-drop copy data_))
              ∙ bytes)
            (omega (
              arith,
              length-append (take rest buff) (take copy data_),
              length-take copy data_,
              length-kept,
            ))
            valid.0.header in
      rw
        (
          sized-message s t message valid.0 rest buff' buff' (rest + copy) head heads,
          add32_total s t message valid.0 rest buff',
        )
        (join_at-message buff' copy
          (omega (arith, size, length-filled f data_ copy ready some_held fits le))
          (take-filled f data_ copy ready some_held fits le) le end)

  recv_rest-message :
      s.header_len ≤ 1 + length data_
      → Returns
          (GoesOn s future full (suc (length data_)))
          (recv_rest list_put (holding s rest buff) data_ (length data_) q)
  unfolding recv_rest
  recv_rest-message head =
      let room : ℕ = s.buff_size - rest in
      let within : rest < s.buff_size = omega (arith, few, valid.0.fits, t.room) in
      let exact : sub32 s.buff_size rest ≡ room =
        sub32_exact s.buff_size rest (omega (arith, t.small)) (omega arith) in
      let signs = slt-ltb (length data_) room (omega arith) (omega (arith, t.small)) in
      rw (exact, is_neg-false room (omega (arith, t.small)))
        (elim (Bool-cases (slt (length data_) room)) [
          | inl m ↦
              let lt : length data_ < room = ltb→lt _ _ (sym signs ∙ m) in
              rw
                (
                  m,
                  memcpy-done buff rest data_ (length data_) (omega (arith, size)) (omega arith),
                  add32_exact rest (length data_) (omega (arith, t.small)),
                )
                (join_rest-message (length data_) (omega arith) (omega arith) (omega arith)
                  (inl refl))
          | inr m ↦
              let ge : room ≤ length data_ = ltb→le _ _ (sym signs ∙ m) in
              rw
                (
                  m,
                  memcpy-done buff rest data_ room (omega (arith, size)) (omega arith),
                  add32_exact rest room (omega (arith, t.small)),
                )
                (join_rest-message room (omega arith) ge (omega (arith, t.header, t.room))
                  (inr (omega arith)))
        ])

-- A call that joins held bytes with new ones.
pub recv_rest-GoesOn :
    (s : Framer) (future : List ℕ) (full : Packets) (rest : ℕ) (buff data_ : List ℕ)
    (q left : Packets)
    → IsTuned s
    → length data_ < 2 ^ 30
    → s.header_len ≤ 1 + length data_
    → s.buff_size ≡ length buff
    → q ++ left ≡ full
    → AllMessages s left
    → take rest buff ++ (data_ ++ future) ≡ flatten left
    → Short rest left
    → 0 < rest
    → Returns
        (GoesOn s future full (suc (length data_)))
        (recv_rest list_put (holding s rest buff) data_ (length data_) q)
unfolding flatten
recv_rest-GoesOn s future full rest buff data_ q [] t small head size whole valid bytes few held =
    absurd (omega (arith, few))
recv_rest-GoesOn s future full rest buff data_ q (message ∷ left) t small head size whole valid
      bytes few held =
    recv_rest-message s t future full rest buff size data_ q small message left whole valid held few
      bytes head
