-- ===== src/Framer/Messages/Runs.antt =====
-- A call, and the calls of a run, on a stream of messages.
use si_daq_api.Base.{
  ℕ, suc, ◌+◌, ◌<◌, ◌≤◌, ◌≡◌, refl, sym, ap, ◌∙◌, inl, inr, ◌^◌, List, [], ◌∷◌, ◌++◌, flatten,
  append_assoc, append-nil, arith, done, Returns, returns, Returns-bind, Returns-result, length,
  length-append, length-take, take, ltb→lt, ltb→le, slt, slt-ltb, is_neg-false, Bool-cases,
}
use si_daq_api.Framer.{Framer, recv_data, list_put}
use si_daq_api.Framer.Stream.{feed, AllSmall}
use si_daq_api.Framer.Outcomes.{Packets, held}
use si_daq_api.Framer.Messages.{IsTuned, AllMessages, holding, Short, Waits}
use si_daq_api.Framer.Messages.Rounds.{resume-Waits, recv_loop-Waits}
use si_daq_api.Framer.Messages.Joins.{recv_rest-GoesOn, Short-zero}

-- Each block, with one byte that is held, reaches over a header.
abbrev pub AllReach : Framer → List (List ℕ) → Type 0
AllReach s [] = Unit {0}
AllReach s (block ∷ blocks) = (s.header_len ≤ 1 + length block) × AllReach s blocks

few_small :
    (s : Framer) (n : ℕ) (left : Packets)
    → IsTuned s
    → AllMessages s left
    → Short n left
    → n < 2 ^ 30
few_small s n [] t valid few = omega (arith, few)
few_small s n (message ∷ left) t valid few = omega (arith, few, valid.0.fits, t.room, t.small)

Short-le : {n k : ℕ} (left : Packets) → n ≤ k → Short k left → Short n left
Short-le [] le few = omega (arith, few)
Short-le (message ∷ left) le few = omega (arith, few)

-- No bytes are to come, so no message is left, and nothing is held.
none_to_come :
    (s : Framer) (kept : List ℕ) (left : Packets)
    → kept ++ [] ≡ flatten left
    → Short (length kept) left
    → (left ≡ []) × (kept ≡ [])
unfolding flatten
none_to_come s kept [] e few = (refl, sym (append-nil kept) ∙ e)
none_to_come s kept (message ∷ left) e few =
    absurd
      (omega (arith, ap length e, few, length-append kept [], length-append message (flatten left)))

module _ (s : Framer) (t : IsTuned s) (full : Packets) (past : ℕ) where
  call-Waits :
      (future data_ : List ℕ) (f : Framer) (q : Packets)
      → length data_ < 2 ^ 30
      → s.header_len ≤ 1 + length data_
      → Waits s (data_ ++ future) full f q
      → Returns
          (λ (f', q', ret). Waits s future full f' q')
          (recv_data list_put past f data_ (length data_) q)
  unfolding recv_data
  call-Waits future data_ f q small head w =
      let within : w.rest < 2 ^ 30 = few_small s w.rest w.left t w.valid w.few in
      let signs = slt-ltb 0 w.rest (omega arith) (omega arith) in
      rw (w.same, is_neg-false (length data_) (omega arith))
        (elim (Bool-cases (slt 0 w.rest)) [
          | inl m ↦
              let held : 0 < w.rest = ltb→lt _ _ (sym signs ∙ m) in
              let fuel : ℕ = suc (w.rest + length data_) in
              rw m (
                Returns-bind
                  (recv_rest-GoesOn s future full w.rest w.buff data_ q w.left t small head w.size
                    w.whole w.valid w.bytes w.few held)
                  (resume-Waits s t future full fuel past (suc (length data_))
                    (recv_loop-Waits s t future full fuel past) (omega arith) (omega arith)))
          | inr m ↦
              let zero : w.rest ≡ 0 = omega (arith, ltb→le 0 w.rest (sym signs ∙ m)) in
              rw m (
                recv_loop-Waits s t future full (suc (length data_)) past (holding s w.rest w.buff)
                  data_ (length data_) 0 q
                  (record {
                    buff = w.buff;
                    same = ap (λ k. holding s k w.buff) zero;
                    size = w.size;
                    left = w.left;
                    whole = w.whole;
                    valid = w.valid;
                    bytes = sym (ap (λ k. take k w.buff ++ (data_ ++ future)) zero) ∙ w.bytes;
                    exact = refl;
                    less = omega arith;
                  })
                  (omega arith))
        ])

  pub feed-Waits :
      (future : List ℕ) (blocks : List (List ℕ)) (f : Framer) (q : Packets)
      → AllSmall blocks
      → AllReach s blocks
      → Waits s (flatten blocks ++ future) full f q
      → Returns (λ (f', q'). Waits s future full f' q') (feed past f blocks q)
  unfolding feed flatten
  feed-Waits future [] f q small reach w = returns w
  feed-Waits future (block ∷ blocks) f q small reach w =
      Returns-bind
        (call-Waits (flatten blocks ++ future) block f q small.0 reach.0 (record {
          rest = w.rest;
          buff = w.buff;
          same = w.same;
          size = w.size;
          left = w.left;
          whole = w.whole;
          valid = w.valid;
          bytes =
              ap (◌++◌ (take w.rest w.buff)) (sym (append_assoc block (flatten blocks) future))
              ∙ w.bytes;
          few = w.few;
        }))
        λ (f₁, q₁, ret) w₁. feed-Waits future blocks f₁ q₁ small.1 reach.1 w₁

-- A framer holds no bytes and its settings know the length of each of some messages. However the
-- stream of these messages is cut into blocks (of less than 2 ^ 30 bytes, and not empty where the
-- header has two bytes), the calls return, the new frames in the queue are exactly these messages, in order, and nothing is
-- held behind them.
pub feed_messages :
    (past : ℕ) (f : Framer) (messages blocks : Packets) (q : Packets)
    → IsTuned f
    → f.rest ≡ 0
    → f.buff_size ≡ length f.buff
    → AllMessages f messages
    → AllSmall blocks
    → AllReach f blocks
    → flatten blocks ≡ flatten messages
    → (f' : Framer) × (feed past f blocks q ≡ done (f', q ++ messages)) × (held f' ≡ [])
feed_messages past f messages blocks q t fresh size valid small reach e =
    let ((f', q'), run, w) = Returns-result (
      feed-Waits f t (q ++ messages) past [] blocks f q small reach (record {
        rest = 0;
        buff = f.buff;
        same = ap (λ k. holding f k f.buff) fresh;
        size = size;
        left = messages;
        whole = refl;
        valid = valid;
        bytes = append-nil (flatten blocks) ∙ e;
        few = Short-zero f messages valid;
      })) in
    let (nothing, none_held) =
      none_to_come f (take w.rest w.buff) w.left w.bytes
        (Short-le w.left (omega (arith, length-take w.rest w.buff)) w.few) in
    let queue : q' ≡ q ++ messages = sym (append-nil q') ∙ ap (◌++◌ q') (sym nothing) ∙ w.whole in
    (f', run ∙ ap (λ k. done (f', k)) queue, ap held w.same ∙ none_held)
