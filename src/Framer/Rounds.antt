-- ===== src/Framer/Rounds.antt =====
-- One round of the loop and the whole loop, over the list of entries as the event queue.
use si_daq_api.Base.{
  ℕ, zero, suc, ◌+◌, ◌<◌, ◌≤◌, ◌≡◌, refl, sym, ap, ◌∙◌, inl, inr, ◌^◌, false, ◌||◌, List, [], ◌∷◌,
  ◌++◌, flatten, append_assoc, arith, Returns, returns, Returns-bind, Returns-mono, length, get_or,
  ltb→lt, ltb→le, le→ltb, add32, add32_exact, slt, slt-ltb, Bool-cases, ◌==◌,
}
use si_daq_api.Framer.{
  Framer, FramerErrorCode, event_length, fall_back, Return, Round, finish, again, cut_at, cut_round,
  recv_round, recv_loop, resume, list_put,
}
use si_daq_api.Framer.Sizing.{IsReady, Fits, IsSteady, fall_back-IsSteady, sized-cases}
use si_daq_api.Framer.Outcomes.{
  Packets, held, Ends, Goes, RoundOk, memcpy-done, fall_back-IsReady, put_frame-done,
}
use si_daq_api.Framer.Steps.{ends_short, ends_partial, cut-ok}

module _ (f : Framer) (read : List ℕ) (count : ℕ) (q : Packets) (v : IsReady f)
    (short : f.header_len ≤ 2) (fresh : f.rest ≡ 0) (small : length read < 2 ^ 31)
    (steady : IsSteady f) where
  -- The rest of the round, once the length is known.
  fitting :
      Fits f read (length read)
      → Returns
          (RoundOk f read count q)
          (cut_round list_put (f, event_length f read (length read)) read (length read) count q)
  unfolding cut_round
  fitting fit =
      let total = event_length f read (length read) + f.header_len in
      let signs = slt-ltb (length read) total small (omega (arith, fit.bounded, v.room, v.small)) in
      rw fit.total (elim (Bool-cases (slt (length read) total)) [
        | inl m ↦
            let more : length read < total = ltb→lt _ _ (sym signs ∙ m) in
            unfold cut_at in
            rw
              (
                m,
                memcpy-done f.buff 0 read (length read) (omega (arith, fit.bounded, v.room, v.size))
                    (omega arith),
              )
              (returns (
                ends_partial f read count q v short steady (omega (arith, fit.bounded, v.room))
                  more))
        | inr m ↦
            let le : total ≤ length read = ltb→le _ _ (sym signs ∙ m) in
            unfold cut_at in
            rw (m, put_frame-done read total q (omega arith) le)
              (cut-ok f f read count q v (omega arith) fresh refl total fit.positive le small short
                steady refl)
      ])

  falling :
      (code : FramerErrorCode)
      → 0 < length read
      → Returns
          (RoundOk f read count q)
          (cut_round list_put (fall_back code f, length read) read (length read) count q)
  unfolding cut_round
  falling code pos =
      let total : add32 (length read) 0 ≡ length read =
        add32_exact (length read) 0 (omega arith) ∙ omega arith in
      let signs : slt (length read) (length read) ≡ false =
        slt-ltb (length read) (length read) small small ∙ le→ltb _ _ (omega arith) in
      rw total (
        unfold cut_at in
        rw (signs, put_frame-done read (length read) q small (omega arith))
          (cut-ok f (fall_back code f) read count q (fall_back-IsReady code f v) (omega arith) fresh
            refl (length read) pos (omega arith) small short (fall_back-IsSteady code f) refl))

  recv_round-ok :
      (past : ℕ)
      → Returns (RoundOk f read count q) (recv_round list_put past f read (length read) count q)
  unfolding recv_round
  recv_round-ok past =
      let signs = slt-ltb (length read) f.header_len small (omega arith) in
      elim (Bool-cases ((length read == 0) || slt (length read) f.header_len)) [
        | inl e ↦
            rw
              (
                e,
                memcpy-done f.buff 0 (get_or read 0 past ∷ []) 1
                    (omega (arith, v.size, v.room, v.header)) (omega arith),
              )
              (returns (
                ends_short f read count q v short steady past (ground (arith, signs))
                  (ground (arith, signs))))
        | inr e ↦ rw e (elim (sized-cases f read (length read) v (ground (arith, e))) [
          | inl fit ↦ rw fit.keeps (fitting fit)
          | inr back ↦ rw back.keeps (falling back.code (ground (arith, e)))
        ])
      ]

-- A round that cut one frame, and what became of the bytes behind it.
Ends-cons :
    (f : Framer) (read : List ℕ) (count : ℕ) (q : Packets) (f₁ : Framer) (read₁ : List ℕ)
    (len₁ count₁ : ℕ) (q₁ : Packets) (f' : Framer) (q' : Packets) (ret : Return)
    → Goes f read count q f₁ read₁ len₁ count₁ q₁
    → Ends f₁.queue_limit read₁ count₁ q₁ f' q' ret
    → Ends f.queue_limit read count q f' q' ret
unfolding flatten
Ends-cons f read count q f₁ read₁ len₁ count₁ q₁ f' q' ret g e = record {
  out = g.frame ∷ e.out;
  lost = e.lost;
  queue = e.queue ∙ ap (λ k. k ++ e.out) g.queue ∙ append_assoc q (g.frame ∷ []) e.out;
  bytes =
      append_assoc g.frame (flatten e.out) (held f' ++ e.lost)
      ∙ ap (◌++◌ g.frame) e.bytes
      ∙ g.bytes;
  ready = e.ready;
  rest_fits = e.rest_fits;
  short = e.short;
  steady = e.steady;
  partial = e.partial;
  verdict = ground (arith, e.verdict, g.count_eq, g.limit_same);
  limit_same = e.limit_same ∙ g.limit_same;
}

-- What a loop promises of the bytes that it is given.
abbrev pub LoopOk : ℕ → ℕ → Type 0
LoopOk fuel past =
    (f : Framer) (read : List ℕ) (len count : ℕ) (q : Packets)
    → IsReady f
    → IsSteady f
    → f.header_len ≤ 2
    → f.rest ≡ 0
    → length read < 2 ^ 31
    → len ≡ length read
    → len < fuel
    → Returns (λ (f', q', ret). Ends f.queue_limit read count q f' q' ret)
        (recv_loop list_put fuel past f read len count q)

pub resume-ok :
    (fuel past : ℕ) (loop : LoopOk fuel past) (f : Framer) (read : List ℕ) (count : ℕ) (q : Packets)
    → f.header_len ≤ 2
    → f.rest ≡ 0
    → length read < 2 ^ 31
    → length read ≤ fuel
    → (r : Round Packets) → RoundOk f read count q r
    → Returns
        (λ (f', q', ret). Ends f.queue_limit read count q f' q' ret)
        (resume (recv_loop list_put fuel past) r)
resume-ok fuel past loop f read count q short fresh small le (finish f' q' ret) e = returns e
resume-ok fuel past loop f read count q short fresh small le (again f₁ read₁ len₁ count₁ q₁) g =
    Returns-mono
      (loop f₁ read₁ len₁ count₁ q₁ g.ready g.steady (omega (arith, g.header_le))
        (g.rest_eq ∙ fresh) (omega (arith, g.less, g.length_eq)) g.length_eq
        (omega (arith, g.less)))
      (λ (f', q', ret) e. Ends-cons f read count q f₁ read₁ len₁ count₁ q₁ f' q' ret g e)

pub recv_loop-ok : (fuel past : ℕ) → LoopOk fuel past
unfolding recv_loop
recv_loop-ok zero past f read len count q v steady short fresh small e lt = absurd (omega arith)
recv_loop-ok (suc fuel) past f read len count q v steady short fresh small e lt = rw e (
    Returns-bind (recv_round-ok f read count q v short fresh small steady past)
      (resume-ok fuel past (recv_loop-ok fuel past) f read count q short fresh small (omega arith)))
