-- ===== src/Framer/Joins.antt =====
-- The first part of a call, where bytes are held from the last one, and the whole call.
use si_daq_api.Base.{
  ℕ, suc, ◌+◌, ◌-◌, ◌<◌, ◌≤◌, ◌≡◌, refl, sym, ap, subst, ◌∙◌, ◌⊎◌, inl, inr, ◌^◌, false, List, [],
  ◌++◌, flatten, append-nil, arith, Returns, returns, Returns-bind, length, length-append, take,
  take_all, ltb, ltb→lt, ltb→le, lt→ltb, le→ltb, add32, add32_exact, sub32, sub32_exact, slt,
  slt-ltb, is_neg-false, Bool-cases,
}
use si_daq_api.Framer.{
  Framer, event_length, fall_back, sized, Return, frames, finish, join_at, join_rest, recv_rest,
  recv_loop, recv_data, list_put,
}
use si_daq_api.Framer.Sizing.{
  IsReady, IsSteady, IsPartial, incomplete-IsPartial, fall_back-IsSteady, sized-cases,
}
use si_daq_api.Framer.Rounds.{resume-ok, recv_loop-ok}
use si_daq_api.Framer.Outcomes.{
  Packets, held, Ends, RoundOk, memcpy-done, put_frame-done, fall_back-IsReady, IsReady-buff,
}
use si_daq_api.Framer.Buffer.{
  length-held, cleared, after_first-ok, filled, length-filled, take-filled, held-filled,
}

-- The bytes in the buffer are the held ones and the first `copy` of the new ones; either all the
-- new ones are there, or the buffer is full.
module _ (f f₁ : Framer) (data_ : List ℕ) (copy : ℕ) (q : Packets) (v : IsReady f) (w : IsReady f₁)
    (hd : f₁.header_len ≤ f.header_len) (some_held : 0 < f.rest)
    (fits : f.rest + copy ≤ f.buff_size) (le : copy ≤ length data_) (small : length data_ < 2 ^ 31)
    (buff : f₁.buff ≡ filled f data_ copy) (size : f₁.buff_size ≡ f.buff_size)
    (short : f.header_len ≤ 2) (steady : IsSteady f₁) (same : f₁.queue_limit ≡ f.queue_limit) where
  join_ends :
      copy ≡ length data_
      → IsPartial (record f₁ { rest = f.rest + copy })
      → RoundOk
          (cleared f)
          (held f ++ data_)
          0
          q
          (finish (record f₁ { rest = f.rest + copy }) q (frames 0))
  unfolding flatten
  join_ends all partial = record {
    out = [];
    lost = [];
    queue = sym (append-nil q);
    bytes =
        append-nil _
        ∙ rw buff (take-filled f data_ copy v some_held fits le copy (omega arith))
        ∙ ap (◌++◌ (held f)) (take_all copy data_ (omega arith));
    ready = record { size = w.size; room = w.room; small = w.small; header = w.header };
    rest_fits = omega arith;
    short = omega arith;
    steady = steady;
    partial = partial;
    verdict = inl (refl, refl);
    limit_same = same;
  }

  join_cuts :
      (total : ℕ)
      → f.rest ≤ total
      → total ≤ f.rest + copy
      → Returns
          (RoundOk (cleared f) (held f ++ data_) 0 q)
          (join_at list_put f₁ total f.rest data_ (length data_) (f.rest + copy) q)
  unfolding join_at
  join_cuts total ge tot =
      let used : ℕ = total - f.rest in
      let exact = sub32_exact total f.rest (omega (arith, v.small)) ge in
      let signs : slt (f.rest + copy) total ≡ false =
        slt-ltb (f.rest + copy) total (omega (arith, v.small)) (omega (arith, v.small))
        ∙ le→ltb _ _ tot in
      let frame : take total f₁.buff ≡ held f ++ take used data_ =
        ap (take total) buff
        ∙ ap (λ k. take k (filled f data_ copy)) (omega arith)
        ∙ take-filled f data_ copy v some_held fits le used (omega arith) in
      rw
        (
          signs,
          put_frame-done f₁.buff total q (omega (arith, v.small)) (omega (arith, w.size, size)),
          exact,
          frame,
        )
        (after_first-ok f f₁ data_ q (length q + 1) used w hd
          (omega (arith, length-held f v (omega arith))) small (omega arith) short steady same)

  join_keeps :
      (total : ℕ)
      → f.rest + copy < total
      → total < 2 ^ 31
      → copy ≡ length data_
      → IsPartial (record f₁ { rest = f.rest + copy })
      → Returns
          (RoundOk (cleared f) (held f ++ data_) 0 q)
          (join_at list_put f₁ total f.rest data_ (length data_) (f.rest + copy) q)
  unfolding join_at
  join_keeps total gt small_total all partial =
      rw (slt-ltb (f.rest + copy) total (omega (arith, v.small)) small_total, lt→ltb _ _ gt)
        (returns (join_ends all partial))

event_length-buff :
    (f : Framer) (buff bytes : List ℕ) (len : ℕ)
    → event_length (record f { buff = buff }) bytes len ≡ event_length f bytes len
unfolding event_length
event_length-buff f buff bytes len = refl

module _ (f : Framer) (data_ : List ℕ) (q : Packets) (v : IsReady f) (short : f.header_len ≤ 2)
    (some_held : 0 < f.rest) (rest_fits : f.rest ≤ f.buff_size) (partial : IsPartial f)
    (steady : IsSteady f) (small : length data_ < 2 ^ 31) where
  join_rest-ok :
      (copy : ℕ)
      → f.rest + copy ≤ f.buff_size
      → copy ≤ length data_
      → (copy ≡ length data_) ⊎ (f.rest + copy ≡ f.buff_size)
      → let buff = filled f data_ copy in
        Returns (RoundOk (cleared f) (held f ++ data_) 0 q) (
          join_rest list_put
            (sized (record f { buff = buff }) buff (f.rest + copy))
            f.rest
            data_
            (length data_)
            (f.rest + copy)
            q)
  unfolding join_rest
  join_rest-ok copy fits le full =
      let buff = filled f data_ copy in
      let f₁ : Framer = record f { buff = buff } in
      let w : IsReady f₁ =
        IsReady-buff f buff f.rest v (length-filled f data_ copy v some_held fits le) in
      elim (sized-cases f₁ buff (f.rest + copy) w (omega arith)) [
        | inl fit ↦
            let total : ℕ = event_length f₁ buff (f.rest + copy) + f.header_len in
            let ge : f.rest ≤ total = omega (
              arith,
              event_length-buff f buff buff (f.rest + copy),
              partial buff (f.rest + copy) (held-filled f data_ copy v some_held fits le)
                  (omega arith),
            ) in
            rw (fit.keeps, fit.total)
              (elim (Bool-cases (ltb (f.rest + copy) total)) [
                | inl m ↦
                    join_keeps f f₁ data_ copy q v w (omega arith) some_held fits le small refl refl
                      short steady refl total (ltb→lt _ _ m)
                      (omega (arith, fit.bounded, v.room, v.small))
                      (ground (arith, fit.bounded, v.room, ltb→lt _ _ m))
                      (incomplete-IsPartial f₁ buff buff (f.rest + copy) steady (ltb→lt _ _ m) refl)
                | inr m ↦
                    join_cuts f f₁ data_ copy q v w (omega arith) some_held fits le small refl refl
                      short steady refl total ge (ltb→le _ _ m)
              ])
        | inr back ↦
            let total : add32 (f.rest + copy) 0 ≡ f.rest + copy =
              add32_exact (f.rest + copy) 0 (omega (arith, v.small)) ∙ omega arith in
            rw (back.keeps, total)
              (join_cuts f (fall_back back.code f₁) data_ copy q v
                (fall_back-IsReady back.code f₁ w) (omega arith) some_held fits le small refl refl
                short (fall_back-IsSteady back.code f₁) refl (f.rest + copy) (omega arith)
                (omega arith))
      ]

  recv_rest-ok :
      Returns
        (RoundOk (cleared f) (held f ++ data_) 0 q)
        (recv_rest list_put f data_ (length data_) q)
  unfolding recv_rest
  recv_rest-ok =
      let room : ℕ = f.buff_size - f.rest in
      let exact : sub32 f.buff_size f.rest ≡ room =
        sub32_exact f.buff_size f.rest (omega (arith, v.small)) rest_fits in
      let signs = slt-ltb (length data_) room small (omega (arith, v.small)) in
      rw (exact, is_neg-false room (omega (arith, v.small)))
        (elim (Bool-cases (slt (length data_) room)) [
          | inl m ↦
              let lt : length data_ < room = ltb→lt _ _ (sym signs ∙ m) in
              rw
                (
                  m,
                  memcpy-done f.buff f.rest data_ (length data_) (omega (arith, v.size))
                      (omega arith),
                  add32_exact f.rest (length data_) (omega (arith, v.small)),
                )
                (join_rest-ok (length data_) (omega arith) (omega arith) (inl refl))
          | inr m ↦
              let ge : room ≤ length data_ = ltb→le _ _ (sym signs ∙ m) in
              rw
                (
                  m,
                  memcpy-done f.buff f.rest data_ room (omega (arith, v.size)) (omega arith),
                  add32_exact f.rest room (omega (arith, v.small)),
                )
                (join_rest-ok room (omega arith) ge (inr (omega arith)))
        ])

-- What every call keeps, and needs: the settings are ready, the header is of at most two bytes,
-- the held bytes fit and begin a frame, and the length function looks at the header alone.
pub record IsHealthy (f : Framer) : Type 0 where
  pub ready : IsReady f
  pub short : f.header_len ≤ 2
  pub rest_fits : f.rest ≤ f.buff_size
  pub steady : IsSteady f
  pub partial : IsPartial f

pub Ends-IsHealthy :
    {limit : ℕ} {read : List ℕ} {count : ℕ} {q : Packets} {f' : Framer} {q' : Packets}
    {ret : Return}
    → Ends limit read count q f' q' ret
    → IsHealthy f'
Ends-IsHealthy e = record {
  ready = e.ready;
  short = e.short;
  rest_fits = e.rest_fits;
  steady = e.steady;
  partial = e.partial;
}

-- On a healthy framer, and while the held and the received bytes are less than 2 ^ 31,
-- `RecvSiDaqData` returns and leaves the framer healthy; the bytes that were held or received are
-- in the frames that it puts into the queue, in order, then in what it holds, then lost, and none
-- is lost unless it answers -1 with an error and the queue has a limit.
pub recv_data-ok :
    (past : ℕ) (f : Framer) (data_ : List ℕ) (q : Packets)
    → IsHealthy f
    → length data_ + f.rest < 2 ^ 31
    → Returns
        (λ (f', q', ret). Ends f.queue_limit (held f ++ data_) 0 q f' q' ret)
        (recv_data list_put past f data_ (length data_) q)
unfolding recv_data
recv_data-ok past f data_ q w small =
    let v = w.ready in
    let short = w.short in
    let rest_fits = w.rest_fits in
    let fits : length (held f ++ data_) ≡ f.rest + length data_ =
      omega (arith, length-append (held f) data_, length-held f v rest_fits) in
    let signs = slt-ltb 0 f.rest (omega arith) (omega arith) in
    rw (is_neg-false (length data_) (omega arith)) (elim (Bool-cases (slt 0 f.rest)) [
      | inl m ↦
          let fuel : ℕ = suc (f.rest + length data_) in
          rw m (
            Returns-bind
              (recv_rest-ok f data_ q v short (ltb→lt _ _ (sym signs ∙ m)) rest_fits w.partial
                w.steady (omega arith))
              (resume-ok fuel past (recv_loop-ok fuel past) (cleared f) (held f ++ data_) 0 q short
                refl (omega arith) (omega arith)))
      | inr m ↦
          let none_held : 0 ≡ f.rest = omega (arith, ltb→le 0 f.rest (sym signs ∙ m)) in
          rw m (
            subst
              (λ k.
                Returns (λ (f', q', ret). Ends f.queue_limit (take k f.buff ++ data_) 0 q f' q' ret)
                  (recv_loop list_put (suc (length data_)) past f data_ (length data_) 0 q))
              none_held
              (recv_loop-ok (suc (length data_)) past f data_ (length data_) 0 q v w.steady short
                (sym none_held) (omega arith) refl (omega arith)))
    ])
