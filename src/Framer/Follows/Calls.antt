-- ===== src/Framer/Follows/Calls.antt =====
-- `RecvSiDaqData` uses the event queue through `SQPut` alone: a queue that follows another one put by
-- put is followed over a whole call.
use si_daq_api.Base.{
  ℕ, zero, suc, ◌+◌, ◌<◌, ◌^◌, ◌||◌, Option, none, some, List, [], ◌∷◌, arith, Outcome, done,
  length, length-take, take, get_or, sub32, add32, slt, ltb, is_neg, if◌then◌else◌, ◌==◌,
}
use si_daq_api.Framer.{
  Framer, memcpy, sized, failed, Round, finish, again, Result, resume, limit_hit, put_frame,
  after_first, join_at, join_rest, recv_rest, after_frame, cut_at, cut_round, recv_round, recv_loop,
  recv_data, memory_allocated_failed,
}
use si_daq_api.Framer.Follows.{
  Follows, faults, starves, Follows-done, Follows-if, Follows-cases, Follows-pure, Follows-bind,
  round_queue, with_round, result_queue, with_result, put_queue, with_put,
}

module _ {Q Q' : Type 0} (Good : Q → Type 0) (Same : Q → Q' → Type 0)
    (put : List ℕ → Q → Outcome (Option ℕ × Q)) (put' : List ℕ → Q' → Outcome (Option ℕ × Q'))
    (puts : (bytes : List ℕ) (q : Q)
      → length bytes < 2 ^ 31
      → Follows Good Same put_queue with_put q (put' bytes) (put bytes q)) where
  abbrev FollowsRound : Q → (Q' → Outcome (Round Q')) → Outcome (Round Q) → Type 0
  FollowsRound = Follows Good Same round_queue with_round

  abbrev FollowsResult : Q → (Q' → Outcome (Result Q')) → Outcome (Result Q) → Type 0
  FollowsResult = Follows Good Same result_queue with_result

  put_frame-Follows :
      (bytes : List ℕ) (total : ℕ) (q : Q)
      → Follows Good Same put_queue with_put q
          (put_frame put' bytes total)
          (put_frame put bytes total q)
  unfolding put_frame is_neg
  put_frame-Follows bytes total q =
      Follows-cases (is_neg total || ltb (length bytes) total) (λ e. faults)
        λ e. puts (take total bytes) q (ground (arith, e, length-take total bytes))

  after_first-Follows :
      (f : Framer) (read : List ℕ) (data_len used n : ℕ) (q : Q)
      → FollowsRound q
          (after_first put' f read data_len used n)
          (after_first put f read data_len used n q)
  unfolding after_first
  after_first-Follows f read data_len used n q =
      Follows-if (slt used data_len) (Follows-if (is_neg used) faults (Follows-done _))
        (Follows-done _)

  -- What stands behind a put: out of memory, or on.
  abbrev after_put :
      {P : Type 0} → Framer → (ℕ → P → Outcome (Round P)) → Option ℕ × P → Outcome (Round P)
  after_put f go r = elim r.0 [
    | none ↦ done (finish (record f { error_code = memory_allocated_failed }) r.1 failed)
    | some n ↦ go n r.1
  ]

  after_put-Follows :
      (f : Framer) (go : ℕ → Q → Outcome (Round Q)) (go' : ℕ → Q' → Outcome (Round Q'))
      → ((n : ℕ) (q : Q) → FollowsRound q (go' n) (go n q))
      → (r : Option ℕ × Q)
      → FollowsRound (put_queue r) (λ q'. after_put f go' (with_put r q')) (after_put f go r)
  after_put-Follows f go go' next (none, q) = Follows-done _
  after_put-Follows f go go' next (some n, q) = next n q

  join_at-Follows :
      (f : Framer) (total rest : ℕ) (read : List ℕ) (data_len copy_len : ℕ) (q : Q)
      → FollowsRound q
          (join_at put' f total rest read data_len copy_len)
          (join_at put f total rest read data_len copy_len q)
  unfolding join_at
  join_at-Follows f total rest read data_len copy_len q =
      Follows-if (slt copy_len total) (Follows-done _) (
        Follows-bind (after_put f (λ n. after_first put f read data_len (sub32 total rest) n))
          (after_put f (λ n. after_first put' f read data_len (sub32 total rest) n))
          (put_frame-Follows f.buff total q)
          (after_put-Follows f _ _
            λ n q. after_first-Follows f read data_len (sub32 total rest) n q))

  join_rest-Follows :
      (r : Framer × ℕ) (rest : ℕ) (read : List ℕ) (data_len copy_len : ℕ) (q : Q)
      → FollowsRound q
          (join_rest put' r rest read data_len copy_len)
          (join_rest put r rest read data_len copy_len q)
  unfolding join_rest
  join_rest-Follows (f, event) rest read data_len copy_len q =
      join_at-Follows f (add32 event f.header_len) rest read data_len copy_len q

  recv_rest-Follows :
      (f : Framer) (read : List ℕ) (data_len : ℕ) (q : Q)
      → FollowsRound q (recv_rest put' f read data_len) (recv_rest put f read data_len q)
  unfolding recv_rest
  recv_rest-Follows f read data_len q =
      let room = sub32 f.buff_size f.rest in
      let copy_len = (if slt data_len room then data_len else room) in
      Follows-if (is_neg room) (Follows-done _) (
        Follows-pure (memcpy f.buff f.rest read copy_len) λ buff.
          join_rest-Follows (sized (record f { buff = buff }) buff (add32 f.rest copy_len)) f.rest
            read data_len (add32 f.rest copy_len) q)

  after_frame-Follows :
      (f : Framer) (read : List ℕ) (data_len total n count : ℕ) (q : Q)
      → FollowsRound q
          (after_frame put' f read data_len total n count)
          (after_frame put f read data_len total n count q)
  unfolding after_frame
  after_frame-Follows f read data_len total n count q =
      Follows-if (limit_hit f n) (Follows-done _) (Follows-done _)

  cut_at-Follows :
      (f : Framer) (total : ℕ) (read : List ℕ) (data_len count : ℕ) (q : Q)
      → FollowsRound q
          (cut_at put' f total read data_len count)
          (cut_at put f total read data_len count q)
  unfolding cut_at
  cut_at-Follows f total read data_len count q =
      Follows-if (slt data_len total)
        (Follows-pure (memcpy f.buff 0 read data_len) λ buff. Follows-done _)
        (Follows-bind (after_put f (λ n. after_frame put f read data_len total n count))
          (after_put f (λ n. after_frame put' f read data_len total n count))
          (put_frame-Follows read total q)
          (after_put-Follows f _ _ λ n q. after_frame-Follows f read data_len total n count q))

  cut_round-Follows :
      (r : Framer × ℕ) (read : List ℕ) (data_len count : ℕ) (q : Q)
      → FollowsRound q
          (cut_round put' r read data_len count)
          (cut_round put r read data_len count q)
  unfolding cut_round
  cut_round-Follows (f, event) read data_len count q =
      cut_at-Follows f (add32 event f.header_len) read data_len count q

  recv_round-Follows :
      (past : ℕ) (f : Framer) (read : List ℕ) (data_len count : ℕ) (q : Q)
      → FollowsRound q
          (recv_round put' past f read data_len count)
          (recv_round put past f read data_len count q)
  unfolding recv_round
  recv_round-Follows past f read data_len count q =
      Follows-if ((data_len == 0) || slt data_len f.header_len)
        (Follows-pure (memcpy f.buff 0 (get_or read 0 past ∷ []) 1) λ buff. Follows-done _)
        (cut_round-Follows (sized f read data_len) read data_len count q)

  -- The rest of the call, once a round is done.
  resume-Follows :
      (fuel past : ℕ)
      → ((f : Framer) (read : List ℕ) (data_len count : ℕ) (q : Q)
          → FollowsResult q
              (recv_loop put' fuel past f read data_len count)
              (recv_loop put fuel past f read data_len count q))
      → (r : Round Q)
      → FollowsResult
          (round_queue r)
          (λ q'. resume (recv_loop put' fuel past) (with_round r q'))
          (resume (recv_loop put fuel past) r)
  resume-Follows fuel past loop (finish f q ret) = Follows-done _
  resume-Follows fuel past loop (again f read data_len count q) = loop f read data_len count q

  recv_loop-Follows :
      (fuel past : ℕ) (f : Framer) (read : List ℕ) (data_len count : ℕ) (q : Q)
      → FollowsResult q
          (recv_loop put' fuel past f read data_len count)
          (recv_loop put fuel past f read data_len count q)
  unfolding recv_loop
  recv_loop-Follows zero past f read data_len count q = starves
  recv_loop-Follows (suc fuel) past f read data_len count q =
      Follows-bind (resume (recv_loop put fuel past)) (resume (recv_loop put' fuel past))
        (recv_round-Follows past f read data_len count q)
        (resume-Follows fuel past (recv_loop-Follows fuel past))

  -- A whole call.
  pub recv_data-Follows :
      (past : ℕ) (f : Framer) (read : List ℕ) (data_len : ℕ) (q : Q)
      → FollowsResult q (recv_data put' past f read data_len) (recv_data put past f read data_len q)
  unfolding recv_data
  recv_data-Follows past f read data_len q =
      let fuel = suc (f.rest + data_len) in
      Follows-if (is_neg data_len) (Follows-done _) (
        Follows-if (slt 0 f.rest)
          (Follows-bind (resume (recv_loop put fuel past)) (resume (recv_loop put' fuel past))
            (recv_rest-Follows f read data_len q)
            (resume-Follows fuel past (recv_loop-Follows fuel past)))
          (recv_loop-Follows (suc data_len) past f read data_len 0 q))
