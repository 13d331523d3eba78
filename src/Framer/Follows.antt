-- ===== src/Framer/Follows.antt =====
-- Runs of SiDaqApi/sidaq_framer.cpp over two event queues, of which one follows the other.
pub mod Calls
use si_daq_api.Base.{
  ℕ, zero, suc, ◌+◌, ◌<◌, ◌^◌, ◌||◌, Bool, true, false, inl, inr, Option, none, some, List, [], ◌∷◌,
  arith, Outcome, done, fault, out_of_fuel, ◌>>=◌, ◌≡◌, refl, ap, ◌∙◌, length, length-take, take,
  drop, get_or, sub32, add32, slt, ltb, is_neg, if◌then◌else◌, Bool-cases, ◌==◌,
}
use si_daq_api.Framer.{
  Framer, memcpy, sized, Return, frames, failed, Round, finish, again, Result, resume, limit_hit,
  put_frame, after_first, join_at, join_rest, recv_rest, after_frame, cut_at, cut_round, recv_round,
  recv_loop, recv_data, exceed_frame_queue_count, buf_size_error, memory_allocated_failed,
}

-- Runs over `Q` and over `Q'`. `Good` is what the queue has to satisfy in the end for the second
-- run to be able to follow.
module _ {Q Q' : Type 0} (Good : Q → Type 0) (Same : Q → Q' → Type 0) where
  -- If the first run ends with a good queue, it began with one, and the second run ends with the
  -- same result, over the queue that is the same.
  pub data Follows {A B : Type 0} (queue : A → Q) (with_ : A → Q' → B) (q : Q)
      (run : Q' → Outcome B) : Outcome A → Type 0 where
    ends :
        {a : A}
        → (Good (queue a)
            → Good q
              × ((q' : Q')
                  → Same q q'
                  → (q₁ : Q') × (run q' ≡ done (with_ a q₁)) × Same (queue a) q₁))
        → Follows queue with_ q run (done a)
    faults : Follows queue with_ q run fault
    starves : Follows queue with_ q run out_of_fuel

module _ {Q Q' : Type 0} {Good : Q → Type 0} {Same : Q → Q' → Type 0} where
  module _ {A B : Type 0} {queue : A → Q} {with_ : A → Q' → B} where
    pub Follows-done :
        (a : A) → Follows Good Same queue with_ (queue a) (λ q'. done (with_ a q')) (done a)
    Follows-done a = ends λ g. (g, λ q' s. (q', refl, s))

    pub Follows-if :
        (b : Bool) {q : Q} {x y : Outcome A} {x' y' : Q' → Outcome B}
        → Follows Good Same queue with_ q x' x
        → Follows Good Same queue with_ q y' y
        → Follows Good Same queue with_ q (λ q'. if b then x' q' else y' q') (if b then x else y)
    Follows-if true f g = f
    Follows-if false f g = g

    pub Follows-cases :
        (b : Bool) {q : Q} {x y : Outcome A} {x' y' : Q' → Outcome B}
        → (b ≡ true → Follows Good Same queue with_ q x' x)
        → (b ≡ false → Follows Good Same queue with_ q y' y)
        → Follows Good Same queue with_ q (λ q'. if b then x' q' else y' q') (if b then x else y)
    Follows-cases true f g = f refl
    Follows-cases false f g = g refl

    -- A step that does not use the queue.
    pub Follows-pure :
        {C : Type 0} (o : Outcome C) {q : Q} {k : C → Outcome A} {k' : C → Q' → Outcome B}
        → ((c : C) → Follows Good Same queue with_ q (k' c) (k c))
        → Follows Good Same queue with_ q (λ q'. o >>= λ c. k' c q') (o >>= k)
    Follows-pure (done c) f = f c
    Follows-pure fault f = faults
    Follows-pure out_of_fuel f = starves

    module _ {C D : Type 0} {queue₂ : C → Q} {with₂ : C → Q' → D} where
      Follows-after :
          {a : A} {q : Q} {o : Outcome C} {run : Q' → Outcome B} (k' : B → Outcome D)
          → Follows Good Same queue with_ q run (done a)
          → Follows Good Same queue₂ with₂ (queue a) (λ q'. k' (with_ a q')) o
          → Follows Good Same queue₂ with₂ q (λ q'. run q' >>= k') o
      Follows-after k' f faults = faults
      Follows-after k' f starves = starves
      Follows-after k' (ends f) (ends next) = ends λ g.
          let (g₁, more) = next g in
          let (g₀, first) = f g₁ in
          (
            g₀,
            λ q' s.
                let (q₁, e, s₁) = first q' s in
                let (q₂, e₂, s₂) = more q₁ s₁ in (q₂, ap (λ o. o >>= k') e ∙ e₂, s₂),
          )

      pub Follows-bind :
          {q : Q} {o : Outcome A} {run : Q' → Outcome B} (k : A → Outcome C) (k' : B → Outcome D)
          → Follows Good Same queue with_ q run o
          → ((a : A) → Follows Good Same queue₂ with₂ (queue a) (λ q'. k' (with_ a q')) (k a))
          → Follows Good Same queue₂ with₂ q (λ q'. run q' >>= k') (o >>= k)
      Follows-bind k k' faults next = faults
      Follows-bind k k' starves next = starves
      Follows-bind k k' (ends {a} f) next = Follows-after k' (ends f) (next a)

-- Where the queue stands in a round and in a result.
abbrev pub round_queue : {Q : Type 0} → Round Q → Q
round_queue (finish f q ret) = q
round_queue (again f read data_len count q) = q

abbrev pub with_round : {Q Q' : Type 0} → Round Q → Q' → Round Q'
with_round (finish f q ret) q' = finish f q' ret
with_round (again f read data_len count q) q' = again f read data_len count q'

abbrev pub result_queue : {Q : Type 0} → Result Q → Q
result_queue (f, q, ret) = q

abbrev pub with_result : {Q Q' : Type 0} → Result Q → Q' → Result Q'
with_result (f, q, ret) q' = (f, q', ret)

abbrev pub put_queue : {Q : Type 0} → Option ℕ × Q → Q
put_queue (n, q) = q

abbrev pub with_put : {Q Q' : Type 0} → Option ℕ × Q → Q' → Option ℕ × Q'
with_put (n, q) q' = (n, q')
