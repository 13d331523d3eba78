-- ===== src/Api/FramerThread/Checks.antt =====
-- The framer thread's error checks, and its last round.
use si_daq_api.Base.{
  ℕ, ◌≤◌, ◌≡◌, refl, sym, ap, subst, ◌∙◌, not, ◌&&◌, ◌==◌, inl, inr, ◌⊎◌, true, false, none, some,
  List, [], ◌∷◌, ◌++◌, append-nil, flatten, flatten-append, arith, done, ◌>>=◌, Returns, returns,
  Returns-bind, length, take, slt, slt-ltb, ltb→le, le→ltb, Bool-cases,
}
use si_daq_api.Framer.{Framer, Return, list_put, recv_data}
use si_daq_api.Framer
use si_daq_api.Framer.Outcomes.{held}
use si_daq_api.Framer.Joins.{IsHealthy}
use si_daq_api.Api.State.{Mngr}
use si_daq_api.Api.Control.{close_device}
use si_daq_api.Api.FramerThread.{
  minus_one, is_framer_error, is_queue_error, raise_framer_error, raise_queue_error, check_errors,
  check_closed, flush_rest, closed_round, no_block, loops,
}

-- What the thread leaves: it has taken every block, it holds no byte, and the events are the old
-- ones, then those of the bytes that were held or waited.
pub record Drained (events : List ℕ) (m : Mngr) : Type 0 where
  pub taken : m.recv_queue ≡ []
  pub framer : Framer
  pub framer_eq : m.framer ≡ some framer
  pub none_held : held framer ≡ []
  pub events_eq : flatten m.event_frame ≡ events

-- The connection is closed and the loop goes on.
pub record IsClosing (m : Mngr) : Type 0 where
  pub device : m.sock_param.device_socket ≡ none
  pub goes : loops m.status ≡ true

-- The error checks leave the queues, the bytes that are held, and a closed connection.
pub record Checked (f : Framer) (m m' : Mngr) : Type 0 where
  pub framer : Framer
  pub framer_eq : m'.framer ≡ some framer
  pub framer_is : framer ≡ record f { error_flg = framer.error_flg }
  pub recv_queue_same : m'.recv_queue ≡ m.recv_queue
  pub events_same : m'.event_frame ≡ m.event_frame
  pub index_same : m'.squeue_index ≡ m.squeue_index
  pub buffer_same : m'.sock_param.recv_buf_size ≡ m.sock_param.recv_buf_size
  pub closing : IsClosing m → IsClosing m'

pub length-zero : (xs : List ℕ) → length xs ≡ 0 → xs ≡ []
length-zero [] e = refl
length-zero (x ∷ xs) e = absurd (omega arith)

flagged : (f : Framer) (flag : ℕ) → IsHealthy f → IsHealthy (record f { error_flg = flag })
unfolding Framer.event_length
flagged f flag w = record {
  ready = record {
    size = w.ready.size;
    room = w.ready.room;
    small = w.ready.small;
    header = w.ready.header;
  };
  short = w.short;
  rest_fits = w.rest_fits;
  steady = w.steady;
  partial = w.partial;
}

module _ (f : Framer) (m : Mngr) (e : m.framer ≡ some f) where
  unchanged : Checked f m m
  unchanged = record {
    framer = f;
    framer_eq = e;
    framer_is = refl;
    recv_queue_same = refl;
    events_same = refl;
    index_same = refl;
    buffer_same = refl;
    closing = λ c. c;
  }

  raise_framer_error-Checked : Checked f m (raise_framer_error f m)
  unfolding raise_framer_error close_device loops
  raise_framer_error-Checked = record {
    framer = record f { error_flg = minus_one };
    framer_eq = refl;
    framer_is = refl;
    recv_queue_same = refl;
    events_same = refl;
    index_same = refl;
    buffer_same = refl;
    closing = λ c. record { device = refl; goes = refl };
  }

  raise_queue_error-Checked : Checked f m (raise_queue_error f m)
  unfolding raise_queue_error loops
  raise_queue_error-Checked = record {
    framer = record f { error_flg = minus_one };
    framer_eq = refl;
    framer_is = refl;
    recv_queue_same = refl;
    events_same = refl;
    index_same = refl;
    buffer_same = refl;
    closing = λ c. record { device = c.device; goes = refl };
  }

  pub check_errors-Checked : Checked f m (check_errors f m)
  unfolding check_errors
  check_errors-Checked = elim (Bool-cases (not (f.error_flg == 0))) [
    | inl d ↦ rw d unchanged
    | inr d ↦ rw d (elim (Bool-cases (is_framer_error f.error_code)) [
      | inl k ↦ rw k raise_framer_error-Checked
      | inr k ↦ rw k (elim (Bool-cases (is_queue_error m.sock_param.queue_error_code)) [
        | inl q ↦ rw q raise_queue_error-Checked
        | inr q ↦ rw q unchanged
      ])
    ])
  ]

  pub check_closed-Checked : Checked f m (check_closed f m)
  unfolding check_closed
  check_closed-Checked =
      elim (Bool-cases ((f.error_flg == 0) && is_queue_error m.sock_param.queue_error_code)) [
        | inl d ↦ rw d raise_queue_error-Checked
        | inr d ↦ rw d unchanged
      ]

pub flush_some :
    (f : Framer) (m : Mngr)
    → m.framer ≡ some f
    → slt 0 f.rest ≡ true
    → f.rest ≤ length f.buff
    → flush_rest m
      ≡ done (record m {
        event_frame = m.event_frame ++ held f ∷ [];
        framer = some (record f { rest = 0 });
      })
unfolding flush_rest
flush_some f m e d le = ground (arith, le→ltb (length f.buff) f.rest le)

pub flush_none :
    (f : Framer) (m : Mngr) → m.framer ≡ some f → slt 0 f.rest ≡ false → flush_rest m ≡ done m
unfolding flush_rest
flush_none f m e d = ground arith

-- The last event is what the framer holds.
flush_rest-Drained :
    (f : Framer) (m : Mngr)
    → m.framer ≡ some f
    → IsHealthy f
    → m.recv_queue ≡ []
    → Returns (Drained (flatten m.event_frame ++ held f)) (flush_rest m)
unfolding flatten
flush_rest-Drained f m e w none_left =
    let signs = slt-ltb 0 f.rest (omega arith) (omega (arith, w.rest_fits, w.ready.small)) in
    elim (Bool-cases (slt 0 f.rest)) [
      | inl d ↦ rw (flush_some f m e d (omega (arith, w.rest_fits, w.ready.size))) (
          returns (record {
            taken = none_left;
            framer = record f { rest = 0 };
            framer_eq = refl;
            none_held = refl;
            events_eq =
                flatten-append m.event_frame (held f ∷ [])
                ∙ ap (◌++◌ (flatten m.event_frame)) (append-nil (held f));
          }))
      | inr d ↦
          let zero_held : f.rest ≡ 0 = omega (arith, ltb→le 0 f.rest (sym signs ∙ d)) in
          let empty : held f ≡ [] = ap (λ k. take k f.buff) zero_held in
          rw (flush_none f m e d) (
            returns (record {
              taken = none_left;
              framer = f;
              framer_eq = e;
              none_held = empty;
              events_eq = sym (append-nil _) ∙ ap (◌++◌ (flatten m.event_frame)) (sym empty);
            }))
    ]

-- The framer is healthy, its event queue has no limit, and the manager uses its only receive queue.
pub record IsSound (f : Framer) (m : Mngr) : Type 0 where
  pub framer_eq : m.framer ≡ some f
  pub healthy : IsHealthy f
  pub unlimited : f.queue_limit ≡ 0
  pub index : m.squeue_index ≡ 0

-- Everything that a state between two rounds keeps.
pub record IsWorking (f : Framer) (m : Mngr) : Type 0 where
  pub sound : IsSound f m
  pub closing : IsClosing m

pub Checked-IsSound :
    (f : Framer) (m m' : Mngr)
    → IsHealthy f
    → f.queue_limit ≡ 0
    → m.squeue_index ≡ 0
    → (c : Checked f m m') → IsSound c.framer m'
Checked-IsSound f m m' w z index c = record {
  framer_eq = c.framer_eq;
  healthy = subst IsHealthy (sym c.framer_is) (flagged f c.framer.error_flg w);
  unlimited = ap (λ k. k.queue_limit) c.framer_is ∙ z;
  index = c.index_same ∙ index;
}

pub Checked-held : (f : Framer) (m m' : Mngr) (c : Checked f m m') → held c.framer ≡ held f
Checked-held f m m' c = ap held c.framer_is

closed_round_closed :
    (f : Framer) (m : Mngr)
    → m.sock_param.device_socket ≡ none
    → closed_round f m ≡ (flush_rest (check_closed f m) >>= λ m'. done (true, m'))
unfolding closed_round
closed_round_closed f m e = ground arith

closed_round-Drained :
    (f : Framer) (m : Mngr)
    → IsWorking f m
    → m.recv_queue ≡ []
    → Returns (λ r. (r.0 ≡ true) × Drained (flatten m.event_frame ++ held f) r.1) (closed_round f m)
closed_round-Drained f m w none_left =
    let c = check_closed-Checked f m w.sound.framer_eq in
    let v =
      Checked-IsSound f m (check_closed f m) w.sound.healthy w.sound.unlimited w.sound.index c in
    rw (closed_round_closed f m w.closing.device) (
      Returns-bind
        (flush_rest-Drained c.framer (check_closed f m) c.framer_eq v.healthy
          (c.recv_queue_same ∙ none_left))
        λ m' d. returns (
          refl,
          subst (λ k. Drained k m')
              (ap (λ k. flatten k ++ held c.framer) c.events_same
                ∙ ap (◌++◌ (flatten m.event_frame)) (Checked-held f m _ c))
              d,
        ))

pub no_block-cases :
    (f : Framer) (m : Mngr)
    → (no_block f m ≡ closed_round f m) ⊎ (no_block f m ≡ (flush_rest m >>= λ m'. done (true, m')))
unfolding no_block
no_block-cases f m = ground arith

pub no_block-Drained :
    (f : Framer) (m : Mngr)
    → IsWorking f m
    → m.recv_queue ≡ []
    → Returns (λ r. (r.0 ≡ true) × Drained (flatten m.event_frame ++ held f) r.1) (no_block f m)
no_block-Drained f m w none_left = elim (no_block-cases f m) [
  | inl e ↦ rw e (closed_round-Drained f m w none_left)
  | inr e ↦ rw e (
      Returns-bind (flush_rest-Drained f m w.sound.framer_eq w.sound.healthy none_left)
        λ m' d. returns (refl, d))
]
