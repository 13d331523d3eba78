-- ===== src/Api/FramerThread/Conserve.antt =====
-- Every round of the framer thread, in any state: no byte is lost, doubled or moved.
use si_daq_api.Base.{
  ℕ, ◌≡◌, ◌⊎◌, refl, sym, ap, ap₂, subst, ◌∙◌, inl, inr, Bool, true, false, List, [], ◌∷◌, ◌++◌,
  append_assoc, append-nil, flatten, flatten-append, arith, done, ◌>>=◌, Returns, returns,
  Returns-bind, slt, Bool-cases,
}
use si_daq_api.Framer.{Framer}
use si_daq_api.Framer
use si_daq_api.Framer.Outcomes.{Packets, held}
use si_daq_api.Framer.Joins.{IsHealthy}
use si_daq_api.Framer.Stream.{AllSmall}
use si_daq_api.Api.State.{Mngr}
use si_daq_api.Api.FramerThread.{
  check_closed, flush_rest, frame_block, closed_round, no_block, framer_round, framer_end,
}
use si_daq_api.Api.FramerThread.Checks.{
  IsSound, Checked-IsSound, Checked-held, check_closed-Checked, flush_some, flush_none,
  no_block-cases,
}
use si_daq_api.Api.FramerThread.Ends.{KeepsData, sidaq_stop-KeepsData, framer_end-cases}
use si_daq_api.Api.FramerThread.Blocks.{Took-bytes, frame_block-Took}

-- The bytes that a manager has: the events, what the framer holds, and the blocks that wait.
abbrev pub on_hand : Framer → Mngr → List ℕ
on_hand f m = flatten m.event_frame ++ (held f ++ flatten m.recv_queue)

-- A step of the thread leaves the manager sound, and keeps its bytes in order.
pub record Kept (f : Framer) (m m' : Mngr) : Type 0 where
  pub framer : Framer
  pub sound : IsSound framer m'
  pub bytes : on_hand framer m' ≡ on_hand f m
  pub small : AllSmall m.recv_queue → AllSmall m'.recv_queue
  pub buffer_same : m'.sock_param.recv_buf_size ≡ m.sock_param.recv_buf_size

pub Kept-refl : (f : Framer) (m : Mngr) → IsSound f m → Kept f m m
Kept-refl f m v = record { framer = f; sound = v; bytes = refl; small = λ a. a; buffer_same = refl }

Kept-trans : (f : Framer) (m m' m'' : Mngr) (k : Kept f m m') → Kept k.framer m' m'' → Kept f m m''
Kept-trans f m m' m'' k l = record {
  framer = l.framer;
  sound = l.sound;
  bytes = l.bytes ∙ k.bytes;
  small = λ a. l.small (k.small a);
  buffer_same = l.buffer_same ∙ k.buffer_same;
}

emptied-IsHealthy : (f : Framer) → IsHealthy f → IsHealthy (record f { rest = 0 })
unfolding Framer.event_length
emptied-IsHealthy f w = record {
  ready = record {
    size = w.ready.size;
    room = w.ready.room;
    small = w.ready.small;
    header = w.ready.header;
  };
  short = w.short;
  rest_fits = omega arith;
  steady = w.steady;
  partial = λ buff len e le. omega arith;
}

flush_rest-Kept : (f : Framer) (m : Mngr) → IsSound f m → Returns (Kept f m) (flush_rest m)
unfolding flatten
flush_rest-Kept f m v = elim (Bool-cases (slt 0 f.rest)) [
  | inl d ↦
      rw (flush_some f m v.framer_eq d (omega (arith, v.healthy.rest_fits, v.healthy.ready.size))) (
        returns (record {
          framer = record f { rest = 0 };
          sound = record {
            framer_eq = refl;
            healthy = emptied-IsHealthy f v.healthy;
            unlimited = v.unlimited;
            index = v.index;
          };
          bytes =
              ap (λ k. k ++ flatten m.recv_queue)
                (flatten-append m.event_frame (held f ∷ [])
                  ∙ ap (◌++◌ (flatten m.event_frame)) (append-nil (held f)))
              ∙ append_assoc (flatten m.event_frame) (held f) (flatten m.recv_queue);
          small = λ a. a;
          buffer_same = refl;
        }))
  | inr d ↦ rw (flush_none f m v.framer_eq d) (returns (Kept-refl f m v))
]

on_hand_eq :
    (f f' : Framer) (m m' : Mngr)
    → m'.event_frame ≡ m.event_frame
    → held f' ≡ held f
    → m'.recv_queue ≡ m.recv_queue
    → on_hand f' m' ≡ on_hand f m
on_hand_eq f f' m m' events same queue =
    ap₂ (λ e k. flatten e ++ k) events (ap₂ (λ h q. h ++ flatten q) same queue)

check_closed-Kept : (f : Framer) (m : Mngr) → IsSound f m → Kept f m (check_closed f m)
check_closed-Kept f m v =
    let c = check_closed-Checked f m v.framer_eq in
    record {
      framer = c.framer;
      sound = Checked-IsSound f m (check_closed f m) v.healthy v.unlimited v.index c;
      bytes =
          on_hand_eq f c.framer m (check_closed f m) c.events_same
            (Checked-held f m (check_closed f m) c) c.recv_queue_same;
      small = subst AllSmall (sym c.recv_queue_same);
      buffer_same = c.buffer_same;
    }

closed_round-cases :
    (f : Framer) (m : Mngr)
    → (closed_round f m ≡ done (false, m))
      ⊎ (closed_round f m ≡ (flush_rest (check_closed f m) >>= λ m'. done (true, m')))
unfolding closed_round
closed_round-cases f m = ground arith

-- A round with the framer there, and the manager on its only receive queue.
module _ (timed_out : Bool) (past : ℕ) (f : Framer) (m : Mngr) (v : IsSound f m) where
  framer_round_none :
      m.recv_queue ≡ []
      → (framer_round timed_out past m ≡ done (true, m))
        ⊎ (framer_round timed_out past m ≡ no_block f m)
  unfolding framer_round
  framer_round_none e = ground (arith, v.framer_eq, v.index)

  framer_round_some :
      (block : List ℕ) (blocks : Packets)
      → m.recv_queue ≡ block ∷ blocks
      → (framer_round timed_out past m ≡ done (true, m))
        ⊎ ((framer_round timed_out past m ≡ no_block f m)
            ⊎ (framer_round timed_out past m
                ≡ (frame_block past block blocks f m >>= λ m'. done (false, m'))))
  unfolding framer_round
  framer_round_some block blocks e = ground (arith, v.framer_eq, v.index)

-- The end of the loop, behind a step that kept the bytes.
module _ (f : Framer) (m : Mngr) (v : IsSound f m) where
  flush_checked :
      (m' : Mngr)
      → Kept f m m'
      → Returns {A = Bool × Mngr} (λ r. Kept f m r.1) (flush_rest m' >>= λ m''. done (true, m''))
  flush_checked m' k =
      Returns-bind (flush_rest-Kept k.framer m' k.sound)
        λ m'' l. returns (Kept-trans f m m' m'' k l)

  closed_round-Kept : Returns (λ r. Kept f m r.1) (closed_round f m)
  closed_round-Kept = elim (closed_round-cases f m) [
    | inl e ↦ rw e (returns (Kept-refl f m v))
    | inr e ↦ rw e (flush_checked (check_closed f m) (check_closed-Kept f m v))
  ]

  no_block-Kept : Returns (λ r. Kept f m r.1) (no_block f m)
  no_block-Kept = elim (no_block-cases f m) [
    | inl e ↦ rw e closed_round-Kept
    | inr e ↦ rw e (flush_checked m (Kept-refl f m v))
  ]

  frame_block-Kept :
      (past : ℕ) (block : List ℕ) (blocks : Packets)
      → m.recv_queue ≡ block ∷ blocks
      → AllSmall (block ∷ blocks)
      → Returns {A = Bool × Mngr}
          (λ r. Kept f m r.1)
          (frame_block past block blocks f m >>= λ m'. done (false, m'))
  unfolding flatten
  frame_block-Kept past block blocks e small =
      Returns-bind (frame_block-Took past block blocks f m v small.0) λ m' t. returns (record {
        framer = t.framer;
        sound = t.sound;
        bytes =
            ap (λ k. flatten m'.event_frame ++ (held t.framer ++ flatten k)) t.left
            ∙ Took-bytes block blocks f m m' t
            ∙ ap (λ k. flatten m.event_frame ++ (held f ++ flatten k)) (sym e);
        small = λ a. subst AllSmall (sym t.left) small.1;
        buffer_same = t.buffer_same;
      })

  round_by :
      (timed_out : Bool) (past : ℕ) (queue : Packets)
      → m.recv_queue ≡ queue
      → AllSmall queue
      → Returns (λ r. Kept f m r.1) (framer_round timed_out past m)
  round_by timed_out past [] e small = elim (framer_round_none timed_out past f m v e) [
    | inl d ↦ rw d (returns (Kept-refl f m v))
    | inr d ↦ rw d no_block-Kept
  ]
  round_by timed_out past (block ∷ blocks) e small =
      elim (framer_round_some timed_out past f m v block blocks e) [
        | inl d ↦ rw d (returns (Kept-refl f m v))
        | inr (inl d) ↦ rw d no_block-Kept
        | inr (inr d) ↦ rw d (frame_block-Kept past block blocks e small)
      ]

  -- A round returns, and keeps the bytes.
  pub framer_round-Kept :
      (timed_out : Bool) (past : ℕ)
      → AllSmall m.recv_queue
      → Returns (λ r. Kept f m r.1) (framer_round timed_out past m)
  framer_round-Kept timed_out past small = round_by timed_out past m.recv_queue refl small

pub KeepsData-Kept : (f : Framer) (m m' : Mngr) → IsSound f m → KeepsData m m' → Kept f m m'
KeepsData-Kept f m m' v k = record {
  framer = f;
  sound = record {
    framer_eq = k.framer_same ∙ v.framer_eq;
    healthy = v.healthy;
    unlimited = v.unlimited;
    index = k.index_same ∙ v.index;
  };
  bytes = on_hand_eq f f m m' k.events_same refl k.recv_queue_same;
  small = subst AllSmall (sym k.recv_queue_same);
  buffer_same = k.buffer_same;
}

-- The end of the thread returns, and keeps the bytes.
pub framer_end-Kept : (f : Framer) (m : Mngr) → IsSound f m → Returns (Kept f m) (framer_end m)
framer_end-Kept f m v = elim (framer_end-cases f m v.framer_eq) [
  | inl e ↦ rw e (returns (KeepsData-Kept f m _ v (sidaq_stop-KeepsData m)))
  | inr (inl e) ↦ rw e (returns (Kept-refl f m v))
  | inr (inr e) ↦ rw e (
      returns (
        KeepsData-Kept f m _ v (record {
          framer_same = refl;
          recv_queue_same = refl;
          events_same = refl;
          index_same = refl;
          buffer_same = refl;
        })))
]
