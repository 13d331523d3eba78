-- ===== src/Api/FramerThread/Drain.antt =====
-- How a run of the framer thread ends: with the connection closed, and when it starts too early.
use si_daq_api.Base.{
  ℕ, suc, ◌<◌, ◌≡◌, ◌≢◌, refl, ap, subst, ◌∙◌, inl, inr, ◌^◌, Bool, true, false, none, some, List,
  [], ◌∷◌, ◌++◌, append-nil, flatten, arith, done, ◌>>=◌, Returns, returns, Returns-bind,
  Returns-mono, length, replicate,
}
use si_daq_api.Framer.{Framer, Return, list_put, recv_data}
use si_daq_api.Framer
use si_daq_api.Framer.Outcomes.{Packets, held}
use si_daq_api.Framer.Joins.{IsHealthy}
use si_daq_api.Framer.Stream.{AllSmall}
use si_daq_api.Api.State.{Status, idle, reset, Mngr}
use si_daq_api.Api.FramerThread.{frame_block, loops, framer_end, framer_rounds, framer_thread}
use si_daq_api.Api.FramerThread.Checks.{Drained, IsWorking, no_block-Drained}
use si_daq_api.Api.FramerThread.Ends.{KeepsData, sidaq_stop-KeepsData, framer_end-cases}
use si_daq_api.Api.FramerThread.Blocks.{
  Took, Took-bytes, frame_block-Took, framer_round_block, framer_round_empty,
}

Drained-KeepsData :
    (events : List ℕ) (m m' : Mngr) → Drained events m → KeepsData m m' → Drained events m'
Drained-KeepsData events m m' d k = record {
  taken = k.recv_queue_same ∙ d.taken;
  framer = d.framer;
  framer_eq = k.framer_same ∙ d.framer_eq;
  none_held = d.none_held;
  events_eq = ap flatten k.events_same ∙ d.events_eq;
}

-- The end of the thread leaves the queues and the framer.
framer_end-Drained :
    (events : List ℕ) (m : Mngr) → Drained events m → Returns (Drained events) (framer_end m)
framer_end-Drained events m d = elim (framer_end-cases d.framer m d.framer_eq) [
  | inl e ↦ rw e (returns (Drained-KeepsData events m _ d (sidaq_stop-KeepsData m)))
  | inr (inl e) ↦ rw e (returns d)
  | inr (inr e) ↦ rw e (
      returns (
        Drained-KeepsData events m _ d (record {
          framer_same = refl;
          recv_queue_same = refl;
          events_same = refl;
          index_same = refl;
          buffer_same = refl;
        })))
]

round-Took :
    (past : ℕ) (block : List ℕ) (blocks : Packets) (f : Framer) (m : Mngr)
    → IsWorking f m
    → length block < 2 ^ 30
    → Returns {A = Bool × Mngr}
        (λ r. (r.0 ≡ false) × Took block blocks f m r.1)
        (frame_block past block blocks f m >>= λ m'. done (false, m'))
round-Took past block blocks f m w small =
    Returns-bind (frame_block-Took past block blocks f m w.sound small) λ m' t. returns (refl, t)

framer_rounds-Drained :
    (past : ℕ) (blocks : Packets) (f : Framer) (m : Mngr)
    → IsWorking f m
    → m.recv_queue ≡ blocks
    → AllSmall blocks
    → Returns
        (λ r. (r.0 ≡ true) × Drained (flatten m.event_frame ++ (held f ++ flatten blocks)) r.1)
        (framer_rounds (replicate (suc (length blocks)) (false, past)) m)
unfolding framer_rounds flatten
framer_rounds-Drained past [] f m w e s =
    rw (framer_round_empty false past f m w e, append-nil)
      (Returns-bind (no_block-Drained f m w e) λ (b, m') (ended, d).
        rw ended (Returns-bind (framer_end-Drained _ m' d) λ m'' d'. returns (refl, d')))
framer_rounds-Drained past (block ∷ blocks) f m w e s =
    rw (framer_round_block past block blocks f m w e) (
      Returns-bind (round-Took past block blocks f m w s.0) λ (b, m') (goes, t). rw goes (
        Returns-mono
          (framer_rounds-Drained past blocks t.framer m'
            (record { sound = t.sound; closing = t.closing w.closing }) t.left s.1)
          λ r (ended, d). (ended, subst (λ k. Drained k r.1) (Took-bytes block blocks f m m' t) d)))

-- The framer of the manager is healthy, and its event queue has no limit; the connection is closed
-- but the loop goes on; and no block is near the end of an `int`.
pub record CanDrain (f : Framer) (m : Mngr) : Type 0 where
  pub framer : m.framer ≡ some f
  pub healthy : IsHealthy f
  pub unlimited : f.queue_limit ≡ 0
  pub device : m.sock_param.device_socket ≡ none
  pub goes : (m.status ≢ idle) × (m.status ≢ reset)
  pub index : m.squeue_index ≡ 0
  pub small : AllSmall m.recv_queue

loops-true : (s : Status) → s ≢ idle → s ≢ reset → loops s ≡ true
unfolding loops
loops-true s a b = ground (arith, a, b)

framer_thread_started :
    (rounds : List (Bool × ℕ)) (f : Framer) (m : Mngr)
    → m.framer ≡ some f
    → framer_thread rounds m
      ≡ framer_rounds rounds
          (record m { framer = some (record f { error_code = Framer.no_error }) })
unfolding framer_thread
framer_thread_started rounds f m e = ground arith

pub cleared-IsHealthy :
    (f : Framer) → IsHealthy f → IsHealthy (record f { error_code = Framer.no_error })
unfolding Framer.event_length
cleared-IsHealthy f w = record {
  ready = record {
    size = w.ready.size;
    room = w.ready.room;
    small = w.ready.small;
    header = w.ready.header;
  };
  short = w.short;
  rest_fits = w.rest_fits;
  steady = w.steady;
  partial = w.partial;
}

-- With the connection closed, a healthy framer (with a header of at most two bytes), no limit on the
-- event queue, the manager's first queue, waiting blocks of less than 2 ^ 30 bytes and a state other than idle
-- and reset, one round for each waiting block and one more end the thread, also where the length of
-- a frame is refused: the receive queue is empty, the framer holds nothing, and the events, in
-- order, are those from before and then all the bytes that were held or waited.
pub framer_thread-Drained :
    (past : ℕ) (f : Framer) (m : Mngr)
    → CanDrain f m
    → Returns
        (λ r.
          (r.0 ≡ true) × Drained (flatten m.event_frame ++ (held f ++ flatten m.recv_queue)) r.1)
        (framer_thread (replicate (suc (length m.recv_queue)) (false, past)) m)
framer_thread-Drained past f m c =
    rw (framer_thread_started (replicate (suc (length m.recv_queue)) (false, past)) f m c.framer) (
      framer_rounds-Drained past m.recv_queue (record f { error_code = Framer.no_error }) _
        (record {
          sound = record {
            framer_eq = refl;
            healthy = cleared-IsHealthy f c.healthy;
            unlimited = c.unlimited;
            index = c.index;
          };
          closing = record { device = c.device; goes = loops-true m.status c.goes.0 c.goes.1 };
        })
        refl c.small)
