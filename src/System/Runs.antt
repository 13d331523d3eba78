-- ===== src/System/Runs.antt =====
-- A run from the call of `SiDaqRun` on, in every order of its steps.
use si_daq_api.Base.{
  ℕ, ◌+◌, ◌<◌, ◌≤◌, ◌≡◌, ◌⊎◌, sym, ap, ap₂, subst, ◌^◌, Bool, true, List, none, some, [], ◌++◌,
  flatten, arith, Returns, Returns-mono, length-replicate, is_neg,
}
use si_daq_api.Framer.{Framer, new_framer, default_max_frame_len, list_put, event_length}
use si_daq_api.Framer
use si_daq_api.Framer.Outcomes.{held}
use si_daq_api.Framer.Sizing.{IsSteady}
use si_daq_api.Framer.Stream.{AllSmall}
use si_daq_api.Framer.Joins.{IsHealthy}
use si_daq_api.SockThread.{Received, recv_pass}
use si_daq_api.SockThread.Laws.{recv_pass-PassOk}
use si_daq_api.Api.State.{run, Mngr, Process}
use si_daq_api.Api.Control.{RunArgs, Winsock, run_started}
use si_daq_api.Api.Control.Transitions.{CanRun, run_checks-CanRun, sidaq_run-none}
use si_daq_api.Api.FramerThread.{framer_round, framer_end}
use si_daq_api.Api.FramerThread.Conserve.{framer_round-Kept, framer_end-Kept}
use si_daq_api.System.{System, Reach, thread_of, pass_of, launched}
use si_daq_api.System.Safety.{Conserves, IsSafe, Reach-IsSafe}

-- A manager that has not run yet, and whose queues exist.
pub record IsUnused (m : Mngr) : Type 0 where
  pub no_framer : m.framer ≡ none
  pub no_blocks : m.recv_queue ≡ []
  pub no_events : m.event_frame ≡ []
  pub index : m.squeue_index ≡ 0
  pub lists : m.queues ≡ true

-- The framer that `SiDaqRun` makes for the arguments.
abbrev settings_of : RunArgs → Framer → Framer
settings_of a f = record f {
  header_len = a.header_len;
  queue_limit = a.frame_queue_limit;
  max_frame_len = a.max_frame_len;
  length_func = a.length_func;
  fixed_frame_len = a.fixed_frame_len;
  error_flg = 0;
  error_code = Framer.no_error;
}

abbrev pub framer_of : RunArgs → Framer
framer_of a = settings_of a new_framer

-- Arguments with a header of at most two bytes, no limit on the event queue, frames that the
-- framer's buffer has room for, a receive buffer far from the end of an `int`, and a length
-- function that looks at the header alone and, with the header, stays within an `int` unless it is
-- negative.
pub record IsModest (a : RunArgs) : Type 0 where
  pub short : a.header_len ≤ 2
  pub unlimited : a.frame_queue_limit ≡ 0
  pub room : a.max_frame_len ≤ default_max_frame_len
  pub buffer : a.max_recv_buff < 2 ^ 30
  pub steady : IsSteady (framer_of a)
  pub exact :
      (bytes : List ℕ) (len : ℕ)
      → (is_neg (event_length (framer_of a) bytes len) ≡ true)
        ⊎ (event_length (framer_of a) bytes len + a.header_len < 2 ^ 31)

-- The events that the program has taken, those that wait, the held bytes and the blocks that wait
-- are the blocks that have come, in order; and the next pass of either thread, and the end of the
-- framer thread, return.
pub record IsIntact (s : System) : Type 0 where
  pub framer : Framer
  pub framer_eq : s.mngr.framer ≡ some framer
  pub bytes :
      flatten s.delivered
        ++ (flatten s.mngr.event_frame ++ (held framer ++ flatten s.mngr.recv_queue))
      ≡ flatten s.arrived
  pub round :
      (timed_out : Bool) (past : ℕ) → Returns (λ r. Unit {0}) (framer_round timed_out past s.mngr)
  pub end_ : Returns (λ r. Unit {0}) (framer_end s.mngr)
  pub pass :
      (answer : Received)
      → Returns (λ r. Unit {0}) (recv_pass list_put (pass_of s answer) (thread_of s))

IsSafe-IsIntact : (s : System) → IsSafe s → IsIntact s
IsSafe-IsIntact s v = record {
  framer = v.framer;
  framer_eq = v.sound.framer_eq;
  bytes = v.bytes;
  round = λ timed_out past.
      Returns-mono (framer_round-Kept v.framer s.mngr v.sound timed_out past v.small) λ r k. tt;
  end_ = Returns-mono (framer_end-Kept v.framer s.mngr v.sound) λ r k. tt;
  pass = λ answer. Returns-mono (recv_pass-PassOk (pass_of s answer) (thread_of s)) λ r k. tt;
}

module _ (a : RunArgs) (w : Winsock) (m : Mngr) (p : Process) (can : CanRun a w)
    (modest : IsModest a) (unused : IsUnused m) where
  framer_of-IsHealthy : IsHealthy (framer_of a)
  unfolding new_framer
  framer_of-IsHealthy = record {
    ready = record {
      size = sym (length-replicate {A = ℕ} default_max_frame_len 0);
      room = modest.room;
      small = omega arith;
      header = can.header;
    };
    short = modest.short;
    rest_fits = omega arith;
    steady = modest.steady;
    partial = λ buff len e le. omega arith;
  }

  started-Conserves : Conserves (record (run_started a w m) { status = run }) [] []
  unfolding run_started flatten new_framer
  started-Conserves = record {
    framer = framer_of a;
    sound = record {
      framer_eq =
          ap (λ o. some (settings_of a (elim o [ none ↦ new_framer | some f ↦ f ])))
            unused.no_framer;
      healthy = framer_of-IsHealthy;
      unlimited = modest.unlimited;
      index = unused.index;
    };
    small = subst AllSmall (sym unused.no_blocks) tt;
    buffer = modest.buffer;
    bytes = ap₂ (λ e q. flatten e ++ flatten q) unused.no_events unused.no_blocks;
  }

  launched-IsSafe : IsSafe (launched a w m p)
  unfolding launched
  launched-IsSafe = rw (sidaq_run-none a w m p (run_checks-CanRun a w m p can)) started-Conserves

  -- A run that `SiDaqRun` has begun on a manager that has not run yet and whose queues exist (a header of at most two
  -- bytes, no limit on the event queue, frames within the framer's buffer, a receive buffer of
  -- less than 2 ^ 30 bytes, a length function that looks at the header alone and whose sum with the
  -- header's length stays within an `int`). Whatever the order in
  -- which the passes of both threads and the program's calls (take an event, stop, pause, resume)
  -- follow each other, and whatever the device sends: the events that the program has taken, those
  -- that wait, the bytes that the framer holds and the blocks that wait are the bytes that have
  -- come, in order; and every next pass of either thread returns, whatever the byte is that
  -- `RecvSiDaqData` reads behind a block which ends on a frame.
  pub run-IsIntact : (s : System) → Reach (launched a w m p) s → IsIntact s
  run-IsIntact s r = IsSafe-IsIntact s (Reach-IsSafe (launched a w m p) s r launched-IsSafe)
