-- ===== src/System.antt =====
-- A run as a whole: the threads of SiDaqApi/sock_thread.cpp and SiDaqApi/SiDaqApi.cpp and the calls
-- of the program, in any order. A step is one pass of a thread's loop or one call. The count of
-- open sockets is not followed here.
pub mod Safety
pub mod Runs
use si_daq_api.Base.{
  ℕ, ◌≤◌, ◌≡◌, Bool, true, false, Option, none, some, List, [], ◌∷◌, ◌++◌, Outcome, done,
  if◌then◌else◌, length,
}
use si_daq_api.Framer.{Framer, list_put}
use si_daq_api.Framer
use si_daq_api.SockThread.{
  SockParam, Received, bytes, closed, failed, Pass, Thread, recv_pass, thread_start, Selected,
  readable, select_round, Next, receives, again, ends,
}
use si_daq_api.SockThread.Laws.{offered}
use si_daq_api.Api.State.{Packets, Mngr, Process}
use si_daq_api.Api.Control.{
  RunArgs, Winsock, sidaq_run, sidaq_stop, pause_recv_data, resume_recv_data,
}
use si_daq_api.Api.Access.{get_data}
use si_daq_api.Api.FramerThread.{framer_round, framer_end}

-- Where `socket_loop_thread` is.
pub data SockPhase : Type 0 where
  sock_created : SockPhase
  selecting : SockPhase
  receiving : SockPhase
  sock_ended : SockPhase

-- Where `framer_thread` is.
pub data FramerPhase : Type 0 where
  framer_created : FramerPhase
  looping : FramerPhase
  leaving : FramerPhase
  framer_ended : FramerPhase

-- The manager, the receiving thread's own copy of the socket, and where both threads are; then the
-- blocks that have come from the device, and the events that the program has taken.
pub record System : Type 0 where
  pub mngr : Mngr
  pub socket : Option ℕ
  pub sock_phase : SockPhase
  pub framer_phase : FramerPhase
  pub arrived : Packets
  pub delivered : Packets

-- What the receiving thread works on.
abbrev pub thread_of : System → Thread Packets
thread_of s = record { param = s.mngr.sock_param; queue = s.mngr.recv_queue; socket = s.socket }

abbrev pub with_thread : System → Thread Packets → System
with_thread s t = record s {
  mngr = record s.mngr { sock_param = t.param; recv_queue = t.queue };
  socket = t.socket;
}

-- The flags that a pass sees are those of the manager.
abbrev pub pass_of : System → Received → Pass
pass_of s answer = record {
  run = s.mngr.sock_param.run;
  pause = s.mngr.sock_param.pause_flg;
  answer = answer;
}

-- `recv` gives no more bytes than the buffer has room for.
abbrev pub IsAnswer : ℕ → Received → Type 0
IsAnswer size (bytes block) = length block ≤ size
IsAnswer size (closed e) = Unit {0}
IsAnswer size (failed e) = Unit {0}

abbrev pub next_phase : Next → SockPhase
next_phase again = selecting
next_phase (receives passes) = receiving
next_phase ends = sock_ended

abbrev pub taken : Option (List ℕ) → Packets
taken none = []
taken (some event) = event ∷ []

abbrev pub selected : System → Next × Thread Packets → System
selected s r = record (with_thread s r.1) { sock_phase = next_phase r.0 }

abbrev pub got : System → Option (List ℕ) × Mngr → System
got s r = record s { mngr = r.1; delivered = s.delivered ++ taken r.0 }

abbrev pub without_error : Option Framer → Option Framer
without_error none = none
without_error (some f) = some (record f { error_code = Framer.no_error })

-- `framer_thread` up to its loop.
pub framer_start : Mngr → Mngr
framer_start m = record m { framer = without_error m.framer }

-- The steps of both threads and of the program.
pub data Step (s : System) : System → Type 0 where
  sock_starts :
      s.sock_phase ≡ sock_created
      → Step s (record (with_thread s (thread_start list_put s.mngr.sock_param s.mngr.recv_queue)) {
        sock_phase = selecting;
      })
  selects :
      (answer : Selected)
      → s.sock_phase ≡ selecting
      → Step s (selected s (select_round s.mngr.sock_param.run answer (thread_of s)))
  receives_pass :
      (answer : Received) (breaks : Bool) (t : Thread Packets)
      → s.sock_phase ≡ receiving
      → IsAnswer s.mngr.sock_param.recv_buf_size answer
      → recv_pass list_put (pass_of s answer) (thread_of s) ≡ done (breaks, t)
      → Step s (record (with_thread s t) {
        sock_phase = if breaks then selecting else receiving;
        arrived = s.arrived ++ offered (pass_of s answer);
      })
  framer_starts :
      s.framer_phase ≡ framer_created
      → Step s (record s { mngr = framer_start s.mngr; framer_phase = looping })
  frames_round :
      (timed_out : Bool) (past : ℕ) (breaks : Bool) (m : Mngr)
      → s.framer_phase ≡ looping
      → framer_round timed_out past s.mngr ≡ done (breaks, m)
      → Step s (record s { mngr = m; framer_phase = if breaks then leaving else looping })
  framer_ends :
      (m : Mngr)
      → s.framer_phase ≡ leaving
      → framer_end s.mngr ≡ done m
      → Step s (record s { mngr = m; framer_phase = framer_ended })
  gets_data : Step s (got s (get_data s.mngr))
  stops : Step s (record s { mngr = (sidaq_stop s.mngr).1 })
  pauses : Step s (record s { mngr = pause_recv_data s.mngr })
  resumes : Step s (record s { mngr = resume_recv_data s.mngr })

-- Any number of steps.
pub data Reach (s : System) : System → Type 0 where
  here : Reach s s
  after : {s' s'' : System} → Reach s s' → Step s' s'' → Reach s s''

-- Behind a call of `SiDaqRun`, before either thread has run.
unfoldable pub launched : RunArgs → Winsock → Mngr → Process → System
launched a w m p = record {
  mngr = (sidaq_run a w m p).0;
  socket = none;
  sock_phase = sock_created;
  framer_phase = framer_created;
  arrived = [];
  delivered = [];
}
