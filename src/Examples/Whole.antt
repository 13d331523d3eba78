-- ===== src/Examples/Whole.antt =====
-- A run in which a block comes, the program asks for an event and stops the run.
use si_daq_api.Base.{
  ℕ, ◌≡◌, ◌≤◌, inr, refl, false, none, List, [], ◌∷◌, ◌++◌, arith, done, length, is_neg,
}
use si_daq_api.Framer.{list_put, event_length, new_framer}
use si_daq_api.SockThread.Laws.{offered}
use si_daq_api.SockThread.{
  Thread, bytes, readable, is_allowed_error, thread_start, select_round, recv_pass, receive,
  after_put,
}
use si_daq_api.Api.State.{Packets, Mngr}
use si_daq_api.Api.Control.{
  sidaq_run, sidaq_stop, run_started, run_checks, run_socket, run_resolve, run_connect,
  run_connected, run_option,
}
use si_daq_api.Api.Access.{get_data}
use si_daq_api.System.{
  System, Reach, here, after, sock_starts, selects, receives_pass, gets_data, stops, launched,
  selected, got, pass_of, thread_of, selecting, receiving, with_thread,
}
use si_daq_api.System.Runs.{IsUnused, IsModest, IsIntact, run-IsIntact}
use si_daq_api.Examples.Manager.{fresh, settings, answering, one_user, can_run}

abbrev unused : Mngr
unused = record fresh { framer = none }

unused-IsUnused : IsUnused unused
unused-IsUnused = record {
  no_framer = refl;
  no_blocks = refl;
  no_events = refl;
  index = refl;
  lists = refl;
}

settings-IsModest : IsModest settings
unfolding event_length new_framer
settings-IsModest = record {
  short = omega arith;
  unlimited = refl;
  room = omega arith;
  buffer = omega arith;
  steady = λ g e. cc;
  exact = λ bytes len. inr (omega arith);
}

abbrev begun : System
begun = launched settings answering unused one_user

-- The receiving thread waits for its first block.
abbrev waiting : System
waiting =
    record (with_thread begun (thread_start list_put begun.mngr.sock_param begun.mngr.recv_queue)) {
      sock_phase = selecting;
    }

abbrev ready : System
ready =
    selected waiting (select_round waiting.mngr.sock_param.run (readable []) (thread_of waiting))

abbrev block : List ℕ
block = 6 ∷ 7 ∷ 8 ∷ 9 ∷ []

abbrev with_block : Thread Packets
with_block = record (thread_of ready) {
  queue = block ∷ [];
  param = record (thread_of ready).param { rx_bytes = 4 };
}

abbrev fed : System
fed = record (with_thread ready with_block) {
  sock_phase = receiving;
  arrived = ready.arrived ++ offered (pass_of ready (bytes block));
}

abbrev asked : System
asked = got fed (get_data fed.mngr)

abbrev halted : System
halted = record asked { mngr = (sidaq_stop asked.mngr).1 }

ready_receives : ready.sock_phase ≡ receiving
unfolding launched sidaq_run run_checks run_socket run_resolve run_connect run_connected run_option
    is_allowed_error is_neg select_round thread_start run_started
ready_receives = refl

block_fits : length block ≤ ready.mngr.sock_param.recv_buf_size
unfolding launched sidaq_run run_checks run_socket run_resolve run_connect run_connected run_option
    is_allowed_error is_neg select_round thread_start run_started
block_fits = omega arith

block_taken :
    recv_pass list_put (pass_of ready (bytes block)) (thread_of ready) ≡ done (false, with_block)
unfolding launched sidaq_run run_checks run_socket run_resolve run_connect run_connected run_option
    is_allowed_error is_neg select_round thread_start run_started recv_pass receive after_put
block_taken = refl

halted_reached : Reach begun halted
unfolding launched
halted_reached =
    after
      (after
        (after (after (after here (sock_starts refl)) (selects (readable []) refl))
          (receives_pass (bytes block) false with_block ready_receives block_fits block_taken))
        gets_data)
      stops

run-IsIntact_example : IsIntact halted
run-IsIntact_example =
    run-IsIntact settings answering unused one_user can_run settings-IsModest unused-IsUnused halted
      halted_reached
