-- ===== src/Examples/Manager.antt =====
-- A manager of a device that answers, in a run and after it.
use si_daq_api.Base.{
  ℕ, ◌-◌, ◌%◌, ◌≡◌, refl, ◌⊎◌, inl, inr, ◌^◌, true, false, none, some, [], ◌∷◌, flatten, arith,
  Returns, length, replicate,
}
use si_daq_api.Framer.{Framer, new_framer}
use si_daq_api.Framer
use si_daq_api.Framer.Outcomes.{held}
use si_daq_api.Framer.Joins.{IsHealthy}
use si_daq_api.SockThread.{WsaError, not_sock, is_allowed_error}
use si_daq_api.SockThread
use si_daq_api.Rbcp.{Rbcp, Net}
use si_daq_api.Rbcp.Device.{device_net}
use si_daq_api.Api.State.{idle, stopping, run, sitcp_write_error, no_error, Mngr, Process}
use si_daq_api.Api.Access.{rbcp_read_bytes, rbcp_write_bytes}
use si_daq_api.Api.Registers.{rbcp_access_too_large}
use si_daq_api.Api.Control.{RunArgs, numeric, Winsock, sidaq_run, sidaq_stop, reset_queue}
use si_daq_api.Api.Control.Transitions.{CanRun, Began, Refused, sidaq_run-cases}
use si_daq_api.Api.Control.Stops.{mngr_held, reset_run-held, run_connect_leak}
use si_daq_api.Api.FramerThread.{framer_thread}
use si_daq_api.Api.FramerThread.Checks.{Drained}
use si_daq_api.Api.FramerThread.Drain.{CanDrain, framer_thread-Drained}
use si_daq_api.Api.Lifecycle.{manager, sidaq_initialize, sidaq_terminate}
use si_daq_api.Api.Cleanup.{IsFresh, sidaq_initialize-IsFresh, run_terminate-cleanups}
use si_daq_api.Examples.Device.{reaching}

abbrev pub low_byte : ℕ → ℕ
low_byte a = a % 256

abbrev pub device_object : Rbcp
device_object = record {
  buf = replicate 263 0;
  id = 255;
  wait = record { tv_sec = 1; tv_usec = 0 };
  closed = 0;
  sent = [];
}

abbrev silent_net : Net
silent_net = record { send = λ p. length p; select = λ p. 0; recv = λ p. none }

-- Frames of three bytes; one byte is held.
abbrev fixed_framer : Framer
fixed_framer = record {
  rest = 1;
  buff_size = 8;
  buff = 5 ∷ replicate 7 0;
  length_func = none;
  header_len = 0;
  error_flg = 0;
  error_code = Framer.no_error;
  queue_limit = 0;
  max_frame_len = 8;
  fixed_frame_len = 3;
}

abbrev pub fresh : Mngr
fresh = record {
  status = idle;
  ip_address = [];
  tcp_port = 24;
  udp_port = 4660;
  sitcp_register = replicate 255 0;
  sock_param = record {
    run = true;
    device_socket = none;
    rx_bytes = 0;
    last_error = none;
    recv_buf_size = 0;
    queue_limit = 0;
    queue_error_code = SockThread.no_error;
    pause_flg = false;
  };
  queues = true;
  recv_queue = [];
  squeue_index = 0;
  error_code = no_error;
  error_message = "No Error";
  sitcp = some device_object;
  framer = some fixed_framer;
  reply = none;
  event_frame = [];
  sockets = 0;
  sock_threads = 0;
  framer_threads = 0;
}

abbrev running : Mngr
running = record fresh {
  status = run;
  recv_queue = (6 ∷ 7 ∷ []) ∷ (8 ∷ 9 ∷ []) ∷ [];
  sockets = 1;
  sock_param = record fresh.sock_param { device_socket = some 9 };
}

abbrev stopped : Mngr
stopped = record running {
  status = stopping;
  sockets = 0;
  sock_param = record fresh.sock_param { device_socket = none; run = false };
}

abbrev pub settings : RunArgs
settings = record {
  length_func = none;
  header_len = 0;
  fixed_frame_len = 3;
  rcv_buf_bytes = 2 ^ 32 - 1;
  recv_queue_limit = 0;
  frame_queue_limit = 0;
  max_recv_buff = 262144;
  max_frame_len = 262144;
}

abbrev pub answering : Winsock
answering = record {
  socket = 9;
  socket_failed = none;
  resolved = numeric;
  connect_failed = some SockThread.would_block;
  setsockopt_failed = none;
}

abbrev pub refusing : Winsock
refusing = record answering { connect_failed = some not_sock }

abbrev pub one_user : Process
one_user = record { wsa_init = 1; cleanups = 0 }

pub can_run : CanRun settings answering
can_run = record {
  header = omega arith;
  socket = refl;
  resolved = inl refl;
  connecting = inr refl;
  option = inr refl;
}

fixed_framer-IsHealthy : IsHealthy fixed_framer
unfolding Framer.event_length
fixed_framer-IsHealthy = record {
  ready = record { size = refl; room = omega arith; small = omega arith; header = omega arith };
  short = omega arith;
  rest_fits = omega arith;
  steady = λ g e. cc;
  partial = λ buff len e le. omega arith;
}

stopped-CanDrain : CanDrain fixed_framer stopped
stopped-CanDrain = record {
  framer = refl;
  healthy = fixed_framer-IsHealthy;
  unlimited = refl;
  device = refl;
  goes = ((λ e. cc), (λ e. cc));
  index = refl;
  small = (omega arith, (omega arith, tt));
}

framer_thread-Drained_example :
    Returns
      (λ r. (r.0 ≡ true) × Drained (5 ∷ 6 ∷ 7 ∷ 8 ∷ 9 ∷ []) r.1)
      (framer_thread ((false, 0) ∷ (false, 0) ∷ (false, 0) ∷ []) stopped)
unfolding flatten
framer_thread-Drained_example = framer_thread-Drained 0 fixed_framer stopped stopped-CanDrain

sidaq_run-cases_example :
    (CanRun settings answering
      × Began settings answering fresh one_user
          (sidaq_run settings answering fresh one_user).0
          (sidaq_run settings answering fresh one_user).1)
    ⊎ (¬ CanRun settings answering
        × Refused fresh one_user
            (sidaq_run settings answering fresh one_user).0
            (sidaq_run settings answering fresh one_user).1)
sidaq_run-cases_example = sidaq_run-cases settings answering fresh one_user

reset_run-held_example :
    Returns
      (λ stopped.
        (stopped.status ≡ idle)
        × (stopped.recv_queue ≡ [])
        × (stopped.event_frame ≡ [])
        × ((f : Framer)
            → running.framer ≡ some f
            → mngr_held (sidaq_run settings answering stopped one_user).0 ≡ some (held f)))
      (reset_queue (sidaq_stop running).1)
reset_run-held_example = reset_run-held settings answering running one_user refl refl can_run

abbrev initialized : Mngr
initialized = record fresh { sock_param = record fresh.sock_param { device_socket = some 0 } }

run_connect_leak_example :
    (sidaq_stop (sidaq_run settings refusing initialized one_user).0).1.sockets ≡ 1
unfolding is_allowed_error
run_connect_leak_example =
    run_connect_leak settings refusing initialized one_user not_sock (omega arith) refl (inl refl)
      refl refl (inr refl)

rbcp_access_too_large_example :
    ((rbcp_read_bytes silent_net 0 256 fresh).0 ≡ none)
    × ((rbcp_write_bytes silent_net [] 0 256 fresh).0 ≡ false)
    × ((rbcp_read_bytes silent_net 0 256 fresh).1 ≡ (rbcp_write_bytes silent_net [] 0 256 fresh).1)
    × ((rbcp_read_bytes silent_net 0 256 fresh).1.error_code ≡ sitcp_write_error)
    × ((rbcp_read_bytes silent_net 0 256 fresh).1.sitcp ≡ some device_object)
rbcp_access_too_large_example =
    rbcp_access_too_large silent_net [] 0 256 device_object fresh refl (omega arith)

sidaq_initialize-IsFresh_example :
    Returns
      (λ (i, p'). ((m : Mngr) × (i ≡ manager m) × IsFresh low_byte m) × (p'.wsa_init ≡ 1))
      (sidaq_initialize
        (some (49 ∷ 48 ∷ []))
        24
        4660
        false
        (record {
          allocated = true;
          list_allocated = true;
          wsa_failed = none;
          host = reaching;
          net = device_net low_byte;
        })
        (record { wsa_init = 0; cleanups = 0 }))
sidaq_initialize-IsFresh_example =
    sidaq_initialize-IsFresh low_byte (49 ∷ 48 ∷ []) 24 4660 reaching
      (record { wsa_init = 0; cleanups = 0 })
      (record { socket = refl; option_set = refl; connected = refl }) (omega arith) refl

run_terminate-cleanups_example :
    ((sidaq_terminate (some running) false one_user).1.cleanups ≡ 1)
    × ((a : RunArgs) (w : Winsock)
        → CanRun a w
        → let r = sidaq_run a w running one_user in
          (sidaq_terminate (some r.0) false r.1).1.cleanups ≡ 0)
run_terminate-cleanups_example = run_terminate-cleanups running one_user refl
