-- ===== src/Api/Control.antt =====
-- `SiDaqRun`, `SiDaqStop`, `SiDaqPauseRecvData`, `SiDaqResumeRecvData` and `SiDaqResetQueue`. What
-- winsock answers is a record; memory never runs out here.
pub mod Transitions
pub mod Stops
use si_daq_api.Base.{
  ℕ, suc, ◌+◌, ◌-◌, Bool, true, false, Option, none, some, List, [], is_neg, leb, if◌then◌else◌,
  ◌==◌, Outcome, done, fault,
}
use si_daq_api.Framer.{Framer, LengthFunc, new_framer}
use si_daq_api.Framer
use si_daq_api.SockThread.{SockParam, WsaError, would_block, decode_error}
use si_daq_api.SockThread
use si_daq_api.Api.State.{
  Status, idle, stopping, reset, run, sys_error, mngr_invalid, no_error, invalid_parameter,
  winsock_error, Mngr, Process, set_socket_error, set_sidaq_error,
}

-- The arguments of `SiDaqRun`.
pub record RunArgs : Type 0 where
  pub length_func : Option LengthFunc
  pub header_len : ℕ
  pub fixed_frame_len : ℕ
  -- An `int`, as its word.
  pub rcv_buf_bytes : ℕ
  pub recv_queue_limit : ℕ
  pub frame_queue_limit : ℕ
  pub max_recv_buff : ℕ
  pub max_frame_len : ℕ

-- How the address becomes a number: by `inet_pton`, or by `getaddrinfo`, which fails, finds
-- nothing or finds one.
pub data Resolved : Type 0 where
  numeric : Resolved
  lookup_failed : WsaError → Resolved
  lookup_empty : WsaError → Resolved
  lookup_found : Resolved

-- The answers of winsock, with `WSAGetLastError` behind a failure.
pub record Winsock : Type 0 where
  pub socket : ℕ
  pub socket_failed : Option WsaError
  pub resolved : Resolved
  pub connect_failed : Option WsaError
  pub setsockopt_failed : Option WsaError

-- An error return of `SiDaqRun`.
unfoldable pub run_failed : Mngr → WsaError → Mngr
run_failed m e = record (set_sidaq_error m winsock_error (decode_error e) (some e)) {
  status = sys_error;
}

-- The part behind the error checks: both threads are created, and the status is set last.
abbrev pub run_threads : RunArgs → ℕ → Mngr → Mngr
run_threads a socket m = record m {
  sock_param = record m.sock_param {
    device_socket = some socket;
    run = true;
    recv_buf_size = a.max_recv_buff;
    queue_limit = a.recv_queue_limit;
    queue_error_code = SockThread.no_error;
  };
  sock_threads = m.sock_threads + 1;
  reply = elim m.reply [ none ↦ some [] | some q ↦ some q ];
  framer = some (record (elim m.framer [ none ↦ new_framer | some f ↦ f ]) {
    header_len = a.header_len;
    queue_limit = a.frame_queue_limit;
    max_frame_len = a.max_frame_len;
    length_func = a.length_func;
    fixed_frame_len = a.fixed_frame_len;
    error_flg = 0;
    error_code = Framer.no_error;
  });
  framer_threads = m.framer_threads + 1;
}

-- The call of `setsockopt`.
unfoldable pub run_option : Option WsaError → Mngr → Option Mngr
run_option none m = none
run_option (some e) m = some (run_failed m e)

unfoldable pub run_connected : RunArgs → Winsock → Mngr → Option Mngr
run_connected a w m = if is_neg a.rcv_buf_bytes then none else run_option w.setsockopt_failed m

-- A failed `connect` leaves the state of a non-blocking socket: `WSAEWOULDBLOCK` is no failure.
unfoldable pub run_connect : Option WsaError → Mngr → Option Mngr
run_connect none m = none
run_connect (some e) m =
    if SockThread.is_allowed_error e
    then none
    else some
        (record (set_socket_error (set_sidaq_error m winsock_error (decode_error e) none)
          (some e)) { status = sys_error })

-- Where the look-up fails, the source also tests and frees `pResult`, which it has not set; that is
-- left out.
unfoldable pub run_resolve : Resolved → Mngr → Option Mngr
run_resolve numeric m = none
run_resolve (lookup_failed e) m = some (run_failed m e)
run_resolve (lookup_empty e) m =
    some (record (set_sidaq_error m winsock_error "Invalid IP Address" (some e)) {
      status = sys_error;
    })
run_resolve lookup_found m = none

-- The first of the checks that fails gives the result.
abbrev pub or_else : Option Mngr → Option Mngr → Option Mngr
or_else (some m) n = some m
or_else none n = n

-- From the call of `socket` on.
unfoldable pub run_socket : Option WsaError → RunArgs → Winsock → Mngr → Option Mngr
run_socket (some e) a w m = some (run_failed m e)
run_socket none a w m =
    let m₁ = record m { sockets = m.sockets + 1 } in
    or_else (run_resolve w.resolved m₁)
      (or_else (run_connect w.connect_failed m₁) (run_connected a w m₁))

-- `SiDaqRun` up to the creation of the threads: the manager that is answered with an error, or none.
unfoldable pub run_checks : RunArgs → Winsock → Mngr → Option Mngr
run_checks a w m =
    let m₀ = set_sidaq_error m no_error "No Error" none in
    if leb a.max_frame_len a.header_len
    then some (record (set_sidaq_error m₀ invalid_parameter "INVALID_HEADER_LENGTH" none) {
      status = sys_error;
    })
    else run_socket w.socket_failed a w m₀

-- `SiDaqRun` up to the creation of the framer thread.
unfoldable pub run_started : RunArgs → Winsock → Mngr → Mngr
run_started a w m =
    run_threads a w.socket
      (record (set_sidaq_error m no_error "No Error" none) { sockets = m.sockets + 1 })

-- `SiDaqRun`; it answers the status of the manager that it leaves.
unfoldable pub sidaq_run : RunArgs → Winsock → Mngr → Process → Mngr × Process
sidaq_run a w m p = elim (run_checks a w m) [
  | some failed ↦ (failed, p)
  | none ↦ (record (run_started a w m) { status = run }, record p { wsa_init = p.wsa_init + 1 })
]

-- `closesocket(sock_param.device_socket)`. `SOCKET` is unsigned, so the test `>= 0` always holds;
-- closing `INVALID_SOCKET`, or the 0 that `memset` has left, closes nothing.
unfoldable pub close_device : Mngr → Mngr
close_device m = record m {
  sock_param = record m.sock_param { run = false; device_socket = none };
  sockets = elim m.sock_param.device_socket [
    | none ↦ m.sockets
    | some s ↦ if s == 0 then m.sockets else m.sockets - 1
  ];
}

-- `SiDaqStop`
unfoldable pub sidaq_stop : Mngr → Bool × Mngr
unfolding close_device
sidaq_stop m = elim m.status [
  | run ↦ (true, close_device (record m { status = stopping }))
  | sys_error ↦ (true, close_device m)
  | idle ↦ (true, m)
  | stopping ↦ (false, m)
  | reset ↦ (false, m)
  | mngr_invalid ↦ (false, m)
]

-- `SiDaqPauseRecvData`
unfoldable pub pause_recv_data : Mngr → Mngr
pause_recv_data m =
    if m.sock_param.run
    then record m { sock_param = record m.sock_param { pause_flg = true } }
    else m

-- `SiDaqResumeRecvData`
unfoldable pub resume_recv_data : Mngr → Mngr
resume_recv_data m =
    if m.sock_param.run
    then record m { sock_param = record m.sock_param { pause_flg = false } }
    else m

-- `SiDaqResetQueue`; a loop of `SQGet` until it answers NULL leaves a queue empty (Squeue.Drain).
-- Without queues the pointer to the list is NULL.
unfoldable pub reset_queue : Mngr → Outcome Mngr
reset_queue m = elim m.status [
  | stopping ↦
      if m.queues
      then done (record m { status = idle; recv_queue = []; event_frame = [] })
      else fault
  | sys_error ↦
      if m.queues
      then done (record m { status = sys_error; recv_queue = []; event_frame = [] })
      else fault
  | idle ↦ done m
  | reset ↦ done m
  | run ↦ done m
  | mngr_invalid ↦ done m
]
