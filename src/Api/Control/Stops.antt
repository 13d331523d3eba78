-- ===== src/Api/Control/Stops.antt =====
-- What `SiDaqStop` and `SiDaqResetQueue` leave behind, and what a run after them finds.
use si_daq_api.Base.{
  ℕ, List, ◌+◌, ◌<◌, ◌≡◌, refl, ◌⊎◌, done, Returns, returns, true, false, Option, none, some, [],
  arith,
}
use si_daq_api.Framer.{Framer}
use si_daq_api.Framer.Outcomes.{held}
use si_daq_api.SockThread.{WsaError, is_allowed_error}
use si_daq_api.Api.State.{
  Status, idle, stopping, reset, run, sys_error, mngr_invalid, Mngr, Process,
}
use si_daq_api.Api.Control.{
  RunArgs, Winsock, run_connect, run_socket, run_resolve, run_checks, run_started, sidaq_run,
  close_device, sidaq_stop, reset_queue,
}
use si_daq_api.Api.Control.Transitions.{CanRun, IsResolved, sidaq_run-none, run_checks-CanRun}

stop_twice :
    (m : Mngr) (s : Status) → m.status ≡ s → (sidaq_stop (sidaq_stop m).1).1 ≡ (sidaq_stop m).1
unfolding sidaq_stop close_device
stop_twice m idle e = rw e refl
stop_twice m stopping e = rw e refl
stop_twice m reset e = rw e refl
stop_twice m run e = rw e refl
stop_twice m sys_error e = rw e refl
stop_twice m mngr_invalid e = rw e refl

-- A second `SiDaqStop` changes nothing.
pub sidaq_stop-twice : (m : Mngr) → (sidaq_stop (sidaq_stop m).1).1 ≡ (sidaq_stop m).1
sidaq_stop-twice m = stop_twice m m.status refl

-- The bytes that the framer holds.
abbrev pub mngr_held : Mngr → Option (List ℕ)
mngr_held m = elim m.framer [ none ↦ none | some f ↦ some (held f) ]

reset_stopped :
    (m : Mngr)
    → m.status ≡ run
    → m.queues ≡ true
    → reset_queue (sidaq_stop m).1
      ≡ done (record (sidaq_stop m).1 { status = idle; recv_queue = []; event_frame = [] })
unfolding sidaq_stop close_device reset_queue
reset_stopped m e lists = rw (e, lists) refl

-- After `SiDaqStop` of a run, on a manager whose queues exist, `SiDaqResetQueue` empties both queues
-- and leaves the state idle; but the framer still holds its bytes, and a new run that begins then
-- starts with them.
pub reset_run-held :
    (a : RunArgs) (w : Winsock) (m : Mngr) (p : Process)
    → m.status ≡ run
    → m.queues ≡ true
    → CanRun a w
    → Returns
        (λ stopped.
          (stopped.status ≡ idle)
          × (stopped.recv_queue ≡ [])
          × (stopped.event_frame ≡ [])
          × ((f : Framer)
              → m.framer ≡ some f
              → mngr_held (sidaq_run a w stopped p).0 ≡ some (held f)))
        (reset_queue (sidaq_stop m).1)
unfolding sidaq_stop close_device run_started
reset_run-held a w m p e lists can =
    let stopped : Mngr = record (sidaq_stop m).1 {
      status = idle;
      recv_queue = [];
      event_frame = [];
    } in
    rw (reset_stopped m e lists) (
      returns (
        refl,
        refl,
        refl,
        λ f h. rw (sidaq_run-none a w stopped p (run_checks-CanRun a w stopped p can), e, h) refl,
      ))

-- Where the header is below the frame limit, a socket and an address are there and `connect` fails
-- for good, `SiDaqRun` leaves a socket open that no later call knows: after
-- `SiDaqStop` of a manager without a connection (its socket is invalid, or the 0 of a new manager),
-- one more socket is open than before.
pub run_connect_leak :
    (a : RunArgs) (w : Winsock) (m : Mngr) (p : Process) (e : WsaError)
    → a.header_len < a.max_frame_len
    → w.socket_failed ≡ none
    → IsResolved w.resolved
    → w.connect_failed ≡ some e
    → is_allowed_error e ≡ false
    → (m.sock_param.device_socket ≡ none) ⊎ (m.sock_param.device_socket ≡ some 0)
    → (sidaq_stop (sidaq_run a w m p).0).1.sockets ≡ m.sockets + 1
unfolding sidaq_run run_checks run_socket run_resolve run_connect sidaq_stop close_device
run_connect_leak a w m p e h s r c n d = ground (arith, s, r, c, d)
