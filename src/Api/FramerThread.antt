-- ===== src/Api/FramerThread.antt =====
-- `framer_thread` of SiDaqApi/SiDaqApi.cpp: its loop body, and what it does when the loop ends.
pub mod Checks
pub mod Blocks
pub mod Ends
pub mod Drain
pub mod Conserve
use si_daq_api.Base.{
  ℕ, suc, zero, ◌-◌, ◌^◌, Bool, true, false, not, ◌&&◌, ◌||◌, Option, none, some, List, [], ◌∷◌,
  ◌++◌, Outcome, done, fault, ◌>>=◌, ◌==◌, ltb, slt, is_neg, length, take, if◌then◌else◌,
}
use si_daq_api.Framer.{Framer, FramerErrorCode, recv_data, list_put}
use si_daq_api.Framer
use si_daq_api.SockThread.{SockQueueErrorCode}
use si_daq_api.SockThread
use si_daq_api.Api.State.{
  Status, idle, stopping, reset, run, sys_error, mngr_invalid, Packets, Mngr, set_sidaq_error,
  framer_code, decode_framer_error, decode_framer_error_string, sock_queue_code,
  decode_sock_queue_error,
}
use si_daq_api.Api.Control.{close_device, sidaq_stop}

-- -1
abbrev pub minus_one : ℕ
minus_one = 2 ^ 32 - 1

is_framer_error : FramerErrorCode → Bool
is_framer_error c = not (framer_code c == 0)

is_queue_error : SockQueueErrorCode → Bool
is_queue_error c = not (sock_queue_code c == 0)

-- A framing error: the run ends with it, and the socket is closed. `SOCKET` is unsigned, so the
-- test `>= 0` always holds.
raise_framer_error : Framer → Mngr → Mngr
raise_framer_error f m =
    let code = framer_code f.error_code in
    close_device (
      set_sidaq_error
        (record m { status = sys_error; framer = some (record f { error_flg = minus_one }) })
        (decode_framer_error code) (decode_framer_error_string code) none)

-- An error that the socket thread left in `queue_error_code`.
raise_queue_error : Framer → Mngr → Mngr
raise_queue_error f m =
    set_sidaq_error
      (record m { status = sys_error; framer = some (record f { error_flg = minus_one }) })
      (decode_sock_queue_error (sock_queue_code m.sock_param.queue_error_code))
      "Socket Receive Queue Error" none

-- The error check behind a received block.
pub check_errors : Framer → Mngr → Mngr
check_errors f m =
    if not (f.error_flg == 0)
    then m
    else if is_framer_error f.error_code
    then raise_framer_error f m
    else if is_queue_error m.sock_param.queue_error_code
    then raise_queue_error f m
    else m

-- The check of the queue's error where the socket is closed and no block is left.
pub check_closed : Framer → Mngr → Mngr
check_closed f m =
    if (f.error_flg == 0) && is_queue_error m.sock_param.queue_error_code
    then raise_queue_error f m
    else m

-- "rest frame": what the framer holds becomes the last event.
pub flush_rest : Mngr → Outcome Mngr
flush_rest m = elim m.framer [
  | none ↦ fault
  | some f ↦
      if not (slt 0 f.rest)
      then done m
      else if ltb (length f.buff) f.rest
      then fault
      else done (record m {
        event_frame = m.event_frame ++ take f.rest f.buff ∷ [];
        framer = some (record f { rest = 0 });
      })
]

-- A block from the receive queue.
pub frame_block : ℕ → List ℕ → Packets → Framer → Mngr → Outcome Mngr
frame_block past block blocks f m =
    if slt 0 (length block)
    then (recv_data list_put past f block (length block) m.event_frame >>= λ r.
        done (
          check_errors r.0
            (record m { recv_queue = blocks; framer = some r.0; event_frame = r.1 })))
    else done (check_errors f (record m { recv_queue = blocks }))

-- "check socket": with the socket closed the loop ends.
pub closed_round : Framer → Mngr → Outcome (Bool × Mngr)
closed_round f m = elim m.sock_param.device_socket [
  | some s ↦ done (false, m)
  | none ↦ flush_rest (check_closed f m) >>= λ m'. done (true, m')
]

-- `SQGet` answered NULL: the flag is "break".
pub no_block : Framer → Mngr → Outcome (Bool × Mngr)
no_block f m = elim m.status [
  | stopping ↦ flush_rest m >>= λ m'. done (true, m')
  | idle ↦ closed_round f m
  | reset ↦ closed_round f m
  | run ↦ closed_round f m
  | sys_error ↦ closed_round f m
  | mngr_invalid ↦ closed_round f m
]

-- Whether the loop goes on at all.
pub loops : Status → Bool
loops idle = false
loops reset = false
loops stopping = true
loops run = true
loops sys_error = true
loops mngr_invalid = true

-- One round of the loop: `true` if the loop has ended. `timed_out`: `SQGet` answered NULL though
-- there is a block. `past` is the byte behind the block.
pub framer_round : Bool → ℕ → Mngr → Outcome (Bool × Mngr)
framer_round timed_out past m =
    if not (loops m.status)
    then done (true, m)
    else if not (m.squeue_index == 0)
    then done (false, m)
    else elim m.framer [
      | none ↦ fault
      | some f ↦ elim m.recv_queue [
        | [] ↦ no_block f m
        | block ∷ blocks ↦
            if timed_out
            then no_block f m
            else (frame_block past block blocks f m >>= λ m'. done (false, m'))
      ]
    ]

-- Behind the loop.
pub framer_end : Mngr → Outcome Mngr
framer_end m = elim m.framer [
  | none ↦ fault
  | some f ↦ if is_neg f.error_flg then done (sidaq_stop m).1 else elim m.status [
    | reset ↦ done m
    | idle ↦ done (record m { status = idle })
    | stopping ↦ done (record m { status = idle })
    | run ↦ done (record m { status = idle })
    | sys_error ↦ done (record m { status = idle })
    | mngr_invalid ↦ done (record m { status = idle })
  ]
]

-- The thread over the rounds of a schedule: `true` if it has ended. Its first act is to clear the
-- framer's error code.
pub framer_rounds : List (Bool × ℕ) → Mngr → Outcome (Bool × Mngr)
framer_rounds [] m = done (false, m)
framer_rounds ((timed_out, past) ∷ rounds) m = framer_round timed_out past m >>= λ r. elim r.0 [
  | true ↦ framer_end r.1 >>= λ m'. done (true, m')
  | false ↦ framer_rounds rounds r.1
]

pub framer_thread : List (Bool × ℕ) → Mngr → Outcome (Bool × Mngr)
framer_thread rounds m = elim m.framer [
  | none ↦ fault
  | some f ↦
      framer_rounds rounds (record m { framer = some (record f { error_code = Framer.no_error }) })
]
