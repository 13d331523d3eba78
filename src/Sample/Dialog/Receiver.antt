-- ===== src/Sample/Dialog/Receiver.antt =====
-- `recv_thread` of MfcSample/SiDaqMfcSampleDlg.cpp: the dialog's thread that takes the events.
use si_daq_api.Base.{
  ℕ, zero, suc, ◌+◌, ◌^◌, Bool, true, false, not, ◌&&◌, Option, none, some, List, [], ◌∷◌, ◌++◌,
  ◌==◌, ltb, if◌then◌else◌, length, Outcome, done, fault, ◌>>=◌,
}
use si_daq_api.Api.State.{
  Packets, Status, idle, stopping, reset, run, sys_error, mngr_invalid, Mngr,
}
use si_daq_api.Api.Control.{pause_recv_data, resume_recv_data}
use si_daq_api.Api.Access.{get_data, get_data_count, get_frame_data_count}
use si_daq_api.Sample.Dialog.{ThreadParam}

-- The thread's parameters, the manager that its pointer names, and the lines of its file.
pub record Receiver : Type 0 where
  pub param : ThreadParam
  pub mngr : Mngr
  pub file : List (List ℕ)

-- What the other threads do around one pass: the dialog's flag, the state, the receive queue and
-- the events that have come in when the pass begins; the two counts that each of its ten polls
-- reads; and the events that come in after them, before the pass takes one.
pub record Pass : Type 0 where
  pub force_exit_flg : Bool
  pub status : Status
  pub recv_queue : Packets
  pub more : Packets
  pub polls : ℕ → ℕ × ℕ
  pub later : Packets

-- The thread ends in these states once both queues are empty.
unfoldable pub may_end : Status → Bool
may_end idle = true
may_end stopping = true
may_end sys_error = true
may_end reset = false
may_end run = false
may_end mngr_invalid = false

-- The loop of ten polls, which the first one that finds something ends: `remain_flg == false`.
unfoldable pub stays_empty : (ℕ → ℕ × ℕ) → ℕ → Bool
stays_empty polls zero = true
stays_empty polls (suc n) = stays_empty polls n && (((polls n).0 == 0) && ((polls n).1 == 0))

-- The thread leaves its loop: the counts, and the ten polls behind them.
unfoldable pub leaves : (ℕ → ℕ × ℕ) → Mngr → Outcome Bool
leaves polls m =
    if may_end m.status
    then (get_data_count (some m) >>= λ recv_count. get_frame_data_count (some m) >>= λ frame_count.
        done ((recv_count == 0) && ((frame_count == 0) && stays_empty polls 10)))
    else done false

-- `WriteDataToFile` between a pause and a resume of the reception.
unfoldable pub write_event : List ℕ → Receiver → Receiver
write_event event r =
    if r.param.write_file_flg
    then record r { mngr = resume_recv_data (pause_recv_data r.mngr); file = r.file ++ event ∷ [] }
    else r

-- `receive_bytes` is a signed `long long`, whose overflow is a fault.
unfoldable pub add_bytes : ℕ → ThreadParam → Outcome ThreadParam
add_bytes n p =
    if ltb (p.receive_bytes + n) (2 ^ 63)
    then done (record p { receive_bytes = p.receive_bytes + n })
    else fault

unfoldable pub took_event : Option (List ℕ) → Receiver → Outcome Receiver
took_event none r = done r
took_event (some event) r =
    let r' = write_event event r in
    add_bytes (length event) r'.param >>= λ param. done (record r' { param = param })

-- The other threads put events into the manager.
abbrev pub grown : Packets → Mngr → Mngr
grown more m = record m { event_frame = m.event_frame ++ more }

-- The pass behind its first two checks; `later` comes in before it takes an event.
unfoldable pub receiver_take : (ℕ → ℕ × ℕ) → Packets → Receiver → Outcome (Bool × Receiver)
receiver_take polls later r = leaves polls r.mngr >>= λ ends.
    if ends
    then done (true, r)
    else let g = get_data (grown later r.mngr) in
      (took_event g.0 (record r { mngr = g.1 }) >>= λ r'. done (false, r'))

-- One pass of the loop, `true` if the loop ends.
unfoldable pub receiver_pass : (ℕ → ℕ × ℕ) → Packets → Receiver → Outcome (Bool × Receiver)
receiver_pass polls later r =
    if not r.param.force_exit_flg then done (true, r) else elim r.param.sidaq_mngr_ptr [
      | none ↦ done (true, r)
      | some at_ ↦ receiver_take polls later r
    ]

-- The state in which a pass begins.
abbrev pub changed : Pass → Receiver → Receiver
changed p r = record r {
  param = record r.param { force_exit_flg = p.force_exit_flg };
  mngr = record r.mngr {
    status = p.status;
    recv_queue = p.recv_queue;
    event_frame = r.mngr.event_frame ++ p.more;
  };
}

-- The loop over the passes, up to its end: `false` if it is still running after them.
unfoldable pub receiver_loop : List Pass → Receiver → Outcome (Bool × Receiver)
receiver_loop [] r = done (false, r)
receiver_loop (p ∷ passes) r = receiver_pass p.polls p.later (changed p r) >>= λ r'.
    let rest = receiver_loop passes r'.1 in if r'.0 then done r' else rest

-- The thread begins its count at 0.
unfoldable pub receiver_run : List Pass → Receiver → Outcome (Bool × Receiver)
receiver_run passes r =
    receiver_loop passes (record r { param = record r.param { receive_bytes = 0 } })
