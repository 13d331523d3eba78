-- ===== src/SockThread.antt =====
-- SiDaqApi/sock_thread.cpp and sock_thread.h: the thread that receives from the device. What the
-- thread sees of the flags that other threads set, and what `select` and `recv` answer, is a list
-- of events; `INVALID_SOCKET` is `none`. The receive queue is a parameter, as in Framer.
pub mod Laws
pub mod Counts
use Prim.Native.String.{String}
use si_daq_api.Base.{
  ℕ, ◌+◌, ◌^◌, ◌%◌, Bool, true, false, not, ◌&&◌, ◌||◌, Option, none, some, List, [], ◌∷◌, Outcome,
  done, ◌>>=◌, ◌==◌, ltb, if◌then◌else◌, length,
}

-- The codes of winsock that the source names.
pub data WsaError : Type 0 where
  not_initialised : WsaError
  fault_ : WsaError
  net_down : WsaError
  inval : WsaError
  intr : WsaError
  in_progress : WsaError
  not_sock : WsaError
  would_block : WsaError
  other : ℕ → WsaError

-- `decode_error`
unfoldable pub decode_error : WsaError → String
decode_error not_initialised = "Before this function can be used, the WSAStartup call must succeed."
decode_error fault_ =
    "Either the Windows socket implementation could not allocate the necessary resources for internal operations or readfds, writefds, exceptfds, or timeval parameters are not part of the user address space."
decode_error net_down = "Network subsystem failed."
decode_error inval =
    "Either the timeout value is invalid or all three descriptor parameters are null."
decode_error intr = "A blocked operation was interrupted by a call to WSACancelBlockingCall."
decode_error in_progress =
    "Either a blocking Windows Socket 1.1 call is in progress or the service provider is handling the callback function."
decode_error not_sock = "One of the descriptor sets contains an entry that is not a socket."
decode_error would_block = "Resource temporarily unavailable."
decode_error (other n) = "Undefined Error."

-- `is_allowed_error(nCode) >= 0`
unfoldable pub is_allowed_error : WsaError → Bool
is_allowed_error would_block = true
is_allowed_error not_initialised = false
is_allowed_error fault_ = false
is_allowed_error net_down = false
is_allowed_error inval = false
is_allowed_error intr = false
is_allowed_error in_progress = false
is_allowed_error not_sock = false
is_allowed_error (other n) = false

-- `SockQueueErroeCode`
pub data SockQueueErrorCode : Type 0 where
  no_error : SockQueueErrorCode
  exceed_recv_queue_count : SockQueueErrorCode
  memory_allocated_failed : SockQueueErrorCode

-- `struct SockThreadLparam`, less its queues; `rx_bytes` and `last_error` are those of
-- `sock_stat`, and `none` is the error 0.
pub record SockParam : Type 0 where
  pub run : Bool
  pub device_socket : Option ℕ
  pub rx_bytes : ℕ
  pub last_error : Option WsaError
  pub recv_buf_size : ℕ
  pub queue_limit : ℕ
  pub queue_error_code : SockQueueErrorCode
  pub pause_flg : Bool

-- What `recv` answers: bytes, a closed connection, or an error.
pub data Received : Type 0 where
  bytes : List ℕ → Received
  closed : Option WsaError → Received
  failed : WsaError → Received

-- One pass of the receive loop: the flags at that time, and the answer of `recv` if it is called.
pub record Pass : Type 0 where
  pub run : Bool
  pub pause : Bool
  pub answer : Received

-- The thread's own `device_socket` stands beside the shared one.
pub record Thread (Q : Type 0) : Type 0 where
  pub param : SockParam
  pub queue : Q
  pub socket : Option ℕ

module _ {Q : Type 0} (put : List ℕ → Q → Outcome (Option ℕ × Q)) where
  -- `closesocket(device_socket)`, and both copies forget it.
  unfoldable pub drop_socket : Thread Q → Thread Q
  drop_socket t = record t { param = record t.param { device_socket = none }; socket = none }

  -- What becomes of a block that `SQPut` took with the result `count`; the flag is "break".
  unfoldable pub after_put : ℕ → Option ℕ → Thread Q → Bool × Thread Q
  after_put len none t = (
    true,
    drop_socket
        (record t { param = record t.param { queue_error_code = memory_allocated_failed } }),
  )
  after_put len (some count) t =
      if not (t.param.queue_limit == 0) && ltb t.param.queue_limit count
      then (
        true,
        drop_socket
            (record t { param = record t.param { queue_error_code = exceed_recv_queue_count } }),
      )
      else (
        false,
        record t { param = record t.param { rx_bytes = (t.param.rx_bytes + len) % 2 ^ 64 } },
      )

  unfoldable pub receive : Received → Thread Q → Outcome (Bool × Thread Q)
  receive (bytes block) t =
      put block t.queue >>= λ r. done (after_put (length block) r.0 (record t { queue = r.1 }))
  receive (closed e) t =
      done (true, drop_socket (record t { param = record t.param { last_error = e } }))
  receive (failed e) t =
      if is_allowed_error e
      then done (false, t)
      else done (true, drop_socket (record t { param = record t.param { last_error = some e } }))

  -- One pass of `while (TRUE)`: whether it breaks.
  unfoldable pub recv_pass : Pass → Thread Q → Outcome (Bool × Thread Q)
  recv_pass p t =
      let t' = record t { param = record t.param { run = p.run; pause_flg = p.pause } } in
      if p.pause then done (not p.run, t') else receive p.answer t'

  -- The passes, up to a break: `false` if they end before it.
  pub recv_passes : List Pass → Thread Q → Outcome (Bool × Thread Q)
  recv_passes [] t = done (false, t)
  recv_passes (p ∷ ps) t =
      recv_pass p t >>= λ r. elim r.0 [ true ↦ done (true, r.1) | false ↦ recv_passes ps r.1 ]

  -- `socket_loop_thread` up to its loop.
  unfoldable pub thread_start : SockParam → Q → Thread Q
  thread_start p q = record {
    param = record p { queue_error_code = no_error; pause_flg = false };
    queue = q;
    socket = p.device_socket;
  }

-- What `select` answers; `passes` are those of the receive loop that begins then.
pub data Selected : Type 0 where
  readable : List Pass → Selected
  nothing : Selected
  select_error : Option WsaError → Selected

-- Where the thread stands after the head of its outer loop and the call of `select`.
pub data Next : Type 0 where
  again : Next
  receives : List Pass → Next
  ends : Next

-- The outer loop up to the receive loop; the flag is the run flag at its head.
unfoldable pub select_round : {Q : Type 0} → Bool → Selected → Thread Q → Next × Thread Q
select_round run s t =
    let t' = record t { param = record t.param { run = run } } in
    if not run then (ends, t') else elim t.socket [
      | none ↦ (ends, t')
      | some socket ↦ elim s [
        | nothing ↦ (again, t')
        | select_error e ↦ (ends, record t' { param = record t'.param { last_error = e } })
        | readable passes ↦ (receives passes, t')
      ]
    ]

module _ {Q : Type 0} (put : List ℕ → Q → Outcome (Option ℕ × Q)) where
  -- The outer loop; `true`: the thread has ended. A receive loop that breaks leads to its head.
  pub thread_rounds : List (Bool × Selected) → Thread Q → Outcome (Bool × Thread Q)
  thread_rounds [] t = done (false, t)
  thread_rounds ((run, s) ∷ rounds) t =
      let r = select_round run s t in
      elim r.0 [
        | ends ↦ done (true, r.1)
        | again ↦ thread_rounds rounds r.1
        | receives passes ↦ recv_passes put passes r.1 >>= λ r'. elim r'.0 [
          | true ↦ thread_rounds rounds r'.1
          -- The receive loop is still running when the events end.
          | false ↦ done (false, r'.1)
        ]
      ]
