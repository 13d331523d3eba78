-- ===== src/Api/Control/Transitions.antt =====
-- What `SiDaqRun`, `SiDaqStop` and `SiDaqResetQueue` do to the manager, on every branch.
use Prim.Native.String.{String}
use si_daq_api.Base.{
  subst, ◌+◌, ◌<◌, ◌≡◌, ◌≢◌, refl, sym, ◌⊎◌, inl, inr, true, Option, none, some, arith, is_neg, leb,
  Bool-cases,
}
use si_daq_api.SockThread.{SockParam, WsaError, is_allowed_error}
use si_daq_api.SockThread
use si_daq_api.Api.State.{
  run, sys_error, ErrorCode, no_error, invalid_parameter, winsock_error, Mngr, Process,
  set_sidaq_error,
}
use si_daq_api.Api.Control.{
  RunArgs, Resolved, numeric, lookup_failed, lookup_empty, lookup_found, Winsock, run_failed,
  run_option, run_connected, run_connect, run_socket, run_resolve, or_else, run_checks, run_started,
  sidaq_run,
}

-- The address is known.
abbrev pub IsResolved : Resolved → Type 0
IsResolved r = (r ≡ numeric) ⊎ (r ≡ lookup_found)

-- The call of `connect` has not failed, or would only block.
abbrev pub IsConnecting : Option WsaError → Type 0
IsConnecting e = (e ≡ none) ⊎ (e ≡ some SockThread.would_block)

-- Everything that `SiDaqRun` needs.
pub record CanRun (a : RunArgs) (w : Winsock) : Type 0 where
  pub header : a.header_len < a.max_frame_len
  pub socket : w.socket_failed ≡ none
  pub resolved : IsResolved w.resolved
  pub connecting : IsConnecting w.connect_failed
  pub option : (is_neg a.rcv_buf_bytes ≡ true) ⊎ (w.setsockopt_failed ≡ none)

-- The run has begun.
pub record Began (a : RunArgs) (w : Winsock) (m : Mngr) (p : Process) (m' : Mngr) (p' : Process)
    : Type 0 where
  pub status : m'.status ≡ run
  pub error : m'.error_code ≡ no_error
  pub socket : m'.sock_param.device_socket ≡ some w.socket
  pub flag : m'.sock_param.run ≡ true
  pub sockets : m'.sockets ≡ m.sockets + 1
  pub threads : (m'.sock_threads ≡ m.sock_threads + 1) × (m'.framer_threads ≡ m.framer_threads + 1)
  pub client : m'.sitcp ≡ m.sitcp
  pub lists : m'.queues ≡ m.queues
  pub count : p' ≡ record p { wsa_init = p.wsa_init + 1 }

-- The run has been refused: an error is recorded, no thread is created, and the connection, the
-- framer and the queues are those from before.
pub record Refused (m : Mngr) (p : Process) (m' : Mngr) (p' : Process) : Type 0 where
  pub status : m'.status ≡ sys_error
  pub error : m'.error_code ≢ no_error
  pub socket : m'.sock_param.device_socket ≡ m.sock_param.device_socket
  pub flag : m'.sock_param.run ≡ m.sock_param.run
  pub threads : (m'.sock_threads ≡ m.sock_threads) × (m'.framer_threads ≡ m.framer_threads)
  pub framer : m'.framer ≡ m.framer
  pub queues : (m'.recv_queue ≡ m.recv_queue) × (m'.event_frame ≡ m.event_frame)
  pub count : p' ≡ p

module _ (a : RunArgs) (w : Winsock) (m : Mngr) (p : Process) where
  pub sidaq_run-none :
      run_checks a w m ≡ none
      → sidaq_run a w m p
        ≡ (record (run_started a w m) { status = run }, record p { wsa_init = p.wsa_init + 1 })
  unfolding sidaq_run
  sidaq_run-none e = ground arith

  sidaq_run-some : (m' : Mngr) → run_checks a w m ≡ some m' → sidaq_run a w m p ≡ (m', p)
  unfolding sidaq_run
  sidaq_run-some m' e = ground arith

  run-Began :
      Began a w m p
        (record (run_started a w m) { status = run })
        (record p { wsa_init = p.wsa_init + 1 })
  unfolding run_started
  run-Began = record {
    status = refl;
    error = refl;
    socket = refl;
    flag = refl;
    sockets = refl;
    threads = (refl, refl);
    client = refl;
    lists = refl;
    count = refl;
  }

  pub run_checks-CanRun : CanRun a w → run_checks a w m ≡ none
  unfolding run_checks run_socket run_resolve run_connect run_connected run_option is_allowed_error
  run_checks-CanRun c = ground (arith, c.header, c.socket, c.resolved, c.connecting, c.option)

  -- The manager keeps its connection, its framer, its threads and its queues.
  record Same (m₁ : Mngr) : Type 0 where
    device_same : m₁.sock_param.device_socket ≡ m.sock_param.device_socket
    flag_same : m₁.sock_param.run ≡ m.sock_param.run
    threads_same : (m₁.sock_threads ≡ m.sock_threads) × (m₁.framer_threads ≡ m.framer_threads)
    framer_same : m₁.framer ≡ m.framer
    queues_same : (m₁.recv_queue ≡ m.recv_queue) × (m₁.event_frame ≡ m.event_frame)

  -- A check passes, and its condition holds, or it refuses the run.
  Stage : Option Mngr → Type 0 → Type 0
  Stage r holds = ((r ≡ none) × holds) ⊎ ((m' : Mngr) × (r ≡ some m') × Refused m p m' p)

  refused :
      (m₁ : Mngr) → Same m₁ → m₁.status ≡ sys_error → m₁.error_code ≢ no_error → Refused m p m₁ p
  refused m₁ s e n = record {
    status = e;
    error = n;
    socket = s.device_same;
    flag = s.flag_same;
    threads = s.threads_same;
    framer = s.framer_same;
    queues = s.queues_same;
    count = refl;
  }

  both : (A B : Type 0) (r s : Option Mngr) → Stage r A → Stage s B → Stage (or_else r s) (A × B)
  unfolding Stage
  both A B r s (inl (e, x)) (inl (d, y)) = inl (rw e d, (x, y))
  both A B r s (inl (e, x)) (inr (m', d, n)) = inr (m', rw e d, n)
  both A B r s (inr (m', e, n)) t = inr (m', rw e refl, n)

  module _ (m₁ : Mngr) (same : Same m₁) where
    refuses :
        (code : ErrorCode) (text : String) (e : Option WsaError)
        → code ≢ no_error
        → Refused m p (record (set_sidaq_error m₁ code text e) { status = sys_error }) p
    refuses code text e n =
        refused _
          (record {
            device_same = same.device_same;
            flag_same = same.flag_same;
            threads_same = same.threads_same;
            framer_same = same.framer_same;
            queues_same = same.queues_same;
          })
          refl n

    resolve-Stage : (r : Resolved) → Stage (run_resolve r m₁) (IsResolved r)
    unfolding Stage run_resolve run_failed
    resolve-Stage numeric = inl (refl, inl refl)
    resolve-Stage (lookup_failed e) = inr (_, refl, refuses winsock_error _ (some e) (λ n. cc))
    resolve-Stage (lookup_empty e) = inr (_, refl, refuses winsock_error _ (some e) (λ n. cc))
    resolve-Stage lookup_found = inl (refl, inr refl)

    connect-Stage : (e : Option WsaError) → Stage (run_connect e m₁) (IsConnecting e)
    unfolding Stage run_connect is_allowed_error
    connect-Stage none = inl (refl, inl refl)
    connect-Stage (some SockThread.would_block) = inl (refl, inr refl)
    connect-Stage (some SockThread.not_initialised) =
        inr (_, refl, refuses winsock_error _ _ (λ n. cc))
    connect-Stage (some SockThread.fault_) = inr (_, refl, refuses winsock_error _ _ (λ n. cc))
    connect-Stage (some SockThread.net_down) = inr (_, refl, refuses winsock_error _ _ (λ n. cc))
    connect-Stage (some SockThread.inval) = inr (_, refl, refuses winsock_error _ _ (λ n. cc))
    connect-Stage (some SockThread.intr) = inr (_, refl, refuses winsock_error _ _ (λ n. cc))
    connect-Stage (some SockThread.in_progress) = inr (_, refl, refuses winsock_error _ _ (λ n. cc))
    connect-Stage (some SockThread.not_sock) = inr (_, refl, refuses winsock_error _ _ (λ n. cc))
    connect-Stage (some (SockThread.other k)) = inr (_, refl, refuses winsock_error _ _ (λ n. cc))

    option-Stage : (e : Option WsaError) → Stage (run_option e m₁) (e ≡ none)
    unfolding Stage run_option run_failed
    option-Stage none = inl (refl, refl)
    option-Stage (some e) = inr (_, refl, refuses winsock_error _ (some e) (λ n. cc))

    connected-Stage :
        Stage
          (run_connected a w m₁)
          ((is_neg a.rcv_buf_bytes ≡ true) ⊎ (w.setsockopt_failed ≡ none))
    unfolding Stage run_connected
    connected-Stage = elim (Bool-cases (is_neg a.rcv_buf_bytes)) [
      | inl e ↦ inl (rw e refl, inl e)
      | inr e ↦
          rw e (elim (option-Stage w.setsockopt_failed) [
            | inl (d, h) ↦ inl (d, inr h)
            | inr n ↦ inr n
          ])
    ]

  socket-Stage :
      (e : Option WsaError) (m₁ : Mngr)
      → Same m₁
      → Stage (run_socket e a w m₁) (
          (e ≡ none)
          × (IsResolved w.resolved
              × (IsConnecting w.connect_failed
                  × ((is_neg a.rcv_buf_bytes ≡ true) ⊎ (w.setsockopt_failed ≡ none)))))
  unfolding Stage run_socket run_failed
  socket-Stage (some e) m₁ same = inr (_, refl, refuses m₁ same winsock_error _ (some e) (λ n. cc))
  socket-Stage none m₁ same =
      let m₂ : Mngr = record m₁ { sockets = m₁.sockets + 1 } in
      let same₂ : Same m₂ = record {
        device_same = same.device_same;
        flag_same = same.flag_same;
        threads_same = same.threads_same;
        framer_same = same.framer_same;
        queues_same = same.queues_same;
      } in
      elim (both _ _ _ _ (resolve-Stage m₂ same₂ w.resolved)
        (both _ _ _ _ (connect-Stage m₂ same₂ w.connect_failed) (connected-Stage m₂ same₂))) [
          | inl (e, h) ↦ inl (e, (refl, h))
          | inr n ↦ inr n
        ]

  run_checks-cases : Stage (run_checks a w m) (CanRun a w)
  unfolding run_checks Stage
  run_checks-cases =
      let m₀ : Mngr = set_sidaq_error m no_error "No Error" none in
      let same : Same m₀ = record {
        device_same = refl;
        flag_same = refl;
        threads_same = (refl, refl);
        framer_same = refl;
        queues_same = (refl, refl);
      } in
      elim (Bool-cases (leb a.max_frame_len a.header_len)) [
        | inl e ↦ rw e (inr (_, refl, refuses m₀ same invalid_parameter _ none (λ n. cc)))
        | inr e ↦ rw e (elim (socket-Stage w.socket_failed m₀ same) [
          | inl (d, h) ↦ inl (
            d,
            record {
              header = ground (arith, e);
              socket = h.0;
              resolved = h.1.0;
              connecting = h.1.1.0;
              option = h.1.1.1;
            },
          )
          | inr n ↦ inr n
        ])
      ]

  -- `SiDaqRun` either begins the run, and then the maximum frame length is above the header's,
  -- and no call of winsock has failed but for a connection that would block; or it refuses the
  -- run: the status is the system error, an error is recorded, and the connection, the framer, the
  -- threads, the queues and the count of winsock's users are those from before.
  pub sidaq_run-cases :
      (CanRun a w × Began a w m p (sidaq_run a w m p).0 (sidaq_run a w m p).1)
      ⊎ (¬ CanRun a w × Refused m p (sidaq_run a w m p).0 (sidaq_run a w m p).1)
  unfolding Stage
  sidaq_run-cases = elim run_checks-cases [
    | inl (e, can) ↦
        inl (can, subst (λ r. Began a w m p r.0 r.1) (sym (sidaq_run-none e)) run-Began)
    | inr (m', e, n) ↦ inr (
      λ can. cc (e, run_checks-CanRun can),
      subst (λ r. Refused m p r.0 r.1) (sym (sidaq_run-some m' e)) n,
    )
  ]
