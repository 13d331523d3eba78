-- ===== src/Api/Cleanup.antt =====
-- What `SiDaqInitialize` makes of a device that answers, and when winsock is given back.
use si_daq_api.Base.{
  ℕ, ◌+◌, ◌%◌, ◌^◌, ◌<◌, ◌≡◌, refl, inl, inr, true, false, none, some, List, [], ◌++◌, length,
  replicate, lt→leb, arith, done, Returns, returns,
}
use si_daq_api.Rbcp.{Rbcp}
use si_daq_api.Rbcp.Construct.{SockaddrIn, Host, made}
use si_daq_api.Rbcp.Construct.Cases.{Accepts}
use si_daq_api.Api.Starts.{new_rbcp-made, start_rbcp-made}
use si_daq_api.Rbcp.Device.{dump, device_net}
use si_daq_api.Api.State.{idle, no_error, Mngr, Process}
use si_daq_api.Api.Control.{RunArgs, Winsock, sidaq_run}
use si_daq_api.Api.Control.Transitions.{CanRun, sidaq_run-cases}
use si_daq_api.Api.Access.{rbcp_read_bytes}
use si_daq_api.Api.Registers.{rbcp_read_bytes-dump}
use si_daq_api.Api.Lifecycle.{
  Startup, manager, new_rbcp, connect_answer, sidaq_initialize, connect_device, sidaq_terminate,
  fresh_mngr, reg_area_address, rbcp_reg_length,
}

-- The manager is fresh, and holds the registers of the device.
pub record IsFresh (mem : ℕ → ℕ) (m : Mngr) : Type 0 where
  pub status : m.status ≡ idle
  pub error : m.error_code ≡ no_error
  pub registers : m.sitcp_register ≡ dump mem reg_area_address rbcp_reg_length ++ replicate 191 0
  pub queues : (m.recv_queue ≡ []) × (m.event_frame ≡ [])
  pub threads : (m.sockets ≡ 0) × (m.sock_threads ≡ 0) × (m.framer_threads ≡ 0)

connect_device-read :
    (s : Startup) (r : Rbcp) (m : Mngr) (bytes : List ℕ) (m' : Mngr)
    → s.list_allocated ≡ true
    → rbcp_read_bytes s.net reg_area_address rbcp_reg_length (record m { sitcp = some r })
      ≡ (some bytes, m')
    → connect_device s r m
      ≡ manager (record m' { sock_param = record m'.sock_param { run = true }; queues = true })
unfolding connect_device connect_answer
connect_device-read s r m bytes m' l e = ground (arith, e)

initialize_connects :
    (ip : List ℕ) (tcp_port udp_port : ℕ) (s : Startup) (r : Rbcp) (peer : SockaddrIn) (p : Process)
    → s.allocated ≡ true
    → s.wsa_failed ≡ none
    → new_rbcp s ip udp_port ≡ made r peer
    → length ip < 256
    → p.wsa_init ≡ 0
    → sidaq_initialize (some ip) tcp_port udp_port false s p
      ≡ done (
        connect_device s r (fresh_mngr ip tcp_port udp_port),
        record p { wsa_init = p.wsa_init + 1 },
      )
unfolding sidaq_initialize connect_device
initialize_connects ip tcp_port udp_port s r peer p a w b short first =
    rw
      (
        a,
        w,
        first,
        lt→leb 256 (length ip) short,
        start_rbcp-made s (fresh_mngr ip tcp_port udp_port) r peer b,
      )
      refl

-- With a device that answers, a socket library that lets the constructor connect, an address of
-- less than 256 bytes, winsock and the memory there, and no user of winsock yet, `SiDaqInitialize` gives a manager that is idle, without an error,
-- with empty queues and the 64 registers of the device at the head of its buffer, and counts one
-- user of winsock.
pub sidaq_initialize-IsFresh :
    (mem : ℕ → ℕ) (ip : List ℕ) (tcp_port udp_port : ℕ) (host : Host) (p : Process)
    → Accepts host ip (udp_port % 2 ^ 16)
    → length ip < 256
    → p.wsa_init ≡ 0
    → Returns
        (λ (i, p'). ((m : Mngr) × (i ≡ manager m) × IsFresh mem m) × (p'.wsa_init ≡ 1))
        (sidaq_initialize
          (some ip)
          tcp_port
          udp_port
          false
          (record {
            allocated = true;
            list_allocated = true;
            wsa_failed = none;
            host = host;
            net = device_net mem;
          })
          p)
sidaq_initialize-IsFresh mem ip tcp_port udp_port host p can short first =
    let m₀ : Mngr = fresh_mngr ip tcp_port udp_port in
    let s : Startup = record {
      allocated = true;
      list_allocated = true;
      wsa_failed = none;
      host = host;
      net = device_net mem;
    } in
    let (r, peer, object, sound) = new_rbcp-made s ip udp_port can in
    let (r', read) =
      rbcp_read_bytes-dump mem reg_area_address rbcp_reg_length r (record m₀ { sitcp = some r })
        refl (omega arith) (omega arith) in
    rw
      (
        initialize_connects ip tcp_port udp_port s r peer p refl refl object short first,
        connect_device-read s r m₀ _ _ refl read,
      )
      (returns (
        (
          _,
          refl,
          record {
            status = refl;
            error = refl;
            registers = refl;
            queues = (refl, refl);
            threads = (refl, refl, refl);
          },
        ),
        omega arith,
      ))

-- With one user of winsock left, `SiDaqTerminate` gives winsock back; but where a run has begun
-- before, it does not, since `SiDaqRun` counts one more user that nothing takes off.
pub run_terminate-cleanups :
    (m : Mngr) (p : Process)
    → p.wsa_init ≡ 1
    → ((sidaq_terminate (some m) false p).1.cleanups ≡ p.cleanups + 1)
      × ((a : RunArgs) (w : Winsock)
          → CanRun a w
          → let r = sidaq_run a w m p in
            (sidaq_terminate (some r.0) false r.1).1.cleanups ≡ p.cleanups)
unfolding sidaq_terminate
run_terminate-cleanups m p e = (
  ground arith,
  λ a w can. elim (sidaq_run-cases a w m p) [
    | inl (_, began) ↦ rw began.count (ground arith)
    | inr (never, _) ↦ absurd (never can)
  ],
)
