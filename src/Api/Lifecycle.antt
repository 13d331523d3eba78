-- ===== src/Api/Lifecycle.antt =====
-- `SiDaqInitialize` and `SiDaqTerminate` of SiDaqApi/SiDaqApi.cpp, with the count of calls that
-- keep winsock alive. `NewSQueue` never fails here.
use si_daq_api.Base.{
  ℕ, ◌+◌, ◌-◌, ◌%◌, ◌^◌, Bool, true, false, not, ◌&&◌, Option, none, some, List, [], Outcome, done,
  fault, ◌==◌, ltb, leb, length, replicate, if◌then◌else◌,
}
use si_daq_api.Rbcp.{Rbcp, Net}
use si_daq_api.Rbcp.Construct.{Host, Construction, made, failed, construct}
use si_daq_api.SockThread.{SockParam, WsaError}
use si_daq_api.SockThread
use si_daq_api.Api.State.{
  idle, sys_error, no_error, initial_connect_failed, Mngr, Process, set_sidaq_error,
}
use si_daq_api.Api.Control.{sidaq_stop}
use si_daq_api.Api.Access.{rbcp_read_bytes}

-- What the system answers: `malloc` of the manager and of the list of queues, `WSAStartup`, the
-- socket library, and the device.
pub record Startup : Type 0 where
  pub allocated : Bool
  pub list_allocated : Bool
  pub wsa_failed : Option WsaError
  pub host : Host
  pub net : Net

-- The result: NULL, or a manager. An exception of the constructor leaves the function.
pub data Initialized : Type 0 where
  null : Initialized
  manager : Mngr → Initialized
  escaped : Initialized

abbrev pub host_name_max : ℕ
host_name_max = 256

abbrev pub reg_area_address : ℕ
reg_area_address = 0xffffff00

abbrev pub rbcp_reg_length : ℕ
rbcp_reg_length = 64

-- The manager behind `memset` and the first assignments.
abbrev pub fresh_mngr : List ℕ → ℕ → ℕ → Mngr
fresh_mngr ip tcp_port udp_port = record {
  status = idle;
  ip_address = ip;
  tcp_port = tcp_port;
  udp_port = udp_port;
  sitcp_register = replicate 255 0;
  sock_param = record {
    run = false;
    device_socket = some 0;
    rx_bytes = 0;
    last_error = none;
    recv_buf_size = 0;
    queue_limit = 0;
    queue_error_code = SockThread.no_error;
    pause_flg = false;
  };
  queues = false;
  recv_queue = [];
  squeue_index = 0;
  error_code = no_error;
  error_message = "No Error";
  sitcp = none;
  framer = none;
  reply = none;
  event_frame = [];
  sockets = 0;
  sock_threads = 0;
  framer_threads = 0;
}

-- The timeout that the declaration of the constructor names.
abbrev default_timeout : ℕ
default_timeout = 200

-- The answer of the test connection, and the queues.
unfoldable pub connect_answer : Bool → Option (List ℕ) → Mngr → Initialized
connect_answer list_allocated none m = manager (
    set_sidaq_error (record m { sitcp = none; status = sys_error }) initial_connect_failed
      "could not initialize SiTCP. confirm ip address and device." none)
connect_answer list_allocated (some bytes) m =
    if list_allocated
    then manager (record m { sock_param = record m.sock_param { run = true }; queues = true })
    else null

unfoldable pub connect_device : Startup → Rbcp → Mngr → Initialized
connect_device s rbcp m =
    let r =
      rbcp_read_bytes s.net reg_area_address rbcp_reg_length (record m { sitcp = some rbcp }) in
    connect_answer s.list_allocated r.0 r.1

-- `new SiTcpRbcp(ip_address, udp_port)`, whose port is an `unsigned short`.
unfoldable pub new_rbcp : Startup → List ℕ → ℕ → Construction
new_rbcp s ip udp_port = construct s.host ip (udp_port % 2 ^ 16) default_timeout

unfoldable pub start_rbcp : Startup → Mngr → Initialized
start_rbcp s m = elim (new_rbcp s m.ip_address m.udp_port) [
  | failed e left ↦ escaped
  | made rbcp peer ↦ connect_device s rbcp m
]

-- `SiDaqInitialize`; an address that does not fit into the struct stops the process.
unfoldable pub sidaq_initialize :
    Option (List ℕ) → ℕ → ℕ → Bool → Startup → Process → Outcome (Initialized × Process)
sidaq_initialize none tcp_port udp_port not_wsa_cleanup s p = done (null, p)
sidaq_initialize (some ip) tcp_port udp_port not_wsa_cleanup s p =
    if not s.allocated
    then done (null, p)
    else if leb host_name_max (length ip)
    then fault
    else let m = fresh_mngr ip tcp_port udp_port in
      if not not_wsa_cleanup && (p.wsa_init == 0)
      then elim s.wsa_failed [
        | some e ↦ done (
          manager (
              set_sidaq_error (record m { status = sys_error }) no_error
                "could not initialize socket. WSAStartup Failed." (some e)),
          p,
        )
        | none ↦ done (start_rbcp s m, record p { wsa_init = p.wsa_init + 1 })
      ]
      else done (start_rbcp s m, p)

-- `SiDaqTerminate`: the manager that is given back, and the count.
unfoldable pub sidaq_terminate : Option Mngr → Bool → Process → Option Mngr × Process
sidaq_terminate none not_wsa_cleanup p = (none, p)
sidaq_terminate (some m) not_wsa_cleanup p =
    let m' = (sidaq_stop m).1 in
    (
      some m',
      if ltb 0 p.wsa_init
          then record p {
            wsa_init = p.wsa_init - 1;
            cleanups =
                if (p.wsa_init - 1 == 0) && not not_wsa_cleanup then p.cleanups + 1 else p.cleanups;
          }
          else p,
    )
