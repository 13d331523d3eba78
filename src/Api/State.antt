-- ===== src/Api/State.antt =====
-- The manager struct of SiDaqApi/SiDaqApi.h and the functions that record an error in it.
use Prim.Native.String.{String}
use si_daq_api.Base.{ℕ, Bool, Option, List, ◌==◌, if◌then◌else◌}
use si_daq_api.Framer.{Framer, FramerErrorCode}
use si_daq_api.Framer
use si_daq_api.SockThread.{SockParam, SockQueueErrorCode, WsaError}
use si_daq_api.SockThread
use si_daq_api.Rbcp.{Rbcp}

-- `SiDaqStatus`
pub data Status : Type 0 where
  idle : Status
  stopping : Status
  reset : Status
  run : Status
  sys_error : Status
  mngr_invalid : Status

-- `SiDaqErroeCode`
pub data ErrorCode : Type 0 where
  no_error : ErrorCode
  exceed_recv_queue_count : ErrorCode
  memory_allocated_failed : ErrorCode
  exceed_frame_queue_count : ErrorCode
  get_frame_length_failed : ErrorCode
  exceed_max_frame_length : ErrorCode
  initial_connect_failed : ErrorCode
  invalid_parameter : ErrorCode
  framer_buf_size_error : ErrorCode
  sitcp_read_error : ErrorCode
  sitcp_write_error : ErrorCode
  undefined_error : ErrorCode
  winsock_error : ErrorCode

abbrev pub Packets : Type 0
Packets = List (List ℕ)

-- `SiDaqMngr`, over the list of entries for each queue. `queues` says that `squeue_list_ptr` and
-- `_eventFrame` are not NULL; an initialisation that fails makes neither. `sockets` counts the open TCP sockets,
-- and the two thread counts the calls of `CreateThread`.
pub record Mngr : Type 0 where
  pub status : Status
  pub ip_address : List ℕ
  pub tcp_port : ℕ
  pub udp_port : ℕ
  pub sitcp_register : List ℕ
  pub sock_param : SockParam
  pub queues : Bool
  pub recv_queue : Packets
  pub squeue_index : ℕ
  pub error_code : ErrorCode
  pub error_message : String
  pub sitcp : Option Rbcp
  pub framer : Option Framer
  pub reply : Option Packets
  pub event_frame : Packets
  pub sockets : ℕ
  pub sock_threads : ℕ
  pub framer_threads : ℕ

-- `g_wsa_init`, and the calls of `WSACleanup`.
pub record Process : Type 0 where
  pub wsa_init : ℕ
  pub cleanups : ℕ

-- `set_socket_error`
abbrev pub set_socket_error : Mngr → Option WsaError → Mngr
set_socket_error m code = record m { sock_param = record m.sock_param { last_error = code } }

-- `set_sidaq_error`; every message of the source fits into the buffer.
abbrev pub set_sidaq_error : Mngr → ErrorCode → String → Option WsaError → Mngr
set_sidaq_error m code message wsa =
    set_socket_error (record m { error_code = code; error_message = message }) wsa

-- `FramerErroeCode` as the `int` that `_error_code` holds.
unfoldable pub framer_code : FramerErrorCode → ℕ
framer_code Framer.no_error = 0
framer_code Framer.invalid_parameter = 1
framer_code Framer.memory_allocated_failed = 2
framer_code Framer.exceed_frame_queue_count = 3
framer_code Framer.get_frame_length_failed = 4
framer_code Framer.exceed_max_frame_length = 5
framer_code Framer.buf_size_error = 6

-- `decode_framer_error`
unfoldable pub decode_framer_error : ℕ → ErrorCode
decode_framer_error code =
    if code == 0
    then no_error
    else if code == 1
    then invalid_parameter
    else if code == 2
    then memory_allocated_failed
    else if code == 3
    then exceed_frame_queue_count
    else if code == 4
    then get_frame_length_failed
    else if code == 5
    then exceed_max_frame_length
    else if code == 6
    then framer_buf_size_error
    else undefined_error

-- `decode_framer_error_string`
unfoldable pub decode_framer_error_string : ℕ → String
decode_framer_error_string code =
    if code == 0
    then "No Error"
    else if code == 1
    then "Framer invalid parameter"
    else if code == 2
    then "Framer memory allocatd failed"
    else if code == 3
    then "Exceed frame queue count"
    else if code == 4
    then "Get Frame length failed"
    else if code == 5
    then "Exceed max frame lentgh"
    else if code == 6
    then "framer buffer size error"
    else "Framer undefined error"

-- `SockQueueErroeCode` as the `int` that `queue_error_code` holds.
unfoldable pub sock_queue_code : SockQueueErrorCode → ℕ
sock_queue_code SockThread.no_error = 0
sock_queue_code SockThread.exceed_recv_queue_count = 1
sock_queue_code SockThread.memory_allocated_failed = 2

-- `decode_sock_queue_error`
unfoldable pub decode_sock_queue_error : ℕ → ErrorCode
decode_sock_queue_error code =
    if code == 0
    then no_error
    else if code == 2
    then memory_allocated_failed
    else if code == 1
    then exceed_recv_queue_count
    else undefined_error
