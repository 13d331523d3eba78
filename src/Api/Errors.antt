-- ===== src/Api/Errors.antt =====
-- What the tables that translate error codes promise: distinct errors stay distinct.
use si_daq_api.Base.{◌≡◌, ap, sym, ◌∙◌, refl}
use si_daq_api.Framer.{FramerErrorCode}
use si_daq_api.Framer
use si_daq_api.SockThread.{SockQueueErrorCode}
use si_daq_api.SockThread
use si_daq_api.Api.State.{
  ErrorCode, undefined_error, framer_code, decode_framer_error, sock_queue_code,
  decode_sock_queue_error,
}
use si_daq_api.Api.State

-- The framer's error that a code of the manager stands for.
abbrev framer_error_of : ErrorCode → FramerErrorCode
framer_error_of c = elim c [
  | State.no_error ↦ Framer.no_error
  | State.invalid_parameter ↦ Framer.invalid_parameter
  | State.memory_allocated_failed ↦ Framer.memory_allocated_failed
  | State.exceed_frame_queue_count ↦ Framer.exceed_frame_queue_count
  | State.get_frame_length_failed ↦ Framer.get_frame_length_failed
  | State.exceed_max_frame_length ↦ Framer.exceed_max_frame_length
  | State.framer_buf_size_error ↦ Framer.buf_size_error
  | State.exceed_recv_queue_count ↦ Framer.no_error
  | State.initial_connect_failed ↦ Framer.no_error
  | State.sitcp_read_error ↦ Framer.no_error
  | State.sitcp_write_error ↦ Framer.no_error
  | State.undefined_error ↦ Framer.no_error
  | State.winsock_error ↦ Framer.no_error
]

abbrev sock_queue_error_of : ErrorCode → SockQueueErrorCode
sock_queue_error_of c = elim c [
  | State.no_error ↦ SockThread.no_error
  | State.memory_allocated_failed ↦ SockThread.memory_allocated_failed
  | State.exceed_recv_queue_count ↦ SockThread.exceed_recv_queue_count
  | State.invalid_parameter ↦ SockThread.no_error
  | State.exceed_frame_queue_count ↦ SockThread.no_error
  | State.get_frame_length_failed ↦ SockThread.no_error
  | State.exceed_max_frame_length ↦ SockThread.no_error
  | State.framer_buf_size_error ↦ SockThread.no_error
  | State.initial_connect_failed ↦ SockThread.no_error
  | State.sitcp_read_error ↦ SockThread.no_error
  | State.sitcp_write_error ↦ SockThread.no_error
  | State.undefined_error ↦ SockThread.no_error
  | State.winsock_error ↦ SockThread.no_error
]

framer_error_of-decode :
    (c : FramerErrorCode) → framer_error_of (decode_framer_error (framer_code c)) ≡ c
unfolding framer_code decode_framer_error
framer_error_of-decode Framer.no_error = refl
framer_error_of-decode Framer.invalid_parameter = refl
framer_error_of-decode Framer.memory_allocated_failed = refl
framer_error_of-decode Framer.exceed_frame_queue_count = refl
framer_error_of-decode Framer.get_frame_length_failed = refl
framer_error_of-decode Framer.exceed_max_frame_length = refl
framer_error_of-decode Framer.buf_size_error = refl

sock_queue_error_of-decode :
    (c : SockQueueErrorCode) → sock_queue_error_of (decode_sock_queue_error (sock_queue_code c)) ≡ c
unfolding sock_queue_code decode_sock_queue_error
sock_queue_error_of-decode SockThread.no_error = refl
sock_queue_error_of-decode SockThread.exceed_recv_queue_count = refl
sock_queue_error_of-decode SockThread.memory_allocated_failed = refl

-- Two errors of the framer that the manager reports with one code are the same error, and so are
-- two errors of the receive queue.
pub decode_errors-injective :
    ((c d : FramerErrorCode)
      → decode_framer_error (framer_code c) ≡ decode_framer_error (framer_code d)
      → c ≡ d)
    × ((c d : SockQueueErrorCode)
        → decode_sock_queue_error (sock_queue_code c) ≡ decode_sock_queue_error (sock_queue_code d)
        → c ≡ d)
decode_errors-injective = (
  λ c d e. sym (framer_error_of-decode c) ∙ ap framer_error_of e ∙ framer_error_of-decode d,
  λ c d e.
      sym (sock_queue_error_of-decode c) ∙ ap sock_queue_error_of e ∙ sock_queue_error_of-decode d,
)
