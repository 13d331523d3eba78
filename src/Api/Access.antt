-- ===== src/Api/Access.antt =====
-- The functions of SiDaqApi/SiDaqApi.cpp that read the manager, take data, or go to the device's
-- registers. A NULL manager is `none`.
use Prim.Native.String.{String}
use si_daq_api.Base.{
  if◌then◌else◌, Outcome, done, fault, ℕ, Bool, true, false, Option, none, some, List, [], ◌∷◌,
  ◌++◌, drop, length,
}
use si_daq_api.Rbcp.{Rbcp, Net, RbcpException, returned, thrown, what, read_bytes, write_bytes}
use si_daq_api.SockThread.{WsaError}
use si_daq_api.Api.State.{
  Status, idle, stopping, reset, run, sys_error, mngr_invalid, sitcp_write_error, Mngr,
  set_sidaq_error,
}

-- `SiDaqGetData` where nobody waits: the oldest event.
unfoldable pub get_data : Mngr → Option (List ℕ) × Mngr
get_data m = elim m.event_frame [
  | [] ↦ (none, m)
  | frame ∷ frames ↦ (some frame, record m { event_frame = frames })
]

-- `SiDaqGetDataCount`, which reads the count through the pointer to the list of queues.
unfoldable pub get_data_count : Option Mngr → Outcome ℕ
get_data_count none = done 0
get_data_count (some m) = if m.queues then done (length m.recv_queue) else fault

-- `SiDaqGetFrameDataCount`
unfoldable pub get_frame_data_count : Option Mngr → Outcome ℕ
get_frame_data_count none = done 0
get_frame_data_count (some m) = if m.queues then done (length m.event_frame) else fault

-- `SiDaqErrorMessage`
unfoldable pub error_message_of : Mngr → String
error_message_of m = m.error_message

-- `SiDaqGetSocketErrorCode`; `none` is 0.
unfoldable pub get_socket_error_code : Option Mngr → Option WsaError
get_socket_error_code none = none
get_socket_error_code (some m) = m.sock_param.last_error

-- `SiDaqGetStatus`
unfoldable pub get_status : Option Mngr → Status
get_status none = mngr_invalid
get_status (some m) = m.status

-- `_g_status_name` after `initialize_status_message`; a missing key gives the empty text.
status_name : Status → String
status_name idle = "Idle"
status_name stopping = "Stopping"
status_name reset = "Reset"
status_name run = "Running"
status_name sys_error = "System Error"
status_name mngr_invalid = ""

-- `SiDaqStatusText`
unfoldable pub status_text : Option Mngr → String
unfolding status_name get_status
status_text m = status_name (get_status m)

-- `catch (SiTcpRbcpException e)`: both functions record a write error.
caught : RbcpException → Rbcp → Mngr → Mngr
caught e r m = set_sidaq_error (record m { sitcp = some r }) sitcp_write_error (what e) none

-- The register buffer with `bytes` at its head.
store_register : List ℕ → Rbcp → Mngr → Mngr
store_register bytes r m = record m {
  sitcp = some r;
  sitcp_register = bytes ++ drop (length bytes) m.sitcp_register;
}

-- `SiDaqRbcpReadBytes`
unfoldable pub rbcp_read_bytes : Net → ℕ → ℕ → Mngr → Option (List ℕ) × Mngr
unfolding caught store_register
rbcp_read_bytes net addr len m = elim m.sitcp [
  | none ↦ (none, m)
  | some r ↦ elim (read_bytes net addr len r) [
    | returned bytes r' ↦ (some bytes, store_register bytes r' m)
    | thrown e r' ↦ (none, caught e r' m)
  ]
]

-- `SiDaqRbcpWriteBytes`: whether it answers 0.
unfoldable pub rbcp_write_bytes : Net → List ℕ → ℕ → ℕ → Mngr → Bool × Mngr
unfolding caught
rbcp_write_bytes net buffer addr len m = elim m.sitcp [
  | none ↦ (false, m)
  | some r ↦ elim (write_bytes net buffer addr len r) [
    | returned _ r' ↦ (true, record m { sitcp = some r' })
    | thrown e r' ↦ (false, caught e r' m)
  ]
]
