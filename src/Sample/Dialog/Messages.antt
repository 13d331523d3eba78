-- ===== src/Sample/Dialog/Messages.antt =====
-- The messages that the user, the timer and the window send to the dialog, and what they leave.
use si_daq_api.Base.{ℕ, ◌<◌, ◌≡◌, ◌≢◌, true, some, List, length, done}
use si_daq_api.Api.State.{Mngr, Process}
use si_daq_api.Api.Control.Transitions.{CanRun}
use si_daq_api.Api.Access.{rbcp_read_bytes}
use si_daq_api.Api.Lifecycle.{host_name_max}
use si_daq_api.Api.Starts.{CanConnect}
use si_daq_api.Sample.SitcpInfo.{AllBytes}
use si_daq_api.Sample.Dialog.{Dialog, ended, on_init_dialog, run_args, deref}
use si_daq_api.Sample.Dialog.Window.{
  shown, App, Message, connect, run_stop, timer, rbcp_read, rbcp_write, reset, run_mode,
  exit_button, close, cancel, destroy, thread_ends, handle, enabled,
}

-- The socket library lets the register client connect and the address fits; `SiDaqRun` has what
-- it needs; an answer of the device consists of bytes; the object of the thread that a run or the
-- exit waits for is not gone.
unfoldable pub IsAnswered : Message → Dialog → Type 0
IsAnswered (connect s) d =
    CanConnect s d.fields.ip_address 4660 × (length d.fields.ip_address < host_name_max)
IsAnswered (run_stop w) d = CanRun (run_args d.fields) w × (d.winthread ≢ ended)
IsAnswered (timer polls) d = Unit {0}
IsAnswered (rbcp_read net) d =
    (m : Mngr) (bytes : List ℕ)
    → deref d.memory d.mngr ≡ done m
    → (rbcp_read_bytes net 0xffffff00 64 m).0 ≡ some bytes
    → AllBytes bytes
IsAnswered (rbcp_write net) d = Unit {0}
IsAnswered reset d = Unit {0}
IsAnswered (run_mode index) d = Unit {0}
IsAnswered exit_button d = d.winthread ≢ ended
IsAnswered close d = d.winthread ≢ ended
IsAnswered cancel d = Unit {0}
IsAnswered destroy d = Unit {0}
IsAnswered thread_ends d = Unit {0}

-- Any number of messages, each sent while it can be, and handled.
pub data Session (a : App) : App → Type 0 where
  opened : Session a a
  sends :
      {a' a'' : App}
      → Session a a'
      → (message : Message) → enabled message a' ≡ true
      → IsAnswered message a'.1
      → handle message a' ≡ done a''
      → Session a a''

-- The dialog as it is first shown.
abbrev pub start : Process → App
start p = (shown, on_init_dialog p)
