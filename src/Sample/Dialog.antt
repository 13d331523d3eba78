-- ===== src/Sample/Dialog.antt =====
-- The state of the dialog and the handlers of its messages. Managers live in a memory, so that a
-- pointer to one that was freed is told from NULL: its use is a fault, as is the use of NULL. An
-- exception that leaves a handler stops the process, and is a fault too. What the system, winsock
-- and the device answer is an argument. The clock, the rate and the names of files are left out.
pub mod Commands
pub mod Receiver
pub mod Valid
pub mod Receives
pub mod Connects
pub mod Presses
pub mod Uses
pub mod Window
pub mod Messages
pub mod Dangling
pub mod Ends
pub mod Takes
pub mod Passes
pub mod Usable
use Prim.Native.String.{String}
use si_daq_api.Base.{
  ℕ, zero, suc, ◌+◌, ◌*◌, Bool, true, false, not, ◌&&◌, ◌||◌, Option, none, some, List, [], ◌∷◌,
  ◌++◌, Outcome, done, fault, ◌>>=◌, ◌==◌, if◌then◌else◌, length, get_or, take,
}
use si_daq_api.Framer.{LengthFunc, default_max_frame_len}
use si_daq_api.SockThread.{WsaError}
use si_daq_api.Rbcp.{Net}
use si_daq_api.Api.State.{
  Status, idle, stopping, reset, run, sys_error, mngr_invalid, Mngr, Process,
}
use si_daq_api.Api.Control.{RunArgs, Winsock, sidaq_run, sidaq_stop, reset_queue}
use si_daq_api.Api.Access.{
  get_data_count, get_frame_data_count, error_message_of, status_text, rbcp_read_bytes,
  rbcp_write_bytes,
}
use si_daq_api.Api.Lifecycle.{
  Startup, Initialized, null, manager, escaped, sidaq_initialize, sidaq_terminate,
}
use si_daq_api.Sample.Controls.{
  GuiStatus, no_connection, gui_idle, gui_running, gui_stopping, Controls, frame_control_initialize,
  update_gui_control_status,
}
use si_daq_api.Sample.FrameLength.{length_of}
use si_daq_api.Sample.SitcpInfo.{SitcpInfo, create_sitcp_info}

-- What the user has put into the dialog; the run mode is an index.
pub record Fields : Type 0 where
  pub ip_address : List ℕ
  pub tcp_port : ℕ
  pub run_mode : ℕ
  pub header_len : ℕ
  pub frame_len : ℕ
  pub recv_limit_check : Bool
  pub recv_limit_count : ℕ
  pub frame_limit_check : Bool
  pub frame_limit_count : ℕ
  pub write_file_check : Bool

-- `struct SiDaqThreadParam`
pub record ThreadParam : Type 0 where
  pub sidaq_mngr_ptr : Option ℕ
  pub receive_bytes : ℕ
  pub write_file_flg : Bool
  pub force_exit_flg : Bool

-- `m_winthread_ptr`: NULL, or the object of a thread that runs, or of one that has ended, which MFC
-- has deleted then.
pub data Winthread : Type 0 where
  no_thread : Winthread
  alive : Winthread
  ended : Winthread

-- A line of the operation log.
pub data Entry : Type 0 where
  text : String → Entry
  sitcp_info : Option SitcpInfo → Entry

-- `CSiDaqMfcSampleDlg`, the memory that the library allocates managers in, and the count of
-- winsock's users. `winthread` is `m_winthread_ptr`.
pub record Dialog : Type 0 where
  pub memory : List (Option Mngr)
  pub process : Process
  pub mngr : Option ℕ
  pub gui : GuiStatus
  pub controls : Controls
  pub fields : Fields
  pub timer : Bool
  pub winthread : Winthread
  pub param : ThreadParam
  pub status : String
  pub error : String
  pub receive : ℕ
  pub event : ℕ
  pub log : List Entry

abbrev pub store : List (Option Mngr) → ℕ → Option Mngr → List (Option Mngr)
store [] at_ m = []
store (x ∷ memory) zero m = m ∷ memory
store (x ∷ memory) (suc at_) m = x ∷ store memory at_ m

-- The constructor and `OnInitDialog`. "localhost" is its bytes; the thread's parameters that are
-- not set yet are NULL, 0 and false.
unfoldable pub on_init_dialog : Process → Dialog
on_init_dialog p = record {
  memory = [];
  process = p;
  mngr = none;
  gui = no_connection;
  controls = update_gui_control_status no_connection 0;
  fields = record {
    ip_address = 108 ∷ 111 ∷ 99 ∷ 97 ∷ 108 ∷ 104 ∷ 111 ∷ 115 ∷ 116 ∷ [];
    tcp_port = 24242;
    run_mode = 0;
    header_len = 2;
    frame_len = 10000;
    recv_limit_check = true;
    recv_limit_count = 5000;
    frame_limit_check = true;
    frame_limit_count = 10000;
    write_file_check = false;
  };
  timer = false;
  winthread = no_thread;
  param = record {
    sidaq_mngr_ptr = none;
    receive_bytes = 0;
    write_file_flg = false;
    force_exit_flg = true;
  };
  status = "";
  error = "";
  receive = 0;
  event = 0;
  log = text "System Start" ∷ [];
}

-- The manager at a pointer.
unfoldable pub deref : List (Option Mngr) → Option ℕ → Outcome Mngr
deref memory none = fault
deref memory (some at_) = elim (get_or memory at_ none) [ none ↦ fault | some m ↦ done m ]

abbrev pub add_opelog : Entry → Dialog → Dialog
add_opelog entry d = record d { log = d.log ++ entry ∷ [] }

abbrev pub update_controls : Dialog → Dialog
update_controls d = record d { controls = update_gui_control_status d.gui d.fields.run_mode }

-- `SiDaqTerminate(m_pSiDaqMngr, FALSE)`; NULL does nothing.
unfoldable pub terminate : Option ℕ → Dialog → Outcome Dialog
terminate none d = done d
terminate (some at_) d = deref d.memory (some at_) >>= λ m. done (record d {
  memory = store d.memory at_ none;
  process = (sidaq_terminate (some m) false d.process).1;
})

-- `SetDlgItemText` of the status and the error.
abbrev pub show_status : Mngr → Dialog → Dialog
show_status m d = record d { status = status_text (some m); error = error_message_of m }

-- `SetDlgItemText` of both counts.
unfoldable pub show_counts : Mngr → Dialog → Outcome Dialog
show_counts m d = get_data_count (some m) >>= λ recv_count.
    get_frame_data_count (some m) >>= λ frame_count.
    done (record d { receive = recv_count; event = frame_count })

unfoldable pub is_sys_error : Status → Bool
is_sys_error sys_error = true
is_sys_error idle = false
is_sys_error stopping = false
is_sys_error reset = false
is_sys_error run = false
is_sys_error mngr_invalid = false

unfoldable pub is_idle : GuiStatus → Bool
is_idle gui_idle = true
is_idle no_connection = false
is_idle gui_running = false
is_idle gui_stopping = false

-- Behind the call of `SiDaqInitialize` in `OnBnClickedButtonConnect`.
unfoldable pub connected : Initialized → Dialog → Outcome Dialog
connected null d = done d
connected escaped d = fault
connected (manager m) d =
    let at_ = length d.memory in
    let d₁ = record d { memory = d.memory ++ some m ∷ [] } in
    if is_sys_error m.status
    then (terminate (some at_) (show_status m d₁) >>= λ d₂.
        done
          (add_opelog (text "Connection Failed") (record d₂ { gui = no_connection; mngr = none })))
    else done (
        add_opelog (text "Connection Start")
          (record d₁ { gui = gui_idle; mngr = some at_; timer = true }))

-- NULL: a new manager; otherwise the old one is given back.
unfoldable pub switch_connection : Startup → Option ℕ → Dialog → Outcome Dialog
switch_connection s none d =
    sidaq_initialize (some d.fields.ip_address) d.fields.tcp_port 4660 false s d.process >>= λ r.
    connected r.0 (record d { process = r.1 })
switch_connection s (some at_) d = terminate (some at_) d >>= λ d₁. done (
    add_opelog (text "Connection End")
      (record d₁ { gui = no_connection; mngr = none; timer = false }))

-- `OnBnClickedButtonConnect`
unfoldable pub on_connect : Startup → Dialog → Outcome Dialog
on_connect s d =
    switch_connection s d.mngr
      (record d { controls = record d.controls { button_connect = false } })
    >>= λ d₁. done (update_controls d₁)

-- `OnDestroy`
unfoldable pub on_destroy : Dialog → Outcome Dialog
on_destroy d = terminate d.mngr d

-- The wait for the receiving thread, which reads the handle in its object. The passes that it still
-- makes stand before the handler.
unfoldable pub join_thread : Dialog → Outcome Dialog
join_thread d = elim d.winthread [
  | no_thread ↦ done d
  | alive ↦
      done (record d { winthread = no_thread; param = record d.param { force_exit_flg = false } })
  | ended ↦ fault
]

-- `OnAppExit`
unfoldable pub on_app_exit : Dialog → Outcome Dialog
on_app_exit d =
    join_thread d >>= λ d₁. terminate d₁.mngr d₁ >>= λ d₂. done (record d₂ { mngr = none })

-- The arguments of `SiDaqRun` for the fields; the buffer and the frames have the library's sizes.
unfoldable pub run_args : Fields → RunArgs
run_args f = record {
  length_func = if f.run_mode == 1 then some length_of else none;
  header_len = if (f.run_mode == 1) || (f.run_mode == 2) then f.header_len else 0;
  fixed_frame_len = if f.run_mode == 2 then f.frame_len else 0;
  rcv_buf_bytes = 100 * 1024 * 1024;
  recv_queue_limit = if f.recv_limit_check then f.recv_limit_count else 0;
  frame_queue_limit = if f.frame_limit_check then f.frame_limit_count else 0;
  max_recv_buff = 65536 * 4;
  max_frame_len = default_max_frame_len;
}

-- `SiDaqRun` has failed: the manager is given back, and the pointer to it stays.
unfoldable pub run_refused : ℕ → Mngr → Dialog → Outcome Dialog
run_refused at_ m d = terminate (some at_) (show_status m d) >>= λ d₁.
    done (update_controls (add_opelog (text "Run Failed") (record d₁ { gui = gui_idle })))

-- The receiving thread begins.
unfoldable pub run_begun : ℕ → Dialog → Dialog
run_begun at_ d = add_opelog (text "Run Start") (
    update_controls (record d {
      gui = gui_running;
      winthread = alive;
      param = record {
        sidaq_mngr_ptr = some at_;
        receive_bytes = 0;
        write_file_flg = d.fields.write_file_check;
        force_exit_flg = true;
      };
    }))

-- Behind the call of `SiDaqRun`, for the status that it answers.
unfoldable pub run_done : Status → ℕ → Mngr → Dialog → Outcome Dialog
run_done run at_ m d = done (run_begun at_ d)
run_done idle at_ m d = run_refused at_ m d
run_done stopping at_ m d = run_refused at_ m d
run_done reset at_ m d = run_refused at_ m d
run_done sys_error at_ m d = run_refused at_ m d
run_done mngr_invalid at_ m d = run_refused at_ m d

unfoldable pub start_run : Winsock → ℕ → Mngr → Dialog → Outcome Dialog
start_run w at_ m d = join_thread d >>= λ d₁.
    let r = sidaq_run (run_args d.fields) w m d.process in
    run_done (r.0).status at_ r.0
      (record d₁ { memory = store d₁.memory at_ (some r.0); process = r.1 })

unfoldable pub stop_run : ℕ → Mngr → Dialog → Outcome Dialog
stop_run at_ m d =
    let m' = (sidaq_stop m).1 in
    show_counts m' (
      update_controls (
        add_opelog (text "Run Stopping…")
          (record d { memory = store d.memory at_ (some m'); gui = gui_stopping })))

-- The switch on the manager's status.
unfoldable pub press_run : Status → Winsock → ℕ → Mngr → Dialog → Outcome Dialog
press_run sys_error w at_ m d = if is_idle d.gui then start_run w at_ m d else done d
press_run idle w at_ m d = start_run w at_ m d
press_run run w at_ m d = stop_run at_ m d
press_run stopping w at_ m d = done d
press_run reset w at_ m d = done d
press_run mngr_invalid w at_ m d = done d

unfoldable pub press_run_at : Option ℕ → Winsock → Dialog → Outcome Dialog
press_run_at none w d = done d
press_run_at (some at_) w d = deref d.memory (some at_) >>= λ m. press_run m.status w at_ m d

-- `OnBnClickedButtonRunStop`
unfoldable pub on_run_stop : Winsock → Dialog → Outcome Dialog
on_run_stop w d =
    press_run_at d.mngr w
      (record d { controls = record d.controls { button_run = false; button_connect = false } })
