-- ===== src/Sample/Dialog/Window.antt =====
-- The messages of the dialog of MfcSample/SiDaqMfcSampleDlg.cpp, and how its window ends.
use si_daq_api.Base.{ℕ, Bool, true, false, List, Outcome, done, ◌>>=◌}
use si_daq_api.Rbcp.{Net}
use si_daq_api.Api.Control.{Winsock}
use si_daq_api.Api.Lifecycle.{Startup}
use si_daq_api.Sample.Dialog.{
  Dialog, Winthread, no_thread, alive, ended, on_connect, on_run_stop, on_app_exit, on_destroy,
}
use si_daq_api.Sample.Dialog.Commands.{on_timer, on_rbcp_read, on_rbcp_write, on_reset, on_run_mode}

-- The window: a dialog that is closing gets no message but the last, `WM_DESTROY`.
pub data Window : Type 0 where
  shown : Window
  closing : Window
  gone : Window

abbrev pub App : Type 0
App = Window × Dialog

-- A message, with what the system answers to its handler. No control or menu of the resources sends
-- `ID_APP_EXIT`; `thread_ends` is the receiving thread's end, when its object is deleted.
pub data Message : Type 0 where
  connect : Startup → Message
  run_stop : Winsock → Message
  timer : List (ℕ × ℕ) → Message
  rbcp_read : Net → Message
  rbcp_write : Net → Message
  reset : Message
  run_mode : ℕ → Message
  exit_button : Message
  close : Message
  cancel : Message
  destroy : Message
  thread_ends : Message

-- A handler that leaves the window as it is.
abbrev pub within : Window → Outcome Dialog → Outcome App
within w o = o >>= λ d. done (w, d)

-- `OnBnClickedOk` and `WindowProc` for `WM_CLOSE` call `OnAppExit`; the escape key closes the dialog
-- without it.
unfoldable pub handle : Message → App → Outcome App
handle (connect s) (w, d) = within w (on_connect s d)
handle (run_stop ws) (w, d) = within w (on_run_stop ws d)
handle (timer polls) (w, d) = within w (on_timer polls d)
handle (rbcp_read net) (w, d) = within w (on_rbcp_read net d)
handle (rbcp_write net) (w, d) = within w (on_rbcp_write net d)
handle reset (w, d) = within w (on_reset d)
handle (run_mode index) (w, d) = within w (on_run_mode index d)
handle exit_button (w, d) = within closing (on_app_exit d)
handle close (w, d) = within closing (on_app_exit d)
handle cancel (w, d) = done (closing, d)
handle destroy (w, d) = within gone (on_destroy d)
handle thread_ends (w, d) = done (w, record d { winthread = ended })

unfoldable pub is_alive : Winthread → Bool
is_alive no_thread = false
is_alive alive = true
is_alive ended = false

-- In the window: a button sends its message only while it is enabled, and the timer only while it is
-- set. The exit button is always enabled.
unfoldable pub enabled_in : Message → Dialog → Bool
enabled_in (connect s) d = d.controls.button_connect
enabled_in (run_stop w) d = d.controls.button_run
enabled_in (timer polls) d = d.timer
enabled_in (rbcp_read net) d = d.controls.button_rbcp_read
enabled_in (rbcp_write net) d = d.controls.button_rbcp_write
enabled_in reset d = d.controls.button_reset
enabled_in (run_mode index) d = d.controls.combo_run_mode
enabled_in exit_button d = true
enabled_in close d = true
enabled_in cancel d = true
enabled_in destroy d = false
enabled_in thread_ends d = is_alive d.winthread

unfoldable pub enabled_closing : Message → Dialog → Bool
enabled_closing destroy d = true
enabled_closing thread_ends d = is_alive d.winthread
enabled_closing (connect s) d = false
enabled_closing (run_stop w) d = false
enabled_closing (timer polls) d = false
enabled_closing (rbcp_read net) d = false
enabled_closing (rbcp_write net) d = false
enabled_closing reset d = false
enabled_closing (run_mode index) d = false
enabled_closing exit_button d = false
enabled_closing close d = false
enabled_closing cancel d = false

unfoldable pub enabled : Message → App → Bool
unfolding enabled_closing
enabled message (shown, d) = enabled_in message d
enabled message (closing, d) = enabled_closing message d
enabled message (gone, d) = false
