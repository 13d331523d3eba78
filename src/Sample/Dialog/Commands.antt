-- ===== src/Sample/Dialog/Commands.antt =====
-- The dialog's timer, and the handlers of its other buttons.
use si_daq_api.Base.{
  ℕ, Bool, true, false, ◌&&◌, Option, none, some, List, [], ◌∷◌, Outcome, done, ◌>>=◌, ◌==◌,
  if◌then◌else◌,
}
use si_daq_api.Rbcp.{Net}
use si_daq_api.Api.State.{Mngr}
use si_daq_api.Api.Control.{reset_queue}
use si_daq_api.Api.Access.{rbcp_read_bytes, rbcp_write_bytes}
use si_daq_api.Sample.Controls.{
  GuiStatus, no_connection, gui_idle, gui_running, gui_stopping, frame_control_initialize,
}
use si_daq_api.Sample.SitcpInfo.{create_sitcp_info}
use si_daq_api.Sample.Dialog.{
  Dialog, text, sitcp_info, store, deref, add_opelog, update_controls, show_status, show_counts,
  is_sys_error,
}

-- The manager that a call has changed, back at its place.
abbrev pub store_at : Option ℕ → Mngr → List (Option Mngr) → List (Option Mngr)
store_at none m memory = memory
store_at (some at_) m memory = store memory at_ (some m)

abbrev pub stored : Mngr → Dialog → Dialog
stored m d = record d { memory = store_at d.mngr m d.memory }

-- Both counts are 0 in each of the polls; the loop ends with the first that is not.
pub all_empty : List (ℕ × ℕ) → Bool
all_empty [] = true
all_empty ((recv_count, frame_count) ∷ polls) =
    if (recv_count == 0) && (frame_count == 0) then all_empty polls else false

-- A running dialog whose manager has an error is stopping.
unfoldable pub force_stopping : GuiStatus → Mngr → Dialog → Dialog
force_stopping gui_running m d =
    if is_sys_error m.status
    then add_opelog (text "Force Stopping…") (update_controls (record d { gui = gui_stopping }))
    else d
force_stopping no_connection m d = d
force_stopping gui_idle m d = d
force_stopping gui_stopping m d = d

-- A stopping dialog is idle once both queues have been empty for long.
unfoldable pub stop_ends : GuiStatus → Bool → Dialog → Dialog
stop_ends gui_stopping empty d =
    if empty
    then add_opelog (text "Run Stop") (update_controls (record d { gui = gui_idle }))
    else d
stop_ends no_connection empty d = d
stop_ends gui_idle empty d = d
stop_ends gui_running empty d = d

-- `OnTimer`, for the dialog's own timer; `polls` are the ten pairs of counts that are read while
-- the handler waits. The timer is set again at the end.
unfoldable pub on_timer : List (ℕ × ℕ) → Dialog → Outcome Dialog
on_timer polls d = deref d.memory d.mngr >>= λ m. show_counts m (show_status m d) >>= λ d₀.
    let d₁ = force_stopping d.gui m d₀ in
    let empty = (d₁.receive == 0) && (d₁.event == 0) && all_empty polls in
    done (record (stop_ends d₁.gui empty d₁) { timer = true })

-- `OnBnClickedButtonRbcpRead`
unfoldable pub on_rbcp_read : Net → Dialog → Outcome Dialog
on_rbcp_read net d = deref d.memory d.mngr >>= λ m.
    let r = rbcp_read_bytes net 0xffffff00 64 m in
    create_sitcp_info r.0 >>= λ info. done (add_opelog (sitcp_info info) (stored r.1 d))

-- `OnBnClickedButtonRbcpWrite`
unfoldable pub on_rbcp_write : Net → Dialog → Outcome Dialog
on_rbcp_write net d = deref d.memory d.mngr >>= λ m.
    let r = rbcp_write_bytes net (0x80 ∷ []) 0xffffff10 1 m in
    done (
      add_opelog (text (if r.0 then "RBCP Write Success. SiTCP Reset" else "RBCP Write Failed"))
        (stored r.1 d))

-- `OnBnClickedButtonReset`
unfoldable pub on_reset : Dialog → Outcome Dialog
on_reset d = deref d.memory d.mngr >>= λ m. reset_queue m >>= λ m'. done (
    add_opelog (text "Reset Queue Data Finish")
      (stored m' (add_opelog (text "Reset Queue Data…") d)))

-- `OnCbnSelchangeComboRunMode`, which puts the controls of the new mode in place.
unfoldable pub on_run_mode : ℕ → Dialog → Outcome Dialog
on_run_mode index d = done (record d {
  fields = record d.fields { run_mode = index };
  controls = frame_control_initialize index d.controls;
})
