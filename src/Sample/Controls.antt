-- ===== src/Sample/Controls.antt =====
-- The controls of the dialog of MfcSample/SiDaqMfcSampleDlg.cpp: which are enabled, and what the two
-- buttons with a changing text say.
use Prim.Native.String.{String}
use si_daq_api.Base.{ℕ, Bool, true, false, ◌==◌, if◌then◌else◌}

-- `GUIStatus`
pub data GuiStatus : Type 0 where
  no_connection : GuiStatus
  gui_idle : GuiStatus
  gui_running : GuiStatus
  gui_stopping : GuiStatus

-- `EnableWindow` of each control, by its identifier without `IDC_`, and the texts of the buttons.
pub record Controls : Type 0 where
  pub ip_address : Bool
  pub tcp_port : Bool
  pub udp_port : Bool
  pub connect_text : String
  pub run_text : String
  pub button_connect : Bool
  pub button_run : Bool
  pub combo_run_mode : Bool
  pub header_len : Bool
  pub frame_len : Bool
  pub recv_limit_check : Bool
  pub frame_limit_check : Bool
  pub recv_limit_count : Bool
  pub frame_limit_count : Bool
  pub write_file_check : Bool
  pub button_file_browse : Bool
  pub button_rbcp_read : Bool
  pub button_rbcp_write : Bool
  pub button_reset : Bool

-- `FrameControlInitialize`, for the index of the run mode: NULL, header, fixed.
unfoldable pub frame_control_initialize : ℕ → Controls → Controls
frame_control_initialize index c =
    if index == 1
    then record c { header_len = true; frame_len = false }
    else if index == 2
    then record c { header_len = false; frame_len = true }
    else record c { header_len = false; frame_len = false }

abbrev without_connection : Controls
without_connection = record {
  ip_address = true;
  tcp_port = true;
  udp_port = true;
  connect_text = "Connect";
  run_text = "Run";
  button_connect = true;
  button_run = false;
  combo_run_mode = false;
  header_len = false;
  frame_len = false;
  recv_limit_check = false;
  frame_limit_check = false;
  recv_limit_count = false;
  frame_limit_count = false;
  write_file_check = false;
  button_file_browse = false;
  button_rbcp_read = false;
  button_rbcp_write = false;
  button_reset = false;
}

-- `UpdateGUIControlStatus`, for the status and the index of the run mode. Every case sets every
-- control.
unfoldable pub update_gui_control_status : GuiStatus → ℕ → Controls
unfolding frame_control_initialize
update_gui_control_status no_connection index = without_connection
update_gui_control_status gui_idle index = frame_control_initialize index (record {
  ip_address = false;
  tcp_port = false;
  udp_port = false;
  connect_text = "Disconnect";
  run_text = "Run";
  button_connect = true;
  button_run = true;
  combo_run_mode = true;
  header_len = false;
  frame_len = false;
  recv_limit_check = true;
  frame_limit_check = true;
  recv_limit_count = true;
  frame_limit_count = true;
  write_file_check = true;
  button_file_browse = true;
  button_rbcp_read = true;
  button_rbcp_write = true;
  button_reset = false;
})
update_gui_control_status gui_running index = record {
  ip_address = false;
  tcp_port = false;
  udp_port = false;
  connect_text = "Disconnect";
  run_text = "Stop";
  button_connect = false;
  button_run = true;
  combo_run_mode = false;
  header_len = false;
  frame_len = false;
  recv_limit_check = false;
  frame_limit_check = false;
  recv_limit_count = false;
  frame_limit_count = false;
  write_file_check = false;
  button_file_browse = false;
  button_rbcp_read = false;
  button_rbcp_write = false;
  button_reset = false;
}
update_gui_control_status gui_stopping index = record {
  ip_address = false;
  tcp_port = false;
  udp_port = false;
  connect_text = "Disconnect";
  run_text = "Stop";
  button_connect = false;
  button_run = false;
  combo_run_mode = false;
  header_len = false;
  frame_len = false;
  recv_limit_check = false;
  frame_limit_check = false;
  recv_limit_count = false;
  frame_limit_count = false;
  write_file_check = false;
  button_file_browse = false;
  button_rbcp_read = false;
  button_rbcp_write = false;
  button_reset = true;
}
