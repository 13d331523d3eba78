-- ===== src/Examples/Dialog.antt =====
-- The dialog at its start, with a manager, and its receiving thread.
use si_daq_api.Base.{
  ℕ, zero, suc, ◌≡◌, refl, inl, inr, true, false, none, some, List, [], ◌∷◌, flatten, arith, done,
  fault, Returns, replicate,
}
use si_daq_api.Framer.{Framer}
use si_daq_api.Framer.Outcomes.{held}
use si_daq_api.Framer.Stream.{feed}
use si_daq_api.Rbcp.Device.{device_net}
use si_daq_api.Api.Control.{Winsock}
use si_daq_api.Api.Control.Transitions.{CanRun}
use si_daq_api.Api.Sound.{HasSound}
use si_daq_api.Api.Lifecycle.{Startup}
use si_daq_api.Sample.Controls.{gui_idle}
use si_daq_api.Sample.SitcpInfo.{
  SitcpInfo, create_sitcp_info, AllBytes, IsShown, create_sitcp_info-IsShown,
}
use si_daq_api.Sample.FixedMode.{IsFixedMode, settings, fixed_mode_frames}
use si_daq_api.Sample.Dialog.{
  Dialog, Fields, on_init_dialog, run_args, on_connect, on_run_stop, on_app_exit,
}
use si_daq_api.Sample.Dialog.Commands.{on_timer}
use si_daq_api.Sample.Dialog.Valid.{IsConnected}
use si_daq_api.Sample.Dialog.Window.{Message, connect}
use si_daq_api.Sample.Dialog.Dangling.{run_refused_dangles}
use si_daq_api.Sample.Dialog.Receiver.{Receiver, Pass}
use si_daq_api.Api.State.{run, idle}
use si_daq_api.Examples.Device.{reaching}
use si_daq_api.Examples.Manager.{fresh, refusing, one_user, low_byte}

abbrev startup : Startup
startup = record {
  allocated = true;
  list_allocated = true;
  wsa_failed = none;
  host = reaching;
  net = device_net low_byte;
}

abbrev first : Message
first = connect startup

abbrev connected_dialog : Dialog
connected_dialog = record (on_init_dialog one_user) {
  memory = some fresh ∷ [];
  mngr = some 0;
  gui = gui_idle;
}

fresh-HasSound : HasSound fresh
fresh-HasSound = record { client = record { size = refl; id_byte = omega arith } }

abbrev connection : IsConnected connected_dialog
connection = record {
  at_ = 0;
  mngr = fresh;
  pointer = refl;
  there = refl;
  sound = fresh-HasSound;
  lists = refl;
}

cannot_run : ¬ CanRun (run_args connected_dialog.fields) refusing
cannot_run can = elim can.connecting [ inl e ↦ cc | inr e ↦ cc ]

run_refused_dangles_example :
    Returns
      (λ d'.
        (d'.controls.button_run ≡ true)
        × (d'.controls.button_connect ≡ true)
        × ((w' : Winsock) → on_run_stop w' d' ≡ fault)
        × ((s : Startup) → on_connect s d' ≡ fault)
        × ((polls : List (ℕ × ℕ)) → on_timer polls d' ≡ fault)
        × (on_app_exit d' ≡ fault))
      (on_run_stop refusing connected_dialog)
unfolding on_init_dialog
run_refused_dangles_example =
    run_refused_dangles refusing connected_dialog connection refl cannot_run (λ k. cc)

replicate-AllBytes : (n : ℕ) → AllBytes (replicate n 7)
replicate-AllBytes zero = tt
replicate-AllBytes (suc n) = (omega arith, replicate-AllBytes n)

create_sitcp_info-IsShown_example :
    Returns
      (λ r. (info : SitcpInfo) × (r ≡ some info) × IsShown (replicate 64 7) info)
      (create_sitcp_info (some (replicate 64 7)))
create_sitcp_info-IsShown_example =
    create_sitcp_info-IsShown (replicate 64 7) (replicate-AllBytes 64) (omega arith)

abbrev receiver : Receiver
receiver = record {
  param = record {
    sidaq_mngr_ptr = some 0;
    receive_bytes = 0;
    write_file_flg = true;
    force_exit_flg = true;
  };
  mngr = record fresh { event_frame = (1 ∷ 2 ∷ []) ∷ [] };
  file = [];
}

-- A pass that takes an event while another comes in, one that takes that, and one that ends.
abbrev passes : List Pass
passes =
    record {
      force_exit_flg = true;
      status = run;
      recv_queue = (4 ∷ []) ∷ [];
      more = [];
      polls = λ i. (0, 0);
      later = (3 ∷ []) ∷ [];
    }
    ∷ record {
      force_exit_flg = true;
      status = idle;
      recv_queue = [];
      more = [];
      polls = λ i. (0, 0);
      later = [];
    }
    ∷ record {
      force_exit_flg = true;
      status = idle;
      recv_queue = [];
      more = [];
      polls = λ i. (0, 0);
      later = [];
    }
    ∷ []

abbrev fixed_fields : Fields
fixed_fields = record (on_init_dialog one_user).fields {
  run_mode = 2;
  header_len = 2;
  frame_len = 1;
  frame_limit_check = false;
}

fixed_fields-IsFixedMode : IsFixedMode fixed_fields
fixed_fields-IsFixedMode = record {
  mode = refl;
  header = omega arith;
  positive = omega arith;
  unlimited = refl;
  fits = omega arith;
}

abbrev three_pieces : List (List ℕ)
three_pieces = (1 ∷ 2 ∷ 3 ∷ []) ∷ (4 ∷ 5 ∷ 6 ∷ []) ∷ []

fixed_mode_frames_example :
    (f' : Framer) × (feed 0
        (settings fixed_fields fixed_fields-IsFixedMode)
        ((1 ∷ 2 ∷ 3 ∷ 4 ∷ []) ∷ (5 ∷ 6 ∷ []) ∷ [])
        []
      ≡ done (f', three_pieces))
    × (held f' ≡ [])
unfolding flatten run_args
fixed_mode_frames_example =
    fixed_mode_frames fixed_fields fixed_fields-IsFixedMode 0 three_pieces
      ((1 ∷ 2 ∷ 3 ∷ 4 ∷ []) ∷ (5 ∷ 6 ∷ []) ∷ []) (refl, (refl, tt)) (omega arith, (omega arith, tt))
      (omega arith, (omega arith, tt)) refl
