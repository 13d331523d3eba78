-- ===== src/Api/Gets.antt =====
-- `SiDaqGetData` by the events that wait, and a pause that is taken back.
use si_daq_api.Base.{ℕ, ◌≡◌, none, some, List, [], ◌∷◌, arith}
use si_daq_api.Api.State.{Packets, Mngr}
use si_daq_api.Api.Control.{pause_recv_data, resume_recv_data}
use si_daq_api.Api.Access.{get_data}

pub get_data-none : (m : Mngr) → m.event_frame ≡ [] → get_data m ≡ (none, m)
unfolding get_data
get_data-none m e = ground arith

pub get_data-some :
    (m : Mngr) (event : List ℕ) (events : Packets)
    → m.event_frame ≡ event ∷ events
    → get_data m ≡ (some event, record m { event_frame = events })
unfolding get_data
get_data-some m event events e = ground arith

-- Neither touches the events.
pub resume-pause_events :
    (m : Mngr) → (resume_recv_data (pause_recv_data m)).event_frame ≡ m.event_frame
unfolding pause_recv_data resume_recv_data
resume-pause_events m = ground arith
