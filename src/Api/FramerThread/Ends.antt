-- ===== src/Api/FramerThread/Ends.antt =====
-- The end of the framer thread, and what `SiDaqStop` leaves as it is.
use si_daq_api.Base.{◌≡◌, ◌⊎◌, some, arith, done}
use si_daq_api.Framer.{Framer}
use si_daq_api.Api.State.{idle, Mngr}
use si_daq_api.Api.Control.{close_device, sidaq_stop}
use si_daq_api.Api.FramerThread.{framer_end}

-- The managers that differ in the status and the connection alone.
pub record KeepsData (m m' : Mngr) : Type 0 where
  pub framer_same : m'.framer ≡ m.framer
  pub recv_queue_same : m'.recv_queue ≡ m.recv_queue
  pub events_same : m'.event_frame ≡ m.event_frame
  pub index_same : m'.squeue_index ≡ m.squeue_index
  pub buffer_same : m'.sock_param.recv_buf_size ≡ m.sock_param.recv_buf_size

pub sidaq_stop-KeepsData : (m : Mngr) → KeepsData m (sidaq_stop m).1
unfolding sidaq_stop close_device
sidaq_stop-KeepsData m = record {
  framer_same = ground arith;
  recv_queue_same = ground arith;
  events_same = ground arith;
  index_same = ground arith;
  buffer_same = ground arith;
}

pub framer_end-cases :
    (f : Framer) (m : Mngr)
    → m.framer ≡ some f
    → (framer_end m ≡ done (sidaq_stop m).1)
      ⊎ ((framer_end m ≡ done m) ⊎ (framer_end m ≡ done (record m { status = idle })))
unfolding framer_end
framer_end-cases f m e = ground (arith, e)
