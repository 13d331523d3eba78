-- ===== src/Examples/Queues.antt =====
-- A queue of two entries in a memory of seven addresses, an empty one, and a receiving thread.
use si_daq_api.Base.{
  ◌>>=◌, flatten, ◌+◌, ◌%◌, length, false, ℕ, ◌≡◌, refl, ◌^◌, true, false, none, some, List, [],
  ◌∷◌, arith, done, Returns, if◌then◌else◌, ◌==◌,
}
use si_daq_api.Framer.{list_put}
use si_daq_api.Squeue.{sq_put, sq_get, drain}
use si_daq_api.Squeue.Memory.{null, Heap}
use si_daq_api.Squeue.Chain.{Cell, IsQueue, sq_data}
use si_daq_api.Squeue.Put.{Stored, sq_put-Stored}
use si_daq_api.Squeue.Get.{Taken, sq_get-Taken}
use si_daq_api.Squeue.Fifo.{put_all, get_all, get_all-put_all}
use si_daq_api.Squeue.Drain.{drain-empties}
use si_daq_api.Squeue.Iterate.{read_all, read_all-payloads}
use si_daq_api.SockThread.{
  WsaError, would_block, SockParam, Received, bytes, closed, failed, Pass, Thread, recv_passes,
}
use si_daq_api.SockThread
use si_daq_api.SockThread.Counts.{recv_passes-rx_bytes}
use si_daq_api.SockThread.Laws.{all_offered, PassesOk, recv_passes_quiet, recv_passes-PassesOk}

abbrev first_cell : Cell
first_cell = record { node = 3; block = 4; bytes = 10 ∷ 11 ∷ [] }

abbrev second_cell : Cell
second_cell = record { node = 5; block = 6; bytes = 12 ∷ [] }

abbrev two_entries : Heap
two_entries = record {
  queues = λ a. if a == 1 then some (record { top = 3; last = 5; lock = 2; count = 2 }) else none;
  nodes = λ a.
      if a == 3
      then some (sq_data 1 first_cell 5 null)
      else if a == 5
      then some (sq_data 1 second_cell null 3)
      else none;
  blocks = λ a. if a == 4 then some (10 ∷ 11 ∷ []) else if a == 6 then some (12 ∷ []) else none;
  brk = 7;
  budget = 4;
}

two_entries-IsQueue : IsQueue two_entries 1 (first_cell ∷ second_cell ∷ [])
two_entries-IsQueue = record {
  real = omega arith;
  brk_pos = omega arith;
  lock = 2;
  holds = refl;
  small = omega arith;
  chain = (
    record {
      above = omega arith;
      used = omega arith;
      block_used = omega arith;
      block_real = omega arith;
      paired = refl;
      node_holds = refl;
      block_holds = refl;
    },
    (
      record {
        above = omega arith;
        used = omega arith;
        block_used = omega arith;
        block_real = omega arith;
        paired = refl;
        node_holds = refl;
        block_holds = refl;
      },
      tt,
    ),
  );
}

abbrev no_entries : Heap
no_entries = record {
  queues =
      λ a. if a == 1 then some (record { top = null; last = null; lock = 2; count = 0 }) else none;
  nodes = λ a. none;
  blocks = λ a. none;
  brk = 3;
  budget = 0;
}

no_entries-IsQueue : IsQueue no_entries 1 []
no_entries-IsQueue = record {
  real = omega arith;
  brk_pos = omega arith;
  lock = 2;
  holds = refl;
  small = omega arith;
  chain = tt;
}

abbrev still : Heap → Heap
still h = h

sq_put-Stored_example :
    Returns
      (Stored two_entries 1 (first_cell ∷ second_cell ∷ []) (13 ∷ []))
      (sq_put 1 (13 ∷ []) 1 two_entries)
sq_put-Stored_example =
    sq_put-Stored two_entries 1 (first_cell ∷ second_cell ∷ []) (13 ∷ []) two_entries-IsQueue
      (omega arith) (omega arith) (omega arith)

sq_get-Taken_example :
    Returns
      (Taken two_entries 1 first_cell (second_cell ∷ []))
      (sq_get still 1 50 false two_entries)
sq_get-Taken_example =
    sq_get-Taken still two_entries 1 first_cell (second_cell ∷ []) 50 two_entries-IsQueue

drain-empties_example : Returns (λ r. IsQueue r.1 1 []) (drain 3 1 two_entries)
drain-empties_example =
    drain-empties 3 two_entries 1 (first_cell ∷ second_cell ∷ []) two_entries-IsQueue (omega arith)

abbrev receiving : Thread (List (List ℕ))
receiving = record {
  param = record {
    run = true;
    device_socket = some 9;
    rx_bytes = 0;
    last_error = none;
    recv_buf_size = 100;
    queue_limit = 1;
    queue_error_code = SockThread.no_error;
    pause_flg = false;
  };
  queue = [];
  socket = some 9;
}

abbrev silent : Pass
silent = record { run = false; pause = false; answer = failed would_block }

abbrev arriving : List Pass
arriving =
    record { run = true; pause = false; answer = bytes (1 ∷ 2 ∷ []) }
    ∷ silent
    ∷ record { run = true; pause = false; answer = bytes (3 ∷ []) }
    ∷ record { run = true; pause = false; answer = bytes (4 ∷ []) }
    ∷ []

recv_passes_quiet_example :
    (t' : Thread (List (List ℕ))) × (recv_passes list_put (silent ∷ silent ∷ []) receiving
      ≡ done (false, t'))
    × (t'.socket ≡ some 9)
    × (t'.queue ≡ [])
recv_passes_quiet_example =
    recv_passes_quiet (silent ∷ silent ∷ []) receiving (refl, refl, (refl, refl, tt))

recv_passes-PassesOk_example :
    Returns (PassesOk arriving receiving) (recv_passes list_put arriving receiving)
recv_passes-PassesOk_example = recv_passes-PassesOk arriving receiving

abbrev one_block : List Pass
one_block = record { run = true; pause = false; answer = bytes (1 ∷ 2 ∷ []) } ∷ silent ∷ []

recv_passes-rx_bytes_example :
    Returns
      (λ r.
        r.0 ≡ false → r.1.param.rx_bytes ≡ (0 + length (flatten (all_offered one_block))) % 2 ^ 64)
      (recv_passes list_put one_block receiving)
recv_passes-rx_bytes_example = recv_passes-rx_bytes one_block receiving (omega arith)

abbrev new_blocks : List (List ℕ)
new_blocks = (13 ∷ []) ∷ (14 ∷ 15 ∷ []) ∷ []

get_all-put_all_example :
    Returns
      (λ (out, h').
        (out ≡ (10 ∷ 11 ∷ []) ∷ (12 ∷ []) ∷ (13 ∷ []) ∷ (14 ∷ 15 ∷ []) ∷ []) × IsQueue h' 1 [])
      (put_all 1 new_blocks two_entries >>= get_all 5 1)
get_all-put_all_example =
    get_all-put_all new_blocks two_entries 1 (first_cell ∷ second_cell ∷ []) two_entries-IsQueue
      (omega arith) (omega arith, (omega arith, tt)) (omega arith)

read_all-payloads_example :
    read_all 3 1 null two_entries ≡ done ((10 ∷ 11 ∷ []) ∷ (12 ∷ []) ∷ [], two_entries)
read_all-payloads_example =
    read_all-payloads 3 two_entries 1 (first_cell ∷ second_cell ∷ []) two_entries-IsQueue
      (omega arith)
