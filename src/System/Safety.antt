-- ===== src/System/Safety.antt =====
-- In every order of the steps no byte is lost, doubled or moved, and no step has undefined behaviour.
use si_daq_api.Base.{
  ℕ, ◌<◌, ◌≡◌, refl, sym, ap, subst, ◌∙◌, ◌^◌, Bool, true, false, Option, some, List, [], ◌∷◌, ◌++◌,
  flatten, flatten-append, append_assoc, append-nil, arith, done, Returns-done,
}
use si_daq_api.Framer.{Framer, list_put}
use si_daq_api.Framer
use si_daq_api.Framer.Outcomes.{held}
use si_daq_api.Framer.Stream.{AllSmall}
use si_daq_api.SockThread.{
  Received, bytes, closed, failed, Pass, Thread, recv_pass, thread_start, select_round, Selected,
}
use si_daq_api.SockThread.Laws.{offered, recv_pass-PassOk}
use si_daq_api.Api.State.{Packets, Mngr}
use si_daq_api.Api.Control.{pause_recv_data, resume_recv_data}
use si_daq_api.Api.Access.{get_data}
use si_daq_api.Api.Gets.{get_data-none, get_data-some}
use si_daq_api.Api.FramerThread.Checks.{IsSound}
use si_daq_api.Api.FramerThread.Drain.{cleared-IsHealthy}
use si_daq_api.Api.FramerThread.Ends.{KeepsData, sidaq_stop-KeepsData}
use si_daq_api.Api.FramerThread.Conserve.{
  on_hand, Kept, KeepsData-Kept, framer_round-Kept, framer_end-Kept,
}
use si_daq_api.System.{
  System, Step, sock_starts, selects, receives_pass, framer_starts, frames_round, framer_ends,
  gets_data, stops, pauses, resumes, Reach, here, after, pass_of, IsAnswer, taken, without_error,
  framer_start,
}

-- The framer is sound, the blocks that wait are far from the end of an `int`, and the events that
-- were delivered, those that wait, the held bytes and the blocks that wait are what has arrived.
pub record Conserves (m : Mngr) (delivered arrived : Packets) : Type 0 where
  pub framer : Framer
  pub sound : IsSound framer m
  pub small : AllSmall m.recv_queue
  pub buffer : m.sock_param.recv_buf_size < 2 ^ 30
  pub bytes : flatten delivered ++ on_hand framer m ≡ flatten arrived

abbrev pub IsSafe : System → Type 0
IsSafe s = Conserves s.mngr s.delivered s.arrived

framer_start-some :
    (f : Framer) (m : Mngr)
    → m.framer ≡ some f
    → framer_start m ≡ record m { framer = some (record f { error_code = Framer.no_error }) }
unfolding framer_start
framer_start-some f m e = ap (λ o. record m { framer = without_error o }) e

AllSmall-append : (q q' : Packets) → AllSmall q → AllSmall q' → AllSmall (q ++ q')
AllSmall-append [] q' a a' = a'
AllSmall-append (block ∷ q) q' a a' = (a.0, AllSmall-append q q' a.1 a')

append_last : (a b c d n : List ℕ) → a ++ (b ++ (c ++ (d ++ n))) ≡ (a ++ (b ++ (c ++ d))) ++ n
append_last a b c d n = sym (
    append_assoc a (b ++ (c ++ d)) n
    ∙ ap (◌++◌ a) (append_assoc b (c ++ d) n ∙ ap (◌++◌ b) (append_assoc c d n)))

-- Steps that neither take a block in nor give an event out.
module _ (m : Mngr) (delivered arrived : Packets) (v : Conserves m delivered arrived) where
  Kept-Conserves : (m' : Mngr) → Kept v.framer m m' → Conserves m' delivered arrived
  Kept-Conserves m' k = record {
    framer = k.framer;
    sound = k.sound;
    small = k.small v.small;
    buffer = omega (arith, k.buffer_same, v.buffer);
    bytes = ap (◌++◌ (flatten delivered)) k.bytes ∙ v.bytes;
  }

  data_same : (m' : Mngr) → KeepsData m m' → Conserves m' delivered arrived
  data_same m' k = Kept-Conserves m' (KeepsData-Kept v.framer m m' v.sound k)

  framer_start-Conserves : Conserves (framer_start m) delivered arrived
  framer_start-Conserves = rw (framer_start-some v.framer m v.sound.framer_eq) (record {
    framer = record v.framer { error_code = Framer.no_error };
    sound = record {
      framer_eq = refl;
      healthy = cleared-IsHealthy v.framer v.sound.healthy;
      unlimited = v.sound.unlimited;
      index = v.sound.index;
    };
    small = v.small;
    buffer = v.buffer;
    bytes = v.bytes;
  })

  -- The oldest event goes to the program.
  get_data-Conserves :
      (events : Packets)
      → m.event_frame ≡ events
      → Conserves (get_data m).1 (delivered ++ taken (get_data m).0) arrived
  unfolding flatten
  get_data-Conserves [] e = rw (get_data-none m e, append-nil delivered) v
  get_data-Conserves (event ∷ events) e = rw (get_data-some m event events e) (record {
    framer = v.framer;
    sound = record {
      framer_eq = v.sound.framer_eq;
      healthy = v.sound.healthy;
      unlimited = v.sound.unlimited;
      index = v.sound.index;
    };
    small = v.small;
    buffer = v.buffer;
    bytes =
        ap (λ k. k ++ (flatten events ++ behind))
          (flatten-append delivered (event ∷ []) ∙ ap (◌++◌ (flatten delivered)) (append-nil event))
        ∙ append_assoc (flatten delivered) event (flatten events ++ behind)
        ∙ ap (◌++◌ (flatten delivered)) (
            sym (append_assoc event (flatten events) behind)
            ∙ ap (λ k. flatten k ++ behind) (sym e))
        ∙ v.bytes;
  })
    where
      behind : List ℕ
      behind = held v.framer ++ flatten m.recv_queue

  -- A pass of the receive loop.
  receives-Conserves :
      (p : Pass) (socket : Option ℕ) (breaks : Bool) (t : Thread Packets)
      → AllSmall (offered p)
      → recv_pass list_put p
          (record { param = m.sock_param; queue = m.recv_queue; socket = socket })
        ≡ done (breaks, t)
      → Conserves
          (record m { sock_param = t.param; recv_queue = t.queue })
          delivered
          (arrived ++ offered p)
  receives-Conserves p socket breaks t small e =
      let k =
        Returns-done
          (recv_pass-PassOk p
            (record { param = m.sock_param; queue = m.recv_queue; socket = socket }))
          e in
      record {
        framer = v.framer;
        sound = record {
          framer_eq = v.sound.framer_eq;
          healthy = v.sound.healthy;
          unlimited = v.sound.unlimited;
          index = v.sound.index;
        };
        small =
            subst AllSmall (sym k.queue) (AllSmall-append m.recv_queue (offered p) v.small small);
        buffer = omega (arith, k.buffer, v.buffer);
        bytes =
            ap (λ q. flatten delivered ++ (flatten m.event_frame ++ (held v.framer ++ flatten q)))
              k.queue
            ∙ ap (λ q. flatten delivered ++ (flatten m.event_frame ++ (held v.framer ++ q)))
                (flatten-append m.recv_queue (offered p))
            ∙ append_last (flatten delivered) (flatten m.event_frame) (held v.framer)
                (flatten m.recv_queue) (flatten (offered p))
            ∙ ap (λ k. k ++ flatten (offered p)) v.bytes
            ∙ sym (flatten-append arrived (offered p));
      }

select_round-KeepsData :
    (run : Bool) (answer : Selected) (socket : Option ℕ) (m : Mngr)
    → let t =
        (select_round run answer
          (record { param = m.sock_param; queue = m.recv_queue; socket = socket })).1 in
      KeepsData m (record m { sock_param = t.param; recv_queue = t.queue })
unfolding select_round
select_round-KeepsData run answer socket m = record {
  framer_same = refl;
  recv_queue_same = ground arith;
  events_same = refl;
  index_same = refl;
  buffer_same = ground arith;
}

pause-KeepsData : (m : Mngr) → KeepsData m (pause_recv_data m)
unfolding pause_recv_data
pause-KeepsData m = record {
  framer_same = ground arith;
  recv_queue_same = ground arith;
  events_same = ground arith;
  index_same = ground arith;
  buffer_same = ground arith;
}

resume-KeepsData : (m : Mngr) → KeepsData m (resume_recv_data m)
unfolding resume_recv_data
resume-KeepsData m = record {
  framer_same = ground arith;
  recv_queue_same = ground arith;
  events_same = ground arith;
  index_same = ground arith;
  buffer_same = ground arith;
}

-- What `recv` gives is no more than the buffer has room for.
offered-small :
    (run pause : Bool) (answer : Received) (size : ℕ)
    → size < 2 ^ 30
    → IsAnswer size answer
    → AllSmall (offered (record { run = run; pause = pause; answer = answer }))
unfolding offered
offered-small run true answer size small fits = tt
offered-small run false (bytes block) size small fits = (omega arith, tt)
offered-small run false (closed e) size small fits = tt
offered-small run false (failed e) size small fits = tt

-- Every step keeps the invariant.
Step-IsSafe : (s s' : System) → Step s s' → IsSafe s → IsSafe s'
unfolding thread_start
Step-IsSafe s s' (sock_starts e) v = data_same s.mngr s.delivered s.arrived v _ (record {
  framer_same = refl;
  recv_queue_same = refl;
  events_same = refl;
  index_same = refl;
  buffer_same = refl;
})
Step-IsSafe s s' (selects answer e) v =
    data_same s.mngr s.delivered s.arrived v _
      (select_round-KeepsData s.mngr.sock_param.run answer s.socket s.mngr)
Step-IsSafe s s' (receives_pass answer breaks t e fits run) v =
    receives-Conserves s.mngr s.delivered s.arrived v (pass_of s answer) s.socket breaks t
      (offered-small s.mngr.sock_param.run s.mngr.sock_param.pause_flg answer
        s.mngr.sock_param.recv_buf_size v.buffer fits)
      run
Step-IsSafe s s' (framer_starts e) v = framer_start-Conserves s.mngr s.delivered s.arrived v
Step-IsSafe s s' (frames_round timed_out past breaks m e run) v =
    Kept-Conserves s.mngr s.delivered s.arrived v m
      (Returns-done (framer_round-Kept v.framer s.mngr v.sound timed_out past v.small) run)
Step-IsSafe s s' (framer_ends m e run) v =
    Kept-Conserves s.mngr s.delivered s.arrived v m
      (Returns-done (framer_end-Kept v.framer s.mngr v.sound) run)
Step-IsSafe s s' gets_data v =
    get_data-Conserves s.mngr s.delivered s.arrived v s.mngr.event_frame refl
Step-IsSafe s s' stops v = data_same s.mngr s.delivered s.arrived v _ (sidaq_stop-KeepsData s.mngr)
Step-IsSafe s s' pauses v = data_same s.mngr s.delivered s.arrived v _ (pause-KeepsData s.mngr)
Step-IsSafe s s' resumes v = data_same s.mngr s.delivered s.arrived v _ (resume-KeepsData s.mngr)

pub Reach-IsSafe : (s s' : System) → Reach s s' → IsSafe s → IsSafe s'
Reach-IsSafe s s' here v = v
Reach-IsSafe s s' (after {s' = mid} r step) v = Step-IsSafe mid s' step (Reach-IsSafe s mid r v)
