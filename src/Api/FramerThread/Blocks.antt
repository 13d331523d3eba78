-- ===== src/Api/FramerThread/Blocks.antt =====
-- A round of the framer thread that takes a block.
use si_daq_api.Base.{
  ℕ, ◌<◌, ◌≡◌, refl, sym, ap, ◌∙◌, inl, inr, ◌^◌, Bool, false, some, List, [], ◌∷◌, ◌++◌,
  append_assoc, append-nil, flatten, flatten-append, arith, done, ◌>>=◌, Returns, returns,
  Returns-bind, length, slt, slt-ltb, ltb→le, Bool-cases,
}
use si_daq_api.Framer.{Framer, Return}
use si_daq_api.Framer.Outcomes.{Packets, held, Ends}
use si_daq_api.Framer.Joins.{IsHealthy, Ends-IsHealthy, recv_data-ok}
use si_daq_api.Framer.Stream.{Ends-kept}
use si_daq_api.Api.State.{Mngr}
use si_daq_api.Api.FramerThread.{check_errors, frame_block, no_block, framer_round, loops}
use si_daq_api.Api.FramerThread.Checks.{
  IsClosing, IsSound, IsWorking, length-zero, check_errors-Checked, Checked-IsSound, Checked-held,
}

-- A round that takes a block.
pub record Took (block : List ℕ) (blocks : Packets) (f : Framer) (m m' : Mngr) : Type 0 where
  pub framer : Framer
  pub sound : IsSound framer m'
  pub closing : IsClosing m → IsClosing m'
  pub buffer_same : m'.sock_param.recv_buf_size ≡ m.sock_param.recv_buf_size
  pub left : m'.recv_queue ≡ blocks
  pub bytes : flatten m'.event_frame ++ held framer ≡ flatten m.event_frame ++ (held f ++ block)

-- What was there before the round, and the block and those behind it.
pub Took-bytes :
    (block : List ℕ) (blocks : Packets) (f : Framer) (m m' : Mngr) (t : Took block blocks f m m')
    → flatten m'.event_frame ++ (held t.framer ++ flatten blocks)
      ≡ flatten m.event_frame ++ (held f ++ (block ++ flatten blocks))
Took-bytes block blocks f m m' t =
    sym (append_assoc (flatten m'.event_frame) (held t.framer) (flatten blocks))
    ∙ ap (λ k. k ++ flatten blocks) t.bytes
    ∙ append_assoc (flatten m.event_frame) (held f ++ block) (flatten blocks)
    ∙ ap (◌++◌ (flatten m.event_frame)) (append_assoc (held f) block (flatten blocks))

check_errors-Took :
    (block : List ℕ) (blocks : Packets) (f f' : Framer) (m m' : Mngr)
    → m'.framer ≡ some f'
    → IsHealthy f'
    → f'.queue_limit ≡ 0
    → m'.squeue_index ≡ 0
    → m'.sock_param ≡ m.sock_param
    → m'.status ≡ m.status
    → m'.recv_queue ≡ blocks
    → flatten m'.event_frame ++ held f' ≡ flatten m.event_frame ++ (held f ++ block)
    → Took block blocks f m (check_errors f' m')
check_errors-Took block blocks f f' m m' e w z index param status left bytes =
    let c = check_errors-Checked f' m' e in
    record {
      framer = c.framer;
      sound = Checked-IsSound f' m' (check_errors f' m') w z index c;
      closing = λ k. c.closing (record {
        device = ap (λ p. p.device_socket) param ∙ k.device;
        goes = ap loops status ∙ k.goes;
      });
      buffer_same = c.buffer_same ∙ ap (λ p. p.recv_buf_size) param;
      left = c.recv_queue_same ∙ left;
      bytes =
          ap (λ k. flatten k ++ held c.framer) c.events_same
          ∙ ap (◌++◌ (flatten m'.event_frame)) (Checked-held f' m' _ c)
          ∙ bytes;
    }

pub frame_block-Took :
    (past : ℕ) (block : List ℕ) (blocks : Packets) (f : Framer) (m : Mngr)
    → IsSound f m
    → length block < 2 ^ 30
    → Returns (Took block blocks f m) (frame_block past block blocks f m)
unfolding frame_block
frame_block-Took past block blocks f m w small = elim (Bool-cases (slt 0 (length block))) [
  | inl d ↦ rw d (
      Returns-bind
        (recv_data-ok past f block m.event_frame w.healthy
          (omega (arith, w.healthy.rest_fits, w.healthy.ready.small)))
        λ (f₁, q₁, ret) e. returns (
          check_errors-Took block blocks f f₁ m
            (record m { recv_queue = blocks; framer = some f₁; event_frame = q₁ }) refl
            (Ends-IsHealthy e) (e.limit_same ∙ w.unlimited) w.index refl refl refl
            (took_bytes f₁ q₁ ret e)))
  | inr d ↦
      let empty : block ≡ [] = length-zero block (
        omega (
          arith,
          ltb→le 0 (length block) (sym (slt-ltb 0 (length block) (omega arith) (omega arith)) ∙ d),
        )) in
      rw d (
        returns (
          check_errors-Took block blocks f f m (record m { recv_queue = blocks }) w.framer_eq
            w.healthy w.unlimited w.index refl refl refl
            (ap (λ k. flatten m.event_frame ++ k)
              (sym (append-nil (held f)) ∙ ap (◌++◌ (held f)) (sym empty)))))
]
  where
    took_bytes :
        (f₁ : Framer) (q₁ : Packets) (ret : Return)
        → Ends f.queue_limit (held f ++ block) 0 m.event_frame f₁ q₁ ret
        → flatten q₁ ++ held f₁ ≡ flatten m.event_frame ++ (held f ++ block)
    took_bytes f₁ q₁ ret e =
        ap (λ k. flatten k ++ held f₁) e.queue
        ∙ ap (λ k. k ++ held f₁) (flatten-append m.event_frame e.out)
        ∙ append_assoc (flatten m.event_frame) (flatten e.out) (held f₁)
        ∙ ap (◌++◌ (flatten m.event_frame)) (Ends-kept w.unlimited e)

-- A round with a block ahead takes it.
pub framer_round_block :
    (past : ℕ) (block : List ℕ) (blocks : Packets) (f : Framer) (m : Mngr)
    → IsWorking f m
    → m.recv_queue ≡ block ∷ blocks
    → framer_round false past m ≡ (frame_block past block blocks f m >>= λ m'. done (false, m'))
unfolding framer_round
framer_round_block past block blocks f m w e =
    ground (arith, w.sound.framer_eq, w.closing.goes, w.sound.index)

pub framer_round_empty :
    (timed_out : Bool) (past : ℕ) (f : Framer) (m : Mngr)
    → IsWorking f m
    → m.recv_queue ≡ []
    → framer_round timed_out past m ≡ no_block f m
unfolding framer_round
framer_round_empty timed_out past f m w e =
    ground (arith, w.sound.framer_eq, w.closing.goes, w.sound.index)
