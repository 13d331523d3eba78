-- ===== src/Examples/Linked.antt =====
-- The framer of Examples/Frames over a queue in memory.
use si_daq_api.Base.{◌≡◌, refl, none, some, [], flatten, arith, done, Returns, if◌then◌else◌, ◌==◌}
use si_daq_api.Framer.{Framer}
use si_daq_api.Framer.Outcomes.{held}
use si_daq_api.Framer.Stream.{feed}
use si_daq_api.Framer.Messages.Runs.{feed_messages}
use si_daq_api.Framer.Linked.{Stores, feed_linked, feed-Stores}
use si_daq_api.Framer.Pipeline.{feed_get, feed_get-messages}
use si_daq_api.Squeue.Memory.{null, Heap}
use si_daq_api.Squeue.Chain.{IsQueue}
use si_daq_api.Examples.Frames.{
  headed, messages, message_pieces, headed-IsTuned, messages-AllMessages,
}

abbrev roomy : Heap
roomy = record {
  queues =
      λ a. if a == 1 then some (record { top = null; last = null; lock = 2; count = 0 }) else none;
  nodes = λ a. none;
  blocks = λ a. none;
  brk = 3;
  budget = 4;
}

roomy-IsQueue : IsQueue roomy 1 []
roomy-IsQueue = record {
  real = omega arith;
  brk_pos = omega arith;
  lock = 2;
  holds = refl;
  small = omega arith;
  chain = tt;
}

-- The run over a list of entries.
listed : (f' : Framer) × (feed 0 headed message_pieces [] ≡ done (f', messages)) × (held f' ≡ [])
unfolding flatten
listed =
    feed_messages 0 headed messages message_pieces [] headed-IsTuned refl refl messages-AllMessages
      (omega arith, (omega arith, (omega arith, tt)))
      (omega arith, (omega arith, (omega arith, tt))) refl

feed-Stores_example :
    Returns
      (λ (f₁, h₁). (f₁ ≡ listed.0) × Stores 1 messages h₁)
      (feed_linked 1 0 headed message_pieces roomy)
feed-Stores_example =
    feed-Stores 1 0 headed message_pieces [] roomy listed.0 messages listed.1
      (record { cells = []; queue = roomy-IsQueue; same = refl }) (omega arith) (omega arith)

feed_get-messages_example :
    Returns
      (λ (f', out, h'). (out ≡ messages) × (held f' ≡ []) × IsQueue h' 1 [])
      (feed_get 1 3 0 headed message_pieces roomy)
unfolding flatten
feed_get-messages_example =
    feed_get-messages 1 0 headed messages message_pieces roomy headed-IsTuned refl refl
      messages-AllMessages (omega arith, (omega arith, (omega arith, tt)))
      (omega arith, (omega arith, (omega arith, tt))) refl roomy-IsQueue (omega arith) (omega arith)
