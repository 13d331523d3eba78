-- ===== src/Framer/Pipeline.antt =====
-- The framer and its queue in memory as one: the received blocks go in, and what a caller gets by
-- `SQGet` comes out.
use si_daq_api.Base.{
  ℕ, suc, ◌*◌, ◌<◌, ◌≤◌, ◌^◌, ◌≡◌, refl, ap, ◌∙◌, List, [], flatten, arith, Outcome, done, ◌>>=◌,
  Returns, returns, Returns-bind, length,
}
use si_daq_api.Framer.{Framer}
use si_daq_api.Framer.Outcomes.{Packets, held}
use si_daq_api.Framer.Stream.{AllSmall}
use si_daq_api.Framer.Messages.{IsTuned, AllMessages}
use si_daq_api.Framer.Messages.Runs.{AllReach, feed_messages}
use si_daq_api.Framer.Linked.{length-payloads, feed_linked, feed-Stores}
use si_daq_api.Squeue.Memory.{Ptr, Heap}
use si_daq_api.Squeue.Chain.{IsQueue}
use si_daq_api.Squeue.Fifo.{get_all, get_all-payloads}

-- All blocks are fed, then the entries are taken until the queue answers NULL.
unfoldable pub feed_get :
    Ptr → ℕ → ℕ → Framer → List (List ℕ) → Heap → Outcome (Framer × List (List ℕ) × Heap)
feed_get que_ptr fuel past f blocks h = feed_linked que_ptr past f blocks h >>= λ r.
    get_all fuel que_ptr r.1 >>= λ s. done (r.0, s.0, s.1)

-- A framer holds no bytes and its settings know the length of each of some messages; its event
-- queue in memory is empty, and memory has two allocations left for each of these fewer than
-- 2 ^ 31 messages. However the stream of the messages is cut into blocks (of less than 2 ^ 30
-- bytes, and not empty where the header has two bytes), the calls of `RecvSiDaqData` and then of
-- `SQGet` return, `SQGet` answers exactly the messages, in order, and then NULL, nothing is held
-- behind them, and the queue is empty and well formed again.
pub feed_get-messages :
    (que_ptr past : ℕ) (f : Framer) (messages blocks : Packets) (h : Heap)
    → IsTuned f
    → f.rest ≡ 0
    → f.buff_size ≡ length f.buff
    → AllMessages f messages
    → AllSmall blocks
    → AllReach f blocks
    → flatten blocks ≡ flatten messages
    → IsQueue h que_ptr []
    → 2 * length messages ≤ h.budget
    → length messages < 2 ^ 31
    → Returns
        (λ (f', out, h'). (out ≡ messages) × (held f' ≡ []) × IsQueue h' que_ptr [])
        (feed_get que_ptr (suc (length messages)) past f blocks h)
unfolding feed_get
feed_get-messages que_ptr past f messages blocks h t fresh size valid small reach e v room few =
    let (f', run, empty) =
      feed_messages past f messages blocks [] t fresh size valid small reach e in
    Returns-bind
      (feed-Stores que_ptr past f blocks [] h f' messages run
        (record { cells = []; queue = v; same = refl }) (omega arith) few)
      λ (f₁, h₁) (same, s).
        Returns-bind
          (get_all-payloads (suc (length messages)) h₁ que_ptr s.cells s.queue
            (omega (arith, length-payloads s.cells, ap length s.same)))
          λ (out, h₂) (answered, w). returns (answered ∙ s.same, ap held same ∙ empty, w)
