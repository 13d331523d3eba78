-- ===== src/Squeue/Drain.antt =====
-- The loop that empties a queue, and `DeleteSQueue`.
use si_daq_api.Base.{
  ℕ, zero, suc, ◌+◌, ◌<◌, ◌≤◌, ◌≡◌, ◌≢◌, refl, false, none, some, List, [], ◌∷◌, arith, done,
  Returns, returns, Returns-result, length, sub32, is_neg,
}
use si_daq_api.Squeue.Memory.{Ptr, null, Squeue, Heap, update, load_queue, free_block}
use si_daq_api.Squeue.Chain.{Cell, Cells, Chain, IsQueue}
use si_daq_api.Squeue.Get.{sq_get-Taken, sq_get_empty}
use si_daq_api.Squeue.{drain, delete_squeue, sq_get}

abbrev pub without_block : Heap → Ptr → Heap
without_block h p = record h { blocks = update h.blocks p none }

Chain-without_block :
    (h : Heap) (que_ptr prev block : Ptr) (cs : Cells)
    → Chain h que_ptr prev cs
    → block ≤ prev + 1
    → Chain (without_block h block) que_ptr prev cs
Chain-without_block h que_ptr prev block [] k le = tt
Chain-without_block h que_ptr prev block (c ∷ cs) (k, ks) le = (
  record {
    above = k.above;
    used = k.used;
    block_used = k.block_used;
    block_real = k.block_real;
    paired = k.paired;
    node_holds = k.node_holds;
    block_holds = ground (arith, k.above, k.paired, k.block_holds);
  },
  Chain-without_block h que_ptr c.node block cs ks (omega (arith, k.above)),
)

pub free_block-done :
    (h : Heap) (p : Ptr) (bytes : List ℕ)
    → p ≢ null
    → h.blocks p ≡ some bytes
    → free_block p h ≡ done (tt, without_block h p)
unfolding free_block
free_block-done h p bytes real e = ground arith

drain-step :
    (fuel : ℕ) (h h' : Heap) (que_ptr : Ptr) (c : Cell)
    → sq_get (λ h. h) que_ptr (sub32 0 1) false h ≡ done ((c.block, some (length c.bytes)), h')
    → c.block ≢ null
    → h'.blocks c.block ≡ some c.bytes
    → drain (suc fuel) que_ptr h ≡ drain fuel que_ptr (without_block h' c.block)
unfolding drain
drain-step fuel h h' que_ptr c e real b = ground (arith, free_block-done h' c.block c.bytes real b)

-- After the oldest entry is taken, freeing its block leaves the rest of the queue as it is.
pub freed-IsQueue :
    (h h' : Heap) (que_ptr : Ptr) (c : Cell) (cs : Cells)
    → IsQueue h que_ptr (c ∷ cs)
    → IsQueue h' que_ptr cs
    → IsQueue (without_block h' c.block) que_ptr cs
freed-IsQueue h h' que_ptr c [] v w = record {
  real = w.real;
  brk_pos = w.brk_pos;
  lock = w.lock;
  holds = w.holds;
  small = w.small;
  chain = tt;
}
freed-IsQueue h h' que_ptr c (e ∷ cs) v w =
    let k = w.chain.0 in
    record {
      real = w.real;
      brk_pos = w.brk_pos;
      lock = w.lock;
      holds = w.holds;
      small = w.small;
      chain = (
        record {
          above = k.above;
          used = k.used;
          block_used = k.block_used;
          block_real = k.block_real;
          paired = k.paired;
          node_holds = k.node_holds;
          block_holds =
              ground (arith, k.paired, k.block_holds, v.chain.0.paired, v.chain.1.0.above);
        },
        Chain-without_block h' que_ptr e.node c.block cs w.chain.1
            (omega (arith, v.chain.0.paired, v.chain.1.0.above)),
      );
    }

-- On a well-formed queue the loop ends, with one round more than there are entries as fuel, and
-- leaves the queue well formed and empty.
pub drain-empties :
    (fuel : ℕ) (h : Heap) (que_ptr : Ptr) (cs : Cells)
    → IsQueue h que_ptr cs
    → length cs < fuel
    → Returns (λ r. IsQueue r.1 que_ptr []) (drain fuel que_ptr h)
unfolding drain sub32 is_neg
drain-empties zero h que_ptr cs v f = absurd (omega arith)
drain-empties (suc fuel) h que_ptr [] v f =
    rw (sq_get_empty (λ h. h) h que_ptr (sub32 0 1) false v refl) (returns v)
drain-empties (suc fuel) h que_ptr (c ∷ cs) v f =
    let ((r, h'), e, t) = Returns-result (sq_get-Taken (λ h. h) h que_ptr c cs (sub32 0 1) v) in
    rw (drain-step fuel h h' que_ptr c (ground (arith, e, t.0)) v.chain.0.block_real t.2) (
      drain-empties fuel (without_block h' c.block) que_ptr cs
        (freed-IsQueue h h' que_ptr c cs v t.1) (omega arith))

delete_squeue-done :
    (fuel : ℕ) (h h' : Heap) (que_ptr : Ptr) (q q' : Squeue)
    → que_ptr ≢ null
    → h.queues que_ptr ≡ some q
    → q.lock ≢ null
    → drain fuel que_ptr h ≡ done (tt, h')
    → h'.queues que_ptr ≡ some q'
    → delete_squeue fuel que_ptr h ≡ done (tt, record h' { queues = update h'.queues que_ptr none })
unfolding delete_squeue load_queue
delete_squeue-done fuel h h' que_ptr q q' real hq l e hq' = ground arith

-- On a well-formed queue with a lock, and with one round more than there are entries as fuel,
-- `DeleteSQueue` returns, and the queue's header is given back.
pub delete_squeue-frees :
    (fuel : ℕ) (h : Heap) (que_ptr : Ptr) (cs : Cells)
    → (v : IsQueue h que_ptr cs) → v.lock ≢ null
    → length cs < fuel
    → Returns (λ r. r.1.queues que_ptr ≡ none) (delete_squeue fuel que_ptr h)
delete_squeue-frees fuel h que_ptr cs v l f =
    let ((_, h'), e, w) = Returns-result (drain-empties fuel h que_ptr cs v f) in
    rw (delete_squeue-done fuel h h' que_ptr _ _ v.real v.holds l e w.holds)
      (returns (ground arith))
