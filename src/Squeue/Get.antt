-- ===== src/Squeue/Get.antt =====
-- `SQGet` on a well-formed queue.
use si_daq_api.Base.{
  ℕ, zero, suc, ◌<◌, ◌≡◌, ◌≢◌, refl, ◌^◌, Bool, true, false, Option, none, some, [], ◌∷◌, arith,
  done, Returns, returns, ◌∙◌, lt→ltb, length, sub32, sub32_exact, is_neg, slt, slt-ltb,
}
use si_daq_api.Squeue.Memory.{Ptr, null, SqData, Squeue, Heap, load_node, free_node, load_queue}
use si_daq_api.Squeue.Chain.{Cell, Cells, first, final, sq_data, IsQueue}
use si_daq_api.Squeue.{wait_loop, delete_sq_data, unlink_top, sque_get, sq_get}
use si_daq_api.Squeue.Unlink.{
  Chain-frame, emptied, shifted, freed, unlink_top-only, unlink_top-more,
}

delete_sq_data-done :
    (h : Heap) (p : Ptr) (d : SqData)
    → p ≢ null
    → h.nodes p ≡ some d
    → d.data_ptr ≢ null
    → d.next ≡ null
    → d.prev ≡ null
    → delete_sq_data p h ≡ done (tt, freed h p)
unfolding delete_sq_data load_node free_node
delete_sq_data-done h p d real hd r n e = ground arith

module _ (sleep : Heap → Heap) (h : Heap) (que_ptr : Ptr) (q : Squeue) (real : que_ptr ≢ null)
    (hq : h.queues que_ptr ≡ some q) where
  wait_loop-ready : (n : ℕ) → slt 0 q.count ≡ true → wait_loop sleep que_ptr n h ≡ done (n, h)
  unfolding wait_loop load_queue
  wait_loop-ready zero p = refl
  wait_loop-ready (suc zero) p = refl
  wait_loop-ready (suc (suc n)) p = ground arith

  -- `SQGet` on a queue with data, given what `_sque_get` does.
  sq_get-taken :
      (wait_msec : ℕ) (d : SqData) (h' : Heap)
      → slt 0 q.count ≡ true
      → q.count ≢ 0
      → q.top ≢ null
      → unlink_top que_ptr q.top h ≡ done (q.top, h')
      → h'.nodes q.top ≡ some d
      → d.data_ptr ≢ null
      → d.next ≡ null
      → d.prev ≡ null
      → sq_get sleep que_ptr wait_msec false h ≡ done ((d.data_ptr, some d.size), freed h' q.top)
  unfolding sq_get sque_get load_queue load_node
  sq_get-taken wait_msec d h' p c t u hd r n e =
      ground (arith, wait_loop-ready wait_msec p, delete_sq_data-done h' q.top d t hd r n e)

slt_zero : (n : ℕ) → suc n < 2 ^ 31 → slt 0 (suc n) ≡ true
slt_zero n h = slt-ltb 0 (suc n) (omega arith) h ∙ lt→ltb 0 (suc n) (omega arith)

-- What `SQGet` promises on a queue whose oldest entry is `c`.
abbrev pub Taken : Heap → Ptr → Cell → Cells → (Ptr × Option ℕ) × Heap → Type 0
Taken h que_ptr c cs (r, h') =
    (r ≡ (c.block, some (length c.bytes)))
    × IsQueue h' que_ptr cs
    × (h'.blocks c.block ≡ some c.bytes)
    × (h'.nodes c.node ≡ none)
    × (h'.budget ≡ h.budget)

module _ (sleep : Heap → Heap) (h : Heap) (que_ptr : Ptr) (c : Cell) (wait_msec : ℕ) where
  sq_get-Taken_only :
      IsQueue h que_ptr (c ∷ [])
      → Returns (Taken h que_ptr c []) (sq_get sleep que_ptr wait_msec false h)
  sq_get-Taken_only v =
      let q : Squeue = record { top = c.node; last = c.node; lock = v.lock; count = 1 } in
      let d : SqData = sq_data que_ptr c null null in
      let k = v.chain.0 in
      let one : sub32 1 1 ≡ 0 = sub32_exact 1 1 (omega arith) (omega arith) in
      let real : c.node ≢ null = omega (arith, k.above) in
      rw
        (sq_get-taken sleep h que_ptr q v.real v.holds wait_msec (record d { parent = null })
          (emptied h que_ptr q d) (slt_zero 0 (omega arith)) (omega arith) real
          (unlink_top-only h que_ptr q d v.real v.holds real k.node_holds refl refl one)
          (ground arith) k.block_real refl refl)
        (returns (
          refl,
          record {
            real = v.real;
            brk_pos = v.brk_pos;
            lock = v.lock;
            holds = ground arith;
            small = omega arith;
            chain = tt;
          },
          k.block_holds,
          ground arith,
          refl,
        ))

  sq_get-Taken_more :
      (e : Cell) (cs : Cells)
      → IsQueue h que_ptr (c ∷ e ∷ cs)
      → Returns (Taken h que_ptr c (e ∷ cs)) (sq_get sleep que_ptr wait_msec false h)
  sq_get-Taken_more e cs v =
      let q : Squeue = record {
        top = c.node;
        last = final e.node cs;
        lock = v.lock;
        count = suc (suc (length cs));
      } in
      let d : SqData = sq_data que_ptr c e.node null in
      let s : SqData = sq_data que_ptr e (first cs) c.node in
      let k = v.chain.0 in
      let k' = v.chain.1.0 in
      let less : sub32 (suc (suc (length cs))) 1 ≡ suc (length cs) =
        sub32_exact (suc (suc (length cs))) 1 (omega (arith, v.small)) (omega arith)
        ∙ omega arith in
      let real : c.node ≢ null = omega (arith, k.above) in
      let h' : Heap = freed (shifted h que_ptr q d s) c.node in
      rw
        (sq_get-taken sleep h que_ptr q v.real v.holds wait_msec
          (record d { parent = null; next = null }) (shifted h que_ptr q d s)
          (slt_zero (suc (length cs)) v.small) (omega arith) real
          (unlink_top-more h que_ptr q d v.real v.holds real k.node_holds refl s
            (omega (arith, k'.above)) (omega (arith, k'.above)) k'.node_holds
            (rw less (omega arith)))
          (ground arith) k.block_real refl refl)
        (returns (
          refl,
          record {
            real = v.real;
            brk_pos = v.brk_pos;
            lock = v.lock;
            holds = ground arith;
            small = omega (arith, v.small);
            chain = (
              record {
                above = omega (arith, k.above, k'.above);
                used = k'.used;
                block_used = k'.block_used;
                block_real = k'.block_real;
                paired = k'.paired;
                node_holds = ground (arith, k'.above);
                block_holds = k'.block_holds;
              },
              Chain-frame h h' que_ptr e.node cs v.chain.1.1 (λ a l. ground (arith, k'.above)) refl
                  refl,
            );
          },
          k.block_holds,
          ground arith,
          refl,
        ))

-- On a well-formed queue with entries, where the lock is got, `SQGet` takes the oldest entry
-- whatever the wait: it answers its block and size, frees its node, and leaves the queue of the
-- others well formed.
pub sq_get-Taken :
    (sleep : Heap → Heap) (h : Heap) (que_ptr : Ptr) (c : Cell) (cs : Cells) (wait_msec : ℕ)
    → IsQueue h que_ptr (c ∷ cs)
    → Returns (Taken h que_ptr c cs) (sq_get sleep que_ptr wait_msec false h)
sq_get-Taken sleep h que_ptr c [] wait_msec v = sq_get-Taken_only sleep h que_ptr c wait_msec v
sq_get-Taken sleep h que_ptr c (e ∷ cs) wait_msec v =
    sq_get-Taken_more sleep h que_ptr c wait_msec e cs v

-- On an empty queue a negative wait does not wait: `SQGet` answers NULL and the size 0 at once.
pub sq_get_empty :
    (sleep : Heap → Heap) (h : Heap) (que_ptr wait_msec : ℕ) (timed_out : Bool)
    → IsQueue h que_ptr []
    → is_neg wait_msec ≡ true
    → sq_get sleep que_ptr wait_msec timed_out h ≡ done ((null, some 0), h)
unfolding sq_get load_queue
sq_get_empty sleep h que_ptr wait_msec timed_out v neg =
    ground (arith, v.real, v.holds, slt-ltb 0 0)
