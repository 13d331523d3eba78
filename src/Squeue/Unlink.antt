-- ===== src/Squeue/Unlink.antt =====
-- `_sque_get` step by step: the top goes on to the next node, and the count goes down.
use si_daq_api.Base.{◌<◌, ◌≡◌, ◌≢◌, none, some, [], ◌∷◌, arith, done, sub32}
use si_daq_api.Squeue.Memory.{
  Ptr, null, SqData, Squeue, Heap, update, load_node, modify_node, load_queue, modify_queue,
}
use si_daq_api.Squeue.Chain.{Cells, Chain}
use si_daq_api.Squeue.{advance_top, count_down, unlink_top}

pub Chain-frame :
    (h h' : Heap) (que_ptr prev : Ptr) (cs : Cells)
    → Chain h que_ptr prev cs
    → ((a : Ptr) → prev < a → h'.nodes a ≡ h.nodes a)
    → h'.blocks ≡ h.blocks
    → h'.brk ≡ h.brk
    → Chain h' que_ptr prev cs
Chain-frame h h' que_ptr prev [] k same b e = tt
Chain-frame h h' que_ptr prev (c ∷ cs) (k, ks) same b e = (
  record {
    above = k.above;
    used = rw e k.used;
    block_used = rw e k.block_used;
    block_real = k.block_real;
    paired = k.paired;
    node_holds = rw (same c.node k.above) k.node_holds;
    block_holds = rw b k.block_holds;
  },
  Chain-frame h h' que_ptr c.node cs ks (λ a l. same a (omega (arith, k.above))) b e,
)

module _ (h : Heap) (que_ptr : Ptr) (q : Squeue) (d : SqData) where
  -- The memory after the only node is taken off.
  abbrev pub emptied : Heap
  emptied = record h {
    queues =
        update
          (update (update h.queues que_ptr (some (record q { top = null }))) que_ptr
            (some (record q { top = null; count = sub32 q.count 1 })))
          que_ptr (some (record q { top = null; last = null; count = sub32 q.count 1 }));
    nodes =
        update (update h.nodes q.top (some (record d { next = null; prev = null }))) q.top
          (some (record d { parent = null; next = null; prev = null }));
  }

  -- The memory after the first of several nodes is taken off; the next one is `e`.
  abbrev pub shifted : SqData → Heap
  shifted e = record h {
    queues =
        update (update h.queues que_ptr (some (record q { top = d.next }))) que_ptr
          (some (record q { top = d.next; count = sub32 q.count 1 }));
    nodes =
        update
          (update (update h.nodes d.next (some (record e { prev = null }))) q.top
            (some (record d { next = null; prev = null })))
          q.top (some (record d { parent = null; next = null; prev = null }));
  }

abbrev pub freed : Heap → Ptr → Heap
freed h p = record h { nodes = update h.nodes p none }

advance_top-null :
    (h : Heap) (que_ptr : Ptr) (q : Squeue)
    → que_ptr ≢ null
    → h.queues que_ptr ≡ some q
    → advance_top que_ptr null h
      ≡ done (tt, record h { queues = update h.queues que_ptr (some (record q { top = null })) })
unfolding advance_top load_queue modify_queue
advance_top-null h que_ptr q real hq = ground arith

advance_top-more :
    (h : Heap) (que_ptr next : Ptr) (q : Squeue) (e : SqData)
    → que_ptr ≢ null
    → h.queues que_ptr ≡ some q
    → next ≢ null
    → h.nodes next ≡ some e
    → advance_top que_ptr next h
      ≡ done (
        tt,
        record h {
          queues = update h.queues que_ptr (some (record q { top = next }));
          nodes = update h.nodes next (some (record e { prev = null }));
        },
      )
unfolding advance_top load_queue modify_queue load_node modify_node
advance_top-more h que_ptr next q e real hq n he = ground arith

count_down-zero :
    (h : Heap) (que_ptr : Ptr) (q : Squeue)
    → que_ptr ≢ null
    → h.queues que_ptr ≡ some q
    → sub32 q.count 1 ≡ 0
    → count_down que_ptr h
      ≡ done (
        tt,
        record h {
          queues =
              update
                (update h.queues que_ptr (some (record q { count = sub32 q.count 1 })))
                que_ptr
                (some (record q { top = null; last = null; count = sub32 q.count 1 }));
        },
      )
unfolding count_down load_queue modify_queue
count_down-zero h que_ptr q real hq z = ground arith

count_down-more :
    (h : Heap) (que_ptr : Ptr) (q : Squeue)
    → que_ptr ≢ null
    → h.queues que_ptr ≡ some q
    → sub32 q.count 1 ≢ 0
    → count_down que_ptr h
      ≡ done (
        tt,
        record h { queues = update h.queues que_ptr (some (record q { count = sub32 q.count 1 })) },
      )
unfolding count_down load_queue modify_queue
count_down-more h que_ptr q real hq z = ground arith

module _ (h : Heap) (que_ptr : Ptr) (q : Squeue) (d : SqData) (real : que_ptr ≢ null)
    (hq : h.queues que_ptr ≡ some q) (top : q.top ≢ null) (hd : h.nodes q.top ≡ some d)
    (own : d.parent ≡ que_ptr) where
  pub unlink_top-only :
      d.next ≡ null
      → sub32 q.count 1 ≡ 0
      → unlink_top que_ptr q.top h ≡ done (q.top, emptied h que_ptr q d)
  unfolding unlink_top load_node modify_node
  unlink_top-only e z =
      let h1 : Heap = record h {
        queues = update h.queues que_ptr (some (record q { top = null }));
      } in
      let h2 : Heap = record h1 {
        nodes = update h.nodes q.top (some (record d { next = null; prev = null }));
      } in
      ground (
        arith,
        advance_top-null h que_ptr q real hq,
        count_down-zero h2 que_ptr (record q { top = null }) real (ground arith) z,
      )

  pub unlink_top-more :
      (e : SqData)
      → d.next ≢ null
      → d.next ≢ q.top
      → h.nodes d.next ≡ some e
      → sub32 q.count 1 ≢ 0
      → unlink_top que_ptr q.top h ≡ done (q.top, shifted h que_ptr q d e)
  unfolding unlink_top load_node modify_node
  unlink_top-more e n ne he z =
      let h1 : Heap = record h {
        queues = update h.queues que_ptr (some (record q { top = d.next }));
        nodes = update h.nodes d.next (some (record e { prev = null }));
      } in
      let h2 : Heap = record h1 {
        nodes = update h1.nodes q.top (some (record d { next = null; prev = null }));
      } in
      ground (
        arith,
        advance_top-more h que_ptr d.next q e real hq n he,
        count_down-more h2 que_ptr (record q { top = d.next }) real (ground arith) z,
      )
