-- ===== src/Squeue/Put.antt =====
-- `SQPut` on a well-formed queue.
use si_daq_api.Base.{
  ℕ, suc, ap, ◌+◌, ◌-◌, ◌<◌, ◌≤◌, ◌≡◌, refl, ◌^◌, true, Option, some, List, [], ◌∷◌, ◌++◌, arith,
  done, fault, Returns, returns, length, length-append, take_all, add32, add32_exact,
}
use si_daq_api.Squeue.Memory.{Ptr, null, SqData, Squeue, Heap}
use si_daq_api.Squeue.Chain.{
  Cell, Cells, final, IsQueue, Extends, Chain-extend, final-lt, final-append, final_real, last_node,
}
use si_daq_api.Squeue.{sque_put, sq_put}
use si_daq_api.Squeue.Link.{
  with_node, new_sq_data-fault, put_on_empty, put_behind, sque_put-empty, sque_put-behind,
  sq_put-done, new_cell, bare,
}

-- What `SQPut` promises on a queue that holds `cs`.
abbrev pub Stored : Heap → Ptr → Cells → List ℕ → Option ℕ × Heap → Type 0
Stored h que_ptr cs src (n, h') =
    (n ≡ some (length cs + 1))
    × (h'.budget ≡ h.budget - 2)
    × ((c : Cell) × (c.bytes ≡ src) × IsQueue h' que_ptr (cs ++ c ∷ []))

module _ (h : Heap) (que_ptr : Ptr) (src : List ℕ) (room : 2 ≤ h.budget)
    (fits : length src < 2 ^ 31) where
  Extends-empty :
      (q : Squeue)
      → 0 < h.brk
      → q.last ≡ null
      → Extends h
          (put_on_empty (with_node h src (length src)) que_ptr h.brk q (bare h src))
          que_ptr
          null
          (new_cell h src)
  Extends-empty q p e = record {
    same = λ a l n. ground arith;
    linked = λ d z. absurd (omega arith);
    blocks_same = λ b l. ground arith;
    fresh = omega arith;
    grows = omega arith;
    cell = record {
      above = p;
      used = omega arith;
      block_used = omega arith;
      block_real = omega arith;
      paired = refl;
      node_holds = ground arith;
      block_holds = ground (arith, take_all (length src) src);
    };
  }

  Extends-behind :
      (q : Squeue) (l : SqData)
      → 0 < h.brk
      → q.last < h.brk
      → h.nodes q.last ≡ some l
      → 0 < q.last
      → Extends h
          (put_behind (with_node h src (length src)) que_ptr h.brk q (bare h src) l)
          que_ptr
          q.last
          (new_cell h src)
  Extends-behind q l p lt hl z = record {
    same = λ a l n. ground arith;
    linked = λ d z. ground arith;
    blocks_same = λ b l. ground arith;
    fresh = omega arith;
    grows = omega arith;
    cell = record {
      above = lt;
      used = omega arith;
      block_used = omega arith;
      block_real = omega arith;
      paired = refl;
      node_holds = ground arith;
      block_holds = ground (arith, take_all (length src) src);
    };
  }

  sq_put-Stored_empty :
      IsQueue h que_ptr [] → Returns (Stored h que_ptr [] src) (sq_put que_ptr src (length src) h)
  sq_put-Stored_empty v =
      let q : Squeue = record { top = null; last = null; lock = v.lock; count = 0 } in
      let e : sque_put que_ptr h.brk (with_node h src (length src))
          ≡ done (
            add32 0 1,
            put_on_empty (with_node h src (length src)) que_ptr h.brk q (bare h src),
          ) =
        sque_put-empty (with_node h src (length src)) que_ptr h.brk q (bare h src) v.real
          (omega (arith, v.brk_pos)) v.holds (ground arith) refl refl in
      rw
        (sq_put-done h _ que_ptr src v.brk_pos room fits _
          (record q { top = h.brk; last = h.brk; count = add32 0 1 }) e v.real (ground arith))
        (returns (
          ap some (add32_exact 0 1 (omega arith)),
          omega arith,
          (
            new_cell h src,
            refl,
            record {
              real = v.real;
              brk_pos = omega (arith, v.brk_pos);
              lock = v.lock;
              holds = ground (arith, add32_exact 0 1);
              small = omega arith;
              chain = Chain-extend (Extends-empty q v.brk_pos refl) null [] refl tt;
            },
          ),
        ))

  sq_put-Stored_behind :
      (c : Cell) (cs : Cells)
      → IsQueue h que_ptr (c ∷ cs)
      → length cs + 2 < 2 ^ 31
      → Returns (Stored h que_ptr (c ∷ cs) src) (sq_put que_ptr src (length src) h)
  sq_put-Stored_behind c cs v small =
      let q : Squeue = record {
        top = c.node;
        last = final c.node cs;
        lock = v.lock;
        count = suc (length cs);
      } in
      let (l, hl) = last_node h que_ptr null c cs v.chain in
      let lt = final-lt h que_ptr null (c ∷ cs) v.brk_pos v.chain in
      let z = final_real h que_ptr null c cs v.chain in
      let e : sque_put que_ptr h.brk (with_node h src (length src))
          ≡ done (
            add32 (suc (length cs)) 1,
            put_behind (with_node h src (length src)) que_ptr h.brk q (bare h src) l,
          ) =
        sque_put-behind (with_node h src (length src)) que_ptr h.brk q (bare h src) v.real
          (omega (arith, v.brk_pos)) v.holds (ground arith) l (omega arith)
          (omega (arith, v.chain.0.above)) (omega arith) (ground arith) in
      rw
        (sq_put-done h _ que_ptr src v.brk_pos room fits _
          (record q { last = h.brk; count = add32 (suc (length cs)) 1 }) e v.real (ground arith))
        (returns (
          ap some (add32_exact (suc (length cs)) 1 (omega arith)),
          omega arith,
          (
            new_cell h src,
            refl,
            record {
              real = v.real;
              brk_pos = omega (arith, v.brk_pos);
              lock = v.lock;
              holds = ground (
                arith,
                add32_exact (suc (length cs)) 1,
                final-append c.node cs (new_cell h src),
                length-append cs (new_cell h src ∷ []),
              );
              small = omega (arith, length-append cs (new_cell h src ∷ []));
              chain =
                  Chain-extend (Extends-behind q l v.brk_pos lt hl z) null (c ∷ cs) refl v.chain;
            },
          ),
        ))

-- On a well-formed queue of less than 2 ^ 31 - 1 entries, with memory for a node and a block,
-- `SQPut` of less than 2 ^ 31 bytes adds a copy of them at the end, leaves the queue well formed,
-- and answers the new count.
pub sq_put-Stored :
    (h : Heap) (que_ptr : Ptr) (cs : Cells) (src : List ℕ)
    → IsQueue h que_ptr cs
    → 2 ≤ h.budget
    → length src < 2 ^ 31
    → length cs + 1 < 2 ^ 31
    → Returns (Stored h que_ptr cs src) (sq_put que_ptr src (length src) h)
sq_put-Stored h que_ptr [] src v room fits small = sq_put-Stored_empty h que_ptr src room fits v
sq_put-Stored h que_ptr (c ∷ cs) src v room fits small =
    sq_put-Stored_behind h que_ptr src room fits c cs v (omega arith)

-- Without memory for the node, `SQPut` writes through NULL.
pub sq_put-fault :
    (h : Heap) (que_ptr : Ptr) (src : List ℕ) (size : ℕ)
    → h.budget ≡ 0
    → sq_put que_ptr src size h ≡ fault
unfolding sq_put
sq_put-fault h que_ptr src size e = rw (new_sq_data-fault h null src size true e)
