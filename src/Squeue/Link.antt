-- ===== src/Squeue/Link.antt =====
-- `NewSQData` and `_sque_put` step by step: a new node, and its links.
use si_daq_api.Base.{
  ℕ, ◌+◌, ◌-◌, ◌<◌, ◌≤◌, ◌≡◌, ◌≢◌, refl, ◌^◌, Bool, true, some, List, arith, done, fault, length,
  take, add32, is_neg-false,
}
use si_daq_api.Squeue.Memory.{
  Ptr, null, SqData, Squeue, Heap, update, malloc, load_node, modify_node, load_queue, modify_queue,
}
use si_daq_api.Squeue.Chain.{Cell}
use si_daq_api.Squeue.{new_sq_data, sque_put, sq_put}

-- The memory after `NewSQData` of a copy.
abbrev pub with_node : Heap → List ℕ → ℕ → Heap
with_node h src size = record h {
  nodes =
      update
        (update h.nodes h.brk
          (some (record { parent = null; next = null; prev = null; size = size; data_ptr = null })))
        h.brk
        (some
          (record { parent = null; next = null; prev = null; size = size; data_ptr = h.brk + 1 }));
  blocks = update h.blocks (h.brk + 1) (some (take size src));
  brk = h.brk + 1 + 1;
  budget = h.budget - 1 - 1;
}

new_sq_data-done :
    (h : Heap) (src : List ℕ) (size : ℕ)
    → 0 < h.brk
    → 2 ≤ h.budget
    → size ≡ length src
    → size < 2 ^ 31
    → new_sq_data null src size true h ≡ done (h.brk, with_node h src size)
unfolding new_sq_data malloc modify_node load_node
new_sq_data-done h src size p b e s = ground (arith, is_neg-false size)

-- With no memory left for the node, its first assignment goes through NULL.
pub new_sq_data-fault :
    (h : Heap) (data_ptr : Ptr) (src : List ℕ) (size : ℕ) (copy_data : Bool)
    → h.budget ≡ 0
    → new_sq_data data_ptr src size copy_data h ≡ fault
unfolding new_sq_data malloc
new_sq_data-fault h data_ptr src size copy_data e = ground arith

module _ (h : Heap) (que_ptr sd_ptr : Ptr) (q : Squeue) (d : SqData) where
  abbrev pub put_on_empty : Heap
  put_on_empty = record h {
    queues =
        update
          (update (update h.queues que_ptr (some (record q { last = sd_ptr }))) que_ptr
            (some (record q { top = sd_ptr; last = sd_ptr })))
          que_ptr (some (record q { top = sd_ptr; last = sd_ptr; count = add32 q.count 1 }));
    nodes = update h.nodes sd_ptr (some (record d { parent = que_ptr; prev = q.last }));
  }

  abbrev pub put_behind : SqData → Heap
  put_behind l = record h {
    queues =
        update (update h.queues que_ptr (some (record q { last = sd_ptr }))) que_ptr
          (some (record q { last = sd_ptr; count = add32 q.count 1 }));
    nodes =
        update (update h.nodes sd_ptr (some (record d { parent = que_ptr; prev = q.last }))) q.last
          (some (record l { next = sd_ptr }));
  }

module _ (h : Heap) (que_ptr sd_ptr : Ptr) (q : Squeue) (d : SqData) (real : que_ptr ≢ null)
    (sd_real : sd_ptr ≢ null) (hq : h.queues que_ptr ≡ some q) (hd : h.nodes sd_ptr ≡ some d) where
  pub sque_put-empty :
      q.last ≡ null
      → q.top ≡ null
      → sque_put que_ptr sd_ptr h ≡ done (add32 q.count 1, put_on_empty h que_ptr sd_ptr q d)
  unfolding sque_put load_queue modify_queue load_node modify_node
  sque_put-empty e t = ground arith

  pub sque_put-behind :
      (l : SqData)
      → q.last ≢ null
      → q.top ≢ null
      → q.last ≢ sd_ptr
      → h.nodes q.last ≡ some l
      → sque_put que_ptr sd_ptr h ≡ done (add32 q.count 1, put_behind h que_ptr sd_ptr q d l)
  unfolding sque_put load_queue modify_queue load_node modify_node
  sque_put-behind l e t ne hl = ground arith

module _ (h h' : Heap) (que_ptr : Ptr) (src : List ℕ) (pos : 0 < h.brk) (room : 2 ≤ h.budget)
    (fits : length src < 2 ^ 31) where
  pub sq_put-done :
      (n : ℕ) (q : Squeue)
      → sque_put que_ptr h.brk (with_node h src (length src)) ≡ done (n, h')
      → que_ptr ≢ null
      → h'.queues que_ptr ≡ some q
      → sq_put que_ptr src (length src) h ≡ done (some q.count, h')
  unfolding sq_put load_queue
  sq_put-done n q e real hq =
      rw (new_sq_data-done h src (length src) pos room refl fits) (ground arith)

abbrev pub new_cell : Heap → List ℕ → Cell
new_cell h src = record { node = h.brk; block = h.brk + 1; bytes = src }

abbrev pub bare : Heap → List ℕ → SqData
bare h src = record {
  parent = null;
  next = null;
  prev = null;
  size = length src;
  data_ptr = h.brk + 1;
}
