-- ===== src/Squeue.antt =====
-- SiDaqApi/squeue_c/squeue.cpp and squeue.h: the linked queue of data blocks. The lock is held
-- over a whole call, so a call is atomic; whether `WAIT_LOCK` times out is an argument, and so is
-- what other threads do to the memory while `SQGet` sleeps.
pub mod Chain
pub mod Link
pub mod Unlink
pub mod Drain
pub mod Fifo
pub mod Get
pub mod Iterate
pub mod Memory
pub mod Put
use Memory.{
  Ptr, null, SqData, Squeue, Heap, Cmd, pure, ◌>>=◌, ◌>>◌, crash, malloc, load_node, store_node,
  modify_node, free_node, load_queue, store_queue, modify_queue, store_block, free_block,
}
use si_daq_api.Base.{
  ℕ, zero, suc, ◌<◌, Bool, true, false, not, ◌||◌, ◌&&◌, Option, none, some, List, Outcome, done,
  fault, out_of_fuel, ◌==◌, ltb, if◌then◌else◌, length, take, add32, sub32, is_neg, slt,
}

-- `memcpy` of `size` bytes into the block at `block`, out of the bytes `src`.
copy_block : Ptr → List ℕ → ℕ → Cmd (Unit {0})
copy_block block src size =
    if is_neg size || ltb (length src) size || ((block == null) && not (size == 0))
    then crash
    else store_block block (some (take size src))

-- The bytes behind `data_ptr` are `src`. `NULL` from the first `malloc` is written to at once.
pub new_sq_data : Ptr → List ℕ → ℕ → Bool → Cmd Ptr
unfolding copy_block
new_sq_data data_ptr src size copy_data = do
  sd_ptr ← malloc
  if sd_ptr == null then crash else do
    store_node sd_ptr
        (some (record { parent = null; next = null; prev = null; size = size; data_ptr = null }))
    if copy_data
        then (do
          block ← malloc
          modify_node sd_ptr (λ d. record d { data_ptr = block })
          copy_block block src size
          pure sd_ptr)
        else (do modify_node sd_ptr (λ d. record d { data_ptr = data_ptr }); pure sd_ptr)

-- `DeleteSQData`: a node that is still linked, or has no data, is kept (the source prints an error).
pub delete_sq_data : Ptr → Cmd (Unit {0})
delete_sq_data sd_ptr = if sd_ptr == null then pure tt else do
  d ← load_node sd_ptr
  if not (d.data_ptr == null) && (d.next == null) && (d.prev == null)
      then free_node sd_ptr
      else pure tt

-- `NewSQueue`; a mutex handle is an address of its own.
pub new_squeue : Cmd Ptr
new_squeue = do
  que_ptr ← malloc
  if que_ptr == null then crash else do
    lock ← malloc
    store_queue que_ptr (some (record { top = null; last = null; lock = lock; count = 0 }))
    pure que_ptr

-- `_sque_put`
pub sque_put : Ptr → Ptr → Cmd ℕ
sque_put que_ptr sd_ptr = do
  q ← load_queue que_ptr
  modify_queue que_ptr (λ q. record q { last = sd_ptr })
  modify_node sd_ptr (λ d. record d { parent = que_ptr; prev = q.last })
  if q.last == null then pure tt else modify_node q.last (λ d. record d { next = sd_ptr })
  if q.top == null then modify_queue que_ptr (λ q. record q { top = sd_ptr }) else pure tt
  modify_queue que_ptr (λ q. record q { count = add32 q.count 1 })
  q ← load_queue que_ptr
  pure q.count

-- `que_ptr->_top = pRet->_next; if (que_ptr->_top) que_ptr->_top->_prev = NULL;`
advance_top : Ptr → Ptr → Cmd (Unit {0})
advance_top que_ptr next = do
  modify_queue que_ptr (λ q. record q { top = next })
  if next == null then pure tt else modify_node next (λ e. record e { prev = null })

-- `que_ptr->_count -= 1`, and an emptied queue forgets its ends.
count_down : Ptr → Cmd (Unit {0})
count_down que_ptr = do
  modify_queue que_ptr (λ q. record q { count = sub32 q.count 1 })
  q ← load_queue que_ptr
  if q.count == 0 then modify_queue que_ptr (λ q. record q { top = null; last = null }) else pure tt

-- The part of `_sque_get` that takes the node `ret` off the top.
pub unlink_top : Ptr → Ptr → Cmd Ptr
unlink_top que_ptr ret = do
  d ← load_node ret
  if not (d.parent == que_ptr) then crash else do
    advance_top que_ptr d.next
    modify_node ret (λ e. record e { next = null; prev = null })
    count_down que_ptr
    modify_node ret (λ e. record e { parent = null })
    pure ret

-- `_sque_get`; `timed_out` is the answer of `WAIT_LOCK`, asked for only if `wait_msec` is not
-- negative.
pub sque_get : Ptr → ℕ → Bool → Cmd Ptr
unfolding unlink_top advance_top count_down
sque_get que_ptr wait_msec timed_out = do
  q ← load_queue que_ptr
  if q.count == 0
      then pure null
      else if not (is_neg wait_msec) && timed_out
      then pure null
      else if q.top == null
      then pure null
      else unlink_top que_ptr q.top

-- `SQPut`: the new count, or `none` for the negative result.
pub sq_put : Ptr → List ℕ → ℕ → Cmd (Option ℕ)
unfolding new_sq_data sque_put
sq_put que_ptr src size = do
  sd_ptr ← new_sq_data null src size true
  if sd_ptr == null
      then pure none
      else do sque_put que_ptr sd_ptr; q ← load_queue que_ptr; pure (some q.count)

module _ (sleep : Heap → Heap) where
  -- The loop of `SQGet`: the milliseconds that are left when it ends.
  wait_loop : Ptr → ℕ → Cmd ℕ
  wait_loop que_ptr zero = pure zero
  wait_loop que_ptr (suc zero) = pure (suc zero)
  wait_loop que_ptr (suc (suc n)) = load_queue que_ptr >>= λ q h. elim (slt 0 q.count) [
    | true ↦ done (suc (suc n), h)
    | false ↦ wait_loop que_ptr (suc n) (sleep h)
  ]

  -- `SQGet` with `data_size` not NULL: the data pointer, and what it writes to `*data_size`
  -- (`none` where it writes nothing). The size -2 is its word.
  pub sq_get : Ptr → ℕ → Bool → Cmd (Ptr × Option ℕ)
  unfolding wait_loop sque_get delete_sq_data
  sq_get que_ptr wait_msec timed_out = if que_ptr == null then pure (null, none) else do
    wait_msec ← if is_neg wait_msec then pure wait_msec else wait_loop que_ptr wait_msec
    q ← load_queue que_ptr
    if not (slt 0 q.count) then pure (null, some 0) else do
      sd_ptr ← sque_get que_ptr wait_msec timed_out
      if sd_ptr == null
          then pure (null, some (if is_neg wait_msec then sub32 0 2 else 0))
          else (do d ← load_node sd_ptr; delete_sq_data sd_ptr; pure (d.data_ptr, some d.size))

-- The loop that `DeleteSQueue` and `SiDaqResetQueue` run: `SQGet` with a negative wait until it
-- answers NULL, freeing what it answers.
pub drain : ℕ → Ptr → Cmd (Unit {0})
unfolding sq_get
drain zero que_ptr = λ _. out_of_fuel
drain (suc fuel) que_ptr = sq_get (λ h. h) que_ptr (sub32 0 1) false >>= λ r h. elim (r.0 == null) [
  | true ↦ done (tt, h)
  | false ↦ (free_block r.0 >> drain fuel que_ptr) h
]

-- `DeleteSQueue`; `count + 1` rounds of the loop are enough.
pub delete_squeue : ℕ → Ptr → Cmd (Unit {0})
unfolding drain
delete_squeue fuel que_ptr = if que_ptr == null then pure tt else do
  q ← load_queue que_ptr
  if q.lock == null
      then pure tt
      else do drain fuel que_ptr; load_queue que_ptr; store_queue que_ptr none
