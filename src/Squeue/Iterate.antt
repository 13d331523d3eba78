-- ===== src/Squeue/Iterate.antt =====
-- SiDaqApi/squeue_c/squeue.cpp, `SQDataNext` and `SQDataPtr`: a queue is read without taking
-- anything out.
use si_daq_api.Base.{
  ℕ, zero, suc, ◌<◌, ◌≡◌, ◌≢◌, refl, ◌∙◌, Bool, true, false, not, ◌||◌, Option, none, some, List,
  [], ◌∷◌, arith, done, fault, out_of_fuel, length, take, ◌==◌, ltb, take_all, if◌then◌else◌,
}
use si_daq_api.Squeue.Memory.{
  Ptr, null, SqData, Squeue, Heap, Cmd, pure, ◌>>=◌, ◌>>◌, crash, load_node, load_queue,
}
use si_daq_api.Squeue.Chain.{Cell, Cells, Chain, IsQueue, first, final, payloads}

-- `SASSERT(sd_ptr->_parent == que_ptr)`, then the node.
owned_node : Ptr → Ptr → Cmd SqData
owned_node que_ptr sd_ptr = do d ← load_node sd_ptr; if d.parent == que_ptr then pure d else crash

-- `SQDataNext`
pub sq_data_next : Ptr → Ptr → Cmd Ptr
unfolding owned_node
sq_data_next que_ptr prev = if que_ptr == null then pure null else do
  q ← load_queue que_ptr
  if q.count == 0 then pure null else do
    ret ← if prev == null then pure q.top else (do d ← owned_node que_ptr prev; pure d.next)
    if ret == null then pure null else (do owned_node que_ptr ret; pure ret)

-- `SQDataPtr`, and what it writes to `*data_size`; `sized` says that `data_size` is not NULL.
pub sq_data_ptr : Ptr → Bool → Cmd (Ptr × Option ℕ)
sq_data_ptr sd_ptr sized =
    if sd_ptr == null || not sized
    then pure (null, none)
    else do d ← load_node sd_ptr; pure (d.data_ptr, some d.size)

-- The bytes that a caller reads behind an answer of `SQDataPtr`.
read_block : Ptr × Option ℕ → Cmd (List ℕ)
read_block (data_ptr, none) h = fault
read_block (data_ptr, some size) h = elim (h.blocks data_ptr) [
  | none ↦ fault
  | some bytes ↦ if ltb (length bytes) size then fault else done (take size bytes, h)
]

-- A caller that goes on from `prev` until NULL.
pub read_all : ℕ → Ptr → Ptr → Cmd (List (List ℕ))
unfolding sq_data_next sq_data_ptr read_block
read_all zero que_ptr prev = λ _. out_of_fuel
read_all (suc fuel) que_ptr prev = sq_data_next que_ptr prev >>= λ sd_ptr h. elim (sd_ptr == null) [
  | true ↦ done ([], h)
  | false ↦
      (do
        r ← sq_data_ptr sd_ptr true
        bytes ← read_block r
        rest ← read_all fuel que_ptr sd_ptr
        pure (bytes ∷ rest))
        h
]

module _ (h : Heap) (que_ptr : Ptr) where
  owned_node-done :
      (p : Ptr) (d : SqData)
      → p ≢ null
      → h.nodes p ≡ some d
      → d.parent ≡ que_ptr
      → owned_node que_ptr p h ≡ done (d, h)
  unfolding owned_node load_node
  owned_node-done p d real hd own = ground arith

  next_none :
      (prev : Ptr) (d : SqData) (q : Squeue)
      → que_ptr ≢ null
      → h.queues que_ptr ≡ some q
      → prev ≢ null
      → h.nodes prev ≡ some d
      → d.parent ≡ que_ptr
      → d.next ≡ null
      → sq_data_next que_ptr prev h ≡ done (null, h)
  unfolding sq_data_next load_queue
  next_none prev d q real hq p hd own n = ground (arith, owned_node-done prev d p hd own)

  next_some :
      (prev : Ptr) (d e : SqData) (q : Squeue)
      → que_ptr ≢ null
      → h.queues que_ptr ≡ some q
      → q.count ≢ 0
      → prev ≢ null
      → h.nodes prev ≡ some d
      → d.parent ≡ que_ptr
      → d.next ≢ null
      → h.nodes d.next ≡ some e
      → e.parent ≡ que_ptr
      → sq_data_next que_ptr prev h ≡ done (d.next, h)
  unfolding sq_data_next load_queue
  next_some prev d e q real hq full p hd own n he own' =
      ground (arith, owned_node-done prev d p hd own, owned_node-done d.next e n he own')

  next_top :
      (e : SqData) (q : Squeue)
      → que_ptr ≢ null
      → h.queues que_ptr ≡ some q
      → q.count ≢ 0
      → q.top ≢ null
      → h.nodes q.top ≡ some e
      → e.parent ≡ que_ptr
      → sq_data_next que_ptr null h ≡ done (q.top, h)
  unfolding sq_data_next load_queue
  next_top e q real hq full n he own = ground (arith, owned_node-done q.top e n he own)

  next-first :
      (q : Squeue) (prev : Ptr) (c : Cell) (cs : Cells)
      → que_ptr ≢ null
      → h.queues que_ptr ≡ some q
      → q.count ≢ 0
      → Chain h que_ptr prev (c ∷ cs)
      → sq_data_next que_ptr c.node h ≡ done (first cs, h)
  next-first q prev c [] real hq full (k, _) =
      next_none c.node _ q real hq (omega (arith, k.above)) k.node_holds refl refl
  next-first q prev c (d ∷ cs) real hq full (k, (k', _)) =
      next_some c.node _ _ q real hq full (omega (arith, k.above)) k.node_holds refl
        (omega (arith, k'.above)) k'.node_holds refl

  read_all-step :
      (fuel : ℕ) (prev : Ptr) (c : Cell) (d : SqData)
      → sq_data_next que_ptr prev h ≡ done (c.node, h)
      → c.node ≢ null
      → h.nodes c.node ≡ some d
      → d.size ≡ length c.bytes
      → h.blocks d.data_ptr ≡ some c.bytes
      → read_all (suc fuel) que_ptr prev h
        ≡ (read_all fuel que_ptr c.node >>= λ rest. pure (c.bytes ∷ rest)) h
  unfolding read_all sq_data_ptr read_block load_node
  read_all-step fuel prev c d e real hd size hb =
      ground (arith, take_all (length c.bytes) c.bytes (omega arith))

  read_all-Chain :
      (q : Squeue) (fuel : ℕ) (prev : Ptr) (cs : Cells)
      → que_ptr ≢ null
      → h.queues que_ptr ≡ some q
      → q.count ≢ 0
      → Chain h que_ptr prev cs
      → sq_data_next que_ptr prev h ≡ done (first cs, h)
      → length cs < fuel
      → read_all fuel que_ptr prev h ≡ done (payloads cs, h)
  unfolding read_all
  read_all-Chain q zero prev cs real hq full k e f = absurd (omega arith)
  read_all-Chain q (suc fuel) prev [] real hq full k e f = ground arith
  read_all-Chain q (suc fuel) prev (c ∷ cs) real hq full k e f =
      read_all-step fuel prev c _ e (omega (arith, k.0.above)) k.0.node_holds refl k.0.block_holds
      ∙ rw
          (read_all-Chain q fuel c.node cs real hq full k.1 (next-first q prev c cs real hq full k)
            (omega arith))
          refl

-- On a well-formed queue, a caller that starts from NULL and goes on with `SQDataNext` until NULL
-- reads the data of all entries by `SQDataPtr`, in the order in which `SQGet` would answer them;
-- the memory is left as it was, and one call more than there are entries is enough.
pub read_all-payloads :
    (fuel : ℕ) (h : Heap) (que_ptr : Ptr) (cs : Cells)
    → IsQueue h que_ptr cs
    → length cs < fuel
    → read_all fuel que_ptr null h ≡ done (payloads cs, h)
unfolding read_all sq_data_next load_queue
read_all-payloads zero h que_ptr cs v f = absurd (omega arith)
read_all-payloads (suc fuel) h que_ptr [] v f = ground (arith, v.real, v.holds)
read_all-payloads (suc fuel) h que_ptr (c ∷ cs) v f =
    let q : Squeue = record {
      top = c.node;
      last = final c.node cs;
      lock = v.lock;
      count = suc (length cs);
    } in
    let k = v.chain.0 in
    read_all-Chain h que_ptr q (suc fuel) null (c ∷ cs) v.real v.holds (omega arith) v.chain
      (next_top h que_ptr _ q v.real v.holds (omega arith) (omega (arith, k.above)) k.node_holds
        refl)
      f
