-- ===== src/Squeue/Fifo.antt =====
-- A queue from outside: what is put in comes out, in order.
use si_daq_api.Base.{
  ℕ, zero, suc, ◌+◌, ◌*◌, ◌<◌, ◌≤◌, ◌≡◌, ◌≢◌, refl, sym, ap, ◌∙◌, true, false, none, some, List, [],
  ◌∷◌, ◌++◌, append_assoc, append-nil, arith, Outcome, done, fault, out_of_fuel, ◌>>=◌, ◌^◌,
  Returns, returns, Returns-bind, Returns-mono, Returns-result, length, length-append, sub32,
  is_neg, ◌==◌,
}
use si_daq_api.Squeue.Memory.{Ptr, null, Heap, free_block}
use si_daq_api.Squeue.Chain.{Cell, Cells, IsQueue, payloads, payloads-append}
use si_daq_api.Squeue.Put.{sq_put-Stored}
use si_daq_api.Squeue.Get.{sq_get-Taken, sq_get_empty}
use si_daq_api.Squeue.Drain.{without_block, free_block-done, freed-IsQueue}
use si_daq_api.Squeue.{sq_put, sq_get}

-- A caller that puts the blocks, one by one.
unfoldable pub put_all : Ptr → List (List ℕ) → Heap → Outcome Heap
put_all que_ptr [] h = done h
put_all que_ptr (bytes ∷ blocks) h =
    sq_put que_ptr bytes (length bytes) h >>= λ r. put_all que_ptr blocks r.1

-- A caller that gets blocks until NULL, and reads and frees each.
unfoldable pub get_all : ℕ → Ptr → Heap → Outcome (List (List ℕ) × Heap)
get_all zero que_ptr h = out_of_fuel
get_all (suc fuel) que_ptr h = sq_get (λ h. h) que_ptr (sub32 0 1) false h >>= λ r.
    elim (r.0.0 == null) [
      | true ↦ done ([], r.1)
      | false ↦ elim (r.1.blocks r.0.0) [
        | none ↦ fault
        | some bytes ↦
            free_block r.0.0 r.1 >>= λ s. get_all fuel que_ptr s.1 >>= λ t. done (bytes ∷ t.0, t.1)
      ]
    ]

abbrev pub AllFit : List (List ℕ) → Type 0
AllFit [] = Unit {0}
AllFit (bytes ∷ blocks) = (length bytes < 2 ^ 31) × AllFit blocks

-- The queue holds the old blocks, then the new ones.
abbrev Holds : Ptr → Cells → List (List ℕ) → Heap → Type 0
Holds que_ptr cs blocks h =
    (ds : Cells) × IsQueue h que_ptr ds
    × (payloads ds ≡ payloads cs ++ blocks)
    × (length ds ≡ length cs + length blocks)

put_all-Holds :
    (blocks : List (List ℕ)) (h : Heap) (que_ptr : Ptr) (cs : Cells)
    → IsQueue h que_ptr cs
    → 2 * length blocks ≤ h.budget
    → AllFit blocks
    → length cs + length blocks < 2 ^ 31
    → Returns (Holds que_ptr cs blocks) (put_all que_ptr blocks h)
unfolding put_all
put_all-Holds [] h que_ptr cs v room fits small =
    returns (cs, v, sym (append-nil (payloads cs)), omega arith)
put_all-Holds (bytes ∷ blocks) h que_ptr cs v room fits small =
    Returns-bind (sq_put-Stored h que_ptr cs bytes v (omega arith) fits.0 (omega arith))
      λ (n, h') (counted, left, (c, same, w)).
        Returns-mono
          (put_all-Holds blocks h' que_ptr (cs ++ c ∷ []) w (omega arith) fits.1
            (omega (arith, length-append cs (c ∷ []))))
          λ h'' (ds, u, e, l). (
            ds,
            u,
            e
                ∙ ap (λ k. k ++ blocks)
                    (payloads-append cs (c ∷ []) ∙ ap (λ k. payloads cs ++ k ∷ []) same)
                ∙ append_assoc (payloads cs) (bytes ∷ []) blocks,
            omega (arith, l, length-append cs (c ∷ [])),
          )

get_all-step :
    (fuel : ℕ) (h h' : Heap) (que_ptr : Ptr) (c : Cell)
    → sq_get (λ h. h) que_ptr (sub32 0 1) false h ≡ done ((c.block, some (length c.bytes)), h')
    → c.block ≢ null
    → h'.blocks c.block ≡ some c.bytes
    → get_all (suc fuel) que_ptr h
      ≡ (get_all fuel que_ptr (without_block h' c.block) >>= λ t. done (c.bytes ∷ t.0, t.1))
unfolding get_all
get_all-step fuel h h' que_ptr c e real b =
    ground (arith, free_block-done h' c.block c.bytes real b)

pub get_all-payloads :
    (fuel : ℕ) (h : Heap) (que_ptr : Ptr) (cs : Cells)
    → IsQueue h que_ptr cs
    → length cs < fuel
    → Returns (λ (out, h'). (out ≡ payloads cs) × IsQueue h' que_ptr []) (get_all fuel que_ptr h)
unfolding get_all sub32 is_neg
get_all-payloads zero h que_ptr cs v f = absurd (omega arith)
get_all-payloads (suc fuel) h que_ptr [] v f =
    rw (sq_get_empty (λ h. h) h que_ptr (sub32 0 1) false v refl) (returns (refl, v))
get_all-payloads (suc fuel) h que_ptr (c ∷ cs) v f =
    let ((r, h'), e, t) = Returns-result (sq_get-Taken (λ h. h) h que_ptr c cs (sub32 0 1) v) in
    rw (get_all-step fuel h h' que_ptr c (ground (arith, e, t.0)) v.chain.0.block_real t.2) (
      Returns-bind
        (get_all-payloads fuel (without_block h' c.block) que_ptr cs
          (freed-IsQueue h h' que_ptr c cs v t.1) (omega arith))
        λ (out, h'') (same, w). returns (ap (◌∷◌ c.bytes) same, w))

-- On a well-formed queue, with the memory for them and less than 2 ^ 31 entries in the end: blocks
-- of less than 2 ^ 31 bytes that are put by `SQPut` come out by `SQGet`, behind the blocks that
-- were there, in order and unchanged; one call more answers NULL, and the queue is empty.
pub get_all-put_all :
    (blocks : List (List ℕ)) (h : Heap) (que_ptr : Ptr) (cs : Cells)
    → IsQueue h que_ptr cs
    → 2 * length blocks ≤ h.budget
    → AllFit blocks
    → length cs + length blocks < 2 ^ 31
    → Returns
        (λ (out, h'). (out ≡ payloads cs ++ blocks) × IsQueue h' que_ptr [])
        (put_all que_ptr blocks h >>= get_all (suc (length cs + length blocks)) que_ptr)
get_all-put_all blocks h que_ptr cs v room fits small =
    Returns-bind (put_all-Holds blocks h que_ptr cs v room fits small) λ h' (ds, w, e, l).
      Returns-mono
        (get_all-payloads (suc (length cs + length blocks)) h' que_ptr ds w (omega arith))
        λ (out, h'') (same, u). (same ∙ e, u)
