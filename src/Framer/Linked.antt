-- ===== src/Framer/Linked.antt =====
-- `RecvSiDaqData` over the linked queue of squeue.cpp does what it does over a list of entries.
use si_daq_api.Base.{
  ℕ, suc, ◌+◌, ◌*◌, ◌<◌, ◌≤◌, ◌^◌, ◌≡◌, refl, sym, ap, ap₂, ◌∙◌, subst, Option, some, List, [], ◌∷◌,
  ◌++◌, arith, Outcome, done, ◌>>=◌, Returns, returns, Returns-result, length, length-append,
}
use si_daq_api.Framer.{Framer, list_put, recv_data}
use si_daq_api.Framer.Stream.{feed}
use si_daq_api.Framer.Follows.{Follows, ends, Follows-done, Follows-bind, put_queue, with_put}
use si_daq_api.Framer.Follows.Calls.{recv_data-Follows}
use si_daq_api.Squeue.{sq_put}
use si_daq_api.Squeue.Memory.{Ptr, Heap}
use si_daq_api.Squeue.Chain.{Cells, IsQueue, payloads, payloads-append}
use si_daq_api.Squeue.Put.{sq_put-Stored}

-- The event queue in memory.
abbrev pub linked_put : Ptr → List ℕ → Heap → Outcome (Option ℕ × Heap)
linked_put que_ptr bytes h = sq_put que_ptr bytes (length bytes) h

-- Memory holds the queue of these entries.
pub record Stores (que_ptr : Ptr) (entries : List (List ℕ)) (h : Heap) : Type 0 where
  pub cells : Cells
  pub queue : IsQueue h que_ptr cells
  pub same : payloads cells ≡ entries

pub length-payloads : (cs : Cells) → length (payloads cs) ≡ length cs
length-payloads [] = refl
length-payloads (c ∷ cs) = ap suc (length-payloads cs)

module _ (que_ptr : Ptr) (total : ℕ) where
  -- `total` is what the allocator could give from the start, and what the entries took.
  abbrev Good : List (List ℕ) → Type 0
  Good q = (2 * length q ≤ total) × (length q < 2 ^ 31)

  abbrev Same : List (List ℕ) → Heap → Type 0
  Same q h = Stores que_ptr q h × (h.budget + 2 * length q ≡ total)

  linked_put-Same :
      (bytes : List ℕ) (q : List (List ℕ)) (h : Heap)
      → length bytes < 2 ^ 31
      → Good (q ++ bytes ∷ [])
      → Same q h
      → (h' : Heap) × (linked_put que_ptr bytes h ≡ done (some (length q + 1), h'))
        × Same (q ++ bytes ∷ []) h'
  linked_put-Same bytes q h small (room, few) (s, left) =
      let count : length s.cells ≡ length q = sym (length-payloads s.cells) ∙ ap length s.same in
      let more : length (q ++ bytes ∷ []) ≡ length q + 1 = length-append q (bytes ∷ []) in
      let ((n, h'), e, (counted, budget, (c, same, queue))) =
        Returns-result
          (sq_put-Stored h que_ptr s.cells bytes s.queue (omega arith) small (omega arith)) in
      (
        h',
        e ∙ ap (λ n. done (n, h')) (counted ∙ ap (λ n. some (n + 1)) count),
        (
          record {
            cells = s.cells ++ c ∷ [];
            queue = queue;
            same = payloads-append s.cells (c ∷ []) ∙ ap₂ (λ xs b. xs ++ b ∷ []) s.same same;
          },
          omega arith,
        ),
      )

  linked_put-Follows :
      (bytes : List ℕ) (q : List (List ℕ))
      → length bytes < 2 ^ 31
      → Follows Good Same put_queue with_put q (linked_put que_ptr bytes) (list_put bytes q)
  linked_put-Follows bytes q small = ends λ (room, few). (
    (omega (arith, length-append q (bytes ∷ [])), omega (arith, length-append q (bytes ∷ []))),
    λ h s. linked_put-Same bytes q h small (room, few) s,
  )

-- The calls for the blocks, over the queue in memory.
unfoldable pub feed_linked : Ptr → ℕ → Framer → List (List ℕ) → Heap → Outcome (Framer × Heap)
feed_linked que_ptr past f [] h = done (f, h)
feed_linked que_ptr past f (block ∷ blocks) h =
    recv_data (linked_put que_ptr) past f block (length block) h >>= λ r.
    feed_linked que_ptr past r.0 blocks r.1

abbrev run_queue : {Q : Type 0} → Framer × Q → Q
run_queue (f, q) = q

abbrev with_run : {Q Q' : Type 0} → Framer × Q → Q' → Framer × Q'
with_run (f, q) q' = (f, q')

feed-Follows :
    (que_ptr total past : ℕ) (f : Framer) (blocks : List (List ℕ)) (q : List (List ℕ))
    → Follows
        (Good que_ptr total)
        (Same que_ptr total)
        run_queue
        with_run
        q
        (feed_linked que_ptr past f blocks)
        (feed past f blocks q)
unfolding feed feed_linked
feed-Follows que_ptr total past f [] q = Follows-done (f, q)
feed-Follows que_ptr total past f (block ∷ blocks) q =
    Follows-bind (λ r. feed past r.0 blocks r.1) (λ r. feed_linked que_ptr past r.0 blocks r.1)
      (recv_data-Follows (Good que_ptr total) (Same que_ptr total) list_put (linked_put que_ptr)
        (linked_put-Follows que_ptr total) past f block (length block) q)
      λ (f', q', ret). feed-Follows que_ptr total past f' blocks q'

Follows-result :
    {Q Q' A B : Type 0} {Good : Q → Type 0} {Same : Q → Q' → Type 0} {queue : A → Q}
    {with_ : A → Q' → B} {q : Q} {run : Q' → Outcome B} {a : A}
    → Follows Good Same queue with_ q run (done a)
    → Good (queue a)
    → (q' : Q') → Same q q'
    → (q₁ : Q') × (run q' ≡ done (with_ a q₁)) × Same (queue a) q₁
Follows-result (ends f) g q' s = (f g).1 q' s

-- Let `RecvSiDaqData` answer a run of blocks over a list of entries. Over the linked queue in memory
-- that holds the same entries, and with memory for two allocations per new entry and less than
-- 2 ^ 31 entries in the end, the same calls return with the same framer, and leave a well-formed
-- queue of the same entries.
pub feed-Stores :
    (que_ptr past : ℕ) (f : Framer) (blocks : List (List ℕ)) (q : List (List ℕ)) (h : Heap)
    (f' : Framer) (q' : List (List ℕ))
    → feed past f blocks q ≡ done (f', q')
    → Stores que_ptr q h
    → 2 * length q' ≤ h.budget + 2 * length q
    → length q' < 2 ^ 31
    → Returns (λ (f₁, h₁). (f₁ ≡ f') × Stores que_ptr q' h₁) (feed_linked que_ptr past f blocks h)
feed-Stores que_ptr past f blocks q h f' q' e s room few =
    let total = h.budget + 2 * length q in
    let (h₁, e₁, (s₁, left)) =
      Follows-result
        (subst
          (Follows (Good que_ptr total) (Same que_ptr total) run_queue with_run q
            (feed_linked que_ptr past f blocks))
          e (feed-Follows que_ptr total past f blocks q))
        (room, few) h (s, refl) in
    rw e₁ (returns (refl, s₁))
