-- ===== src/Squeue/Chain.antt =====
-- When memory holds a well-formed queue: doubly linked nodes, each owned by the queue, whose
-- addresses rise from the top to the last.
use si_daq_api.Base.{
  ℕ, ◌+◌, ◌<◌, ◌≤◌, ◌≡◌, ◌≢◌, refl, ap, ◌^◌, some, List, [], ◌∷◌, ◌++◌, arith, length,
}
use si_daq_api.Squeue.Memory.{Ptr, null, SqData, Heap}

-- A node of the queue, its block and the bytes in it.
pub record Cell : Type 0 where
  pub node : Ptr
  pub block : Ptr
  pub bytes : List ℕ

abbrev pub Cells : Type 0
Cells = List Cell

abbrev pub first : Cells → Ptr
first [] = null
first (c ∷ cs) = c.node

abbrev pub final : Ptr → Cells → Ptr
final prev [] = prev
final prev (c ∷ cs) = final c.node cs

abbrev pub payloads : Cells → List (List ℕ)
payloads [] = []
payloads (c ∷ cs) = c.bytes ∷ payloads cs

abbrev pub sq_data : Ptr → Cell → Ptr → Ptr → SqData
sq_data que_ptr c next prev = record {
  parent = que_ptr;
  next = next;
  prev = prev;
  size = length c.bytes;
  data_ptr = c.block;
}

pub record IsCell (h : Heap) (que_ptr prev next : Ptr) (c : Cell) : Type 0 where
  pub above : prev < c.node
  pub used : c.node < h.brk
  pub block_used : c.block < h.brk
  pub block_real : c.block ≢ null
  -- `NewSQData` asks for the block right after the node.
  pub paired : c.block ≡ c.node + 1
  pub node_holds : h.nodes c.node ≡ some (sq_data que_ptr c next prev)
  pub block_holds : h.blocks c.block ≡ some c.bytes

-- From `prev` on, the nodes `cs` are linked both ways.
abbrev pub Chain : Heap → Ptr → Ptr → Cells → Type 0
Chain h que_ptr prev [] = Unit {0}
Chain h que_ptr prev (c ∷ cs) = IsCell h que_ptr prev (first cs) c × Chain h que_ptr c.node cs

pub record IsQueue (h : Heap) (que_ptr : Ptr) (cs : Cells) : Type 0 where
  pub real : que_ptr ≢ null
  pub brk_pos : 0 < h.brk
  pub lock : Ptr
  pub holds :
      h.queues que_ptr
      ≡ some (record { top = first cs; last = final null cs; lock = lock; count = length cs })
  pub small : length cs < 2 ^ 31
  pub chain : Chain h que_ptr null cs

module _ (h : Heap) (que_ptr : Ptr) where
  pub final-ge : (prev : Ptr) (cs : Cells) → Chain h que_ptr prev cs → prev ≤ final prev cs
  final-ge prev [] k = omega arith
  final-ge prev (c ∷ cs) k = omega (arith, final-ge c.node cs k.1, k.0.above)

  pub final-lt :
      (prev : Ptr) (cs : Cells) → prev < h.brk → Chain h que_ptr prev cs → final prev cs < h.brk
  final-lt prev [] p k = p
  final-lt prev (c ∷ cs) p k = final-lt c.node cs k.0.used k.1

  pub final_real :
      (prev : Ptr) (c : Cell) (cs : Cells) → Chain h que_ptr prev (c ∷ cs) → 0 < final prev (c ∷ cs)
  final_real prev c cs k = omega (arith, final-ge c.node cs k.1, k.0.above)

  pub last_node :
      (prev : Ptr) (c : Cell) (cs : Cells)
      → Chain h que_ptr prev (c ∷ cs)
      → (d : SqData) × (h.nodes (final prev (c ∷ cs)) ≡ some d)
  last_node prev c [] k = (_, k.0.node_holds)
  last_node prev c (d ∷ cs) k = last_node c.node d cs k.1

pub payloads-append : (cs ds : Cells) → payloads (cs ++ ds) ≡ payloads cs ++ payloads ds
payloads-append [] ds = refl
payloads-append (c ∷ cs) ds = ap (◌∷◌ c.bytes) (payloads-append cs ds)

pub final-append : (prev : Ptr) (cs : Cells) (c : Cell) → final prev (cs ++ c ∷ []) ≡ c.node
final-append prev [] c = refl
final-append prev (d ∷ cs) c = final-append d.node cs c

-- `h'` is `h` with the cell `c` added behind the node `last`.
pub record Extends (h h' : Heap) (que_ptr last : Ptr) (c : Cell) : Type 0 where
  pub same : (a : Ptr) → a < h.brk → a ≢ last → h'.nodes a ≡ h.nodes a
  pub linked :
      (d : SqData)
      → 0 < last
      → h.nodes last ≡ some d
      → h'.nodes last ≡ some (record d { next = c.node })
  pub blocks_same : (b : Ptr) → b < h.brk → h'.blocks b ≡ h.blocks b
  pub fresh : h.brk ≤ c.node
  pub grows : h.brk ≤ h'.brk
  pub cell : IsCell h' que_ptr last null c

module _ {h h' : Heap} {que_ptr last : Ptr} {c : Cell} (x : Extends h h' que_ptr last c) where
  pub Chain-extend :
      (prev : Ptr) (cs : Cells)
      → final prev cs ≡ last
      → Chain h que_ptr prev cs
      → Chain h' que_ptr prev (cs ++ c ∷ [])
  Chain-extend prev [] e k = (rw e x.cell, tt)
  Chain-extend prev (d ∷ []) e (k, _) = (
    record {
      above = k.above;
      used = omega (arith, k.used, x.grows);
      block_used = omega (arith, k.block_used, x.grows);
      block_real = k.block_real;
      paired = k.paired;
      node_holds = rw e (x.linked _ (omega (arith, k.above)) (rw e at k.node_holds));
      block_holds = rw (x.blocks_same d.block k.block_used) k.block_holds;
    },
    (rw e x.cell, tt),
  )
  Chain-extend prev (d ∷ d' ∷ cs) e (k, ks) = (
    record {
      above = k.above;
      used = omega (arith, k.used, x.grows);
      block_used = omega (arith, k.block_used, x.grows);
      block_real = k.block_real;
      paired = k.paired;
      node_holds =
          rw (x.same d.node k.used (omega (arith, final-ge h que_ptr d'.node cs ks.1, ks.0.above)))
            k.node_holds;
      block_holds = rw (x.blocks_same d.block k.block_used) k.block_holds;
    },
    Chain-extend d.node (d' ∷ cs) e ks,
  )
