-- ===== src/Squeue/Memory.antt =====
-- The memory that SiDaqApi/squeue_c/squeue.cpp works on: queue headers, list nodes and data
-- blocks by address, and an allocator. `malloc` answers the next address that was never used
-- while `budget` allocations are left, and NULL from then on; an access to an address that holds
-- nothing is undefined behaviour.
use si_daq_api.Base.{
  ℕ, ◌+◌, ◌-◌, Bool, true, false, Option, none, some, List, Outcome, done, fault, ◌==◌,
  if◌then◌else◌,
}
use si_daq_api.Base

abbrev pub Ptr : Type 0
Ptr = ℕ

abbrev pub null : Ptr
null = 0

-- `struct SQData`
pub record SqData : Type 0 where
  pub parent : Ptr
  pub next : Ptr
  pub prev : Ptr
  pub size : ℕ
  pub data_ptr : Ptr

-- `struct SQueue`
pub record Squeue : Type 0 where
  pub top : Ptr
  pub last : Ptr
  pub lock : Ptr
  pub count : ℕ

pub record Heap : Type 0 where
  pub queues : Ptr → Option Squeue
  pub nodes : Ptr → Option SqData
  pub blocks : Ptr → Option (List ℕ)
  pub brk : Ptr
  pub budget : ℕ

abbrev pub Cmd : Type 0 → Type 0
Cmd A = Heap → Outcome (A × Heap)

abbrev pub pure : {A : Type 0} → A → Cmd A
pure a h = done (a, h)

infixl 5 ◌>>=◌ ◌>>◌
abbrev pub ◌>>=◌ : {A B : Type 0} → Cmd A → (A → Cmd B) → Cmd B
◌>>=◌ m k h = Base.◌>>=◌ (m h) (λ r. k r.0 r.1)

abbrev pub ◌>>◌ : {A B : Type 0} → Cmd A → Cmd B → Cmd B
m >> n = m >>= λ _. n

abbrev pub crash : {A : Type 0} → Cmd A
crash h = fault

abbrev pub update : {A : Type 0} → (Ptr → Option A) → Ptr → Option A → Ptr → Option A
update f p v q = if q == p then v else f q

-- `malloc`
unfoldable pub malloc : Cmd Ptr
malloc h =
    if h.budget == 0
    then done (null, h)
    else done (h.brk, record h { brk = h.brk + 1; budget = h.budget - 1 })

-- `*sd_ptr`
unfoldable pub load_node : Ptr → Cmd SqData
load_node p h =
    if p == null then fault else elim (h.nodes p) [ none ↦ fault | some d ↦ done (d, h) ]

abbrev pub store_node : Ptr → Option SqData → Cmd (Unit {0})
store_node p d h = done (tt, record h { nodes = update h.nodes p d })

-- An assignment to fields of `*sd_ptr`.
unfoldable pub modify_node : Ptr → (SqData → SqData) → Cmd (Unit {0})
modify_node p f = do d ← load_node p; store_node p (some (f d))

-- `free(sd_ptr)`
unfoldable pub free_node : Ptr → Cmd (Unit {0})
free_node p = load_node p >> store_node p none

-- `*que_ptr`
unfoldable pub load_queue : Ptr → Cmd Squeue
load_queue p h =
    if p == null then fault else elim (h.queues p) [ none ↦ fault | some q ↦ done (q, h) ]

abbrev pub store_queue : Ptr → Option Squeue → Cmd (Unit {0})
store_queue p q h = done (tt, record h { queues = update h.queues p q })

unfoldable pub modify_queue : Ptr → (Squeue → Squeue) → Cmd (Unit {0})
modify_queue p f = do q ← load_queue p; store_queue p (some (f q))

abbrev pub store_block : Ptr → Option (List ℕ) → Cmd (Unit {0})
store_block p b h = done (tt, record h { blocks = update h.blocks p b })

-- `free` of a data block; `free(NULL)` does nothing.
unfoldable pub free_block : Ptr → Cmd (Unit {0})
free_block p h =
    if p == null
    then done (tt, h)
    else elim (h.blocks p) [ none ↦ fault | some b ↦ store_block p none h ]
