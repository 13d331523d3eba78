-- ===== src/Api/Sound.antt =====
-- The register client of a manager stays sound whatever is called.
use si_daq_api.Base.{
  true, Returns, returns, ℕ, inl, inr, subst, ◌≤◌, ◌≡◌, refl, sym, ap, ◌∙◌, Option, none, some,
  List, arith, length,
}
use si_daq_api.Rbcp.{Rbcp, Net, Attempt, returned, thrown, read_bytes, write_bytes, max_data_len}
use si_daq_api.Rbcp.Bounds.{
  object, IsSound, read_bytes-IsSound, read_bytes-length, write_bytes-IsSound,
}
use si_daq_api.Api.State.{Status, idle, reset, run, mngr_invalid, stopping, sys_error, Mngr}
use si_daq_api.Api.State.{Process}
use si_daq_api.Api.Control.{sidaq_stop, close_device, reset_queue, RunArgs, Winsock, sidaq_run}
use si_daq_api.Api.Control.Transitions.{CanRun, sidaq_run-cases}
use si_daq_api.Api.Access.{rbcp_read_bytes, rbcp_write_bytes}

-- The manager has no register client, or a sound one.
abbrev pub ClientIsSound : Option Rbcp → Type 0
ClientIsSound none = Unit {0}
ClientIsSound (some r) = IsSound r

pub record HasSound (m : Mngr) : Type 0 where
  pub client : ClientIsSound m.sitcp

sidaq_stop-sitcp : (m : Mngr) → (sidaq_stop m).1.sitcp ≡ m.sitcp
unfolding sidaq_stop close_device
sidaq_stop-sitcp m = ground arith

pub stopped-HasSound : (m : Mngr) → HasSound m → HasSound (sidaq_stop m).1
stopped-HasSound m v = record { client = subst ClientIsSound (sym (sidaq_stop-sitcp m)) v.client }

emptied_at :
    (m : Mngr) (s : Status)
    → m.status ≡ s
    → m.queues ≡ true
    → HasSound m
    → Returns (λ m'. HasSound m' × (m'.queues ≡ true)) (reset_queue m)
unfolding reset_queue
emptied_at m idle e l v = rw (e, reset_queue) (returns (v, l))
emptied_at m reset e l v = rw (e, reset_queue) (returns (v, l))
emptied_at m run e l v = rw (e, reset_queue) (returns (v, l))
emptied_at m mngr_invalid e l v = rw (e, reset_queue) (returns (v, l))
emptied_at m stopping e l v = rw (e, l, reset_queue) (returns (record { client = v.client }, refl))
emptied_at m sys_error e l v = rw (e, l, reset_queue) (returns (record { client = v.client }, refl))

-- `SiDaqResetQueue` on a manager whose queues exist.
pub emptied-HasSound :
    (m : Mngr)
    → m.queues ≡ true
    → HasSound m
    → Returns (λ m'. HasSound m' × (m'.queues ≡ true)) (reset_queue m)
emptied-HasSound m lists v = emptied_at m m.status refl lists v

pub begun-HasSound :
    (a : RunArgs) (w : Winsock) (m : Mngr) (p : Process)
    → CanRun a w
    → HasSound m
    → HasSound (sidaq_run a w m p).0
begun-HasSound a w m p can v = elim (sidaq_run-cases a w m p) [
  | inl (c, began) ↦ record { client = subst ClientIsSound (sym began.client) v.client }
  | inr (no_run, refused) ↦ absurd (no_run can)
]

-- What a register read leaves: a sound client, and as many bytes as it was asked for.
abbrev pub ReadOk : ℕ → Option (List ℕ) × Mngr → Type 0
ReadOk len r = HasSound r.1 × ((bytes : List ℕ) → r.0 ≡ some bytes → length bytes ≡ len)

some_eq : (xs ys : List ℕ) → some xs ≡ some ys → length xs ≡ length ys
some_eq xs ys e = ap (λ o. elim o [ none ↦ 0 | some zs ↦ length zs ]) e

module _ (net : Net) (addr len : ℕ) (m : Mngr) (r : Rbcp) where
  read_answer-ReadOk :
      (a : Attempt (List ℕ))
      → m.sitcp ≡ some r
      → read_bytes net addr len r ≡ a
      → IsSound (object a)
      → ((bytes : List ℕ) (r' : Rbcp) → a ≡ returned bytes r' → length bytes ≡ len)
      → ReadOk len (rbcp_read_bytes net addr len m)
  unfolding rbcp_read_bytes
  read_answer-ReadOk (returned bytes r') e call v size =
      rw (e, call, rbcp_read_bytes)
        (record { client = v }, λ ys k. sym (some_eq bytes ys k) ∙ size bytes r' refl)
  read_answer-ReadOk (thrown ex r') e call v size =
      rw (e, call, rbcp_read_bytes) (record { client = v }, λ ys k. absurd (cc k))

  write_answer-HasSound :
      (a : Attempt (Unit {0})) (buffer : List ℕ)
      → m.sitcp ≡ some r
      → write_bytes net buffer addr len r ≡ a
      → IsSound (object a)
      → HasSound (rbcp_write_bytes net buffer addr len m).1
  unfolding rbcp_write_bytes
  write_answer-HasSound (returned _ r') buffer e call v =
      rw (e, call, rbcp_write_bytes) (record { client = v })
  write_answer-HasSound (thrown ex r') buffer e call v =
      rw (e, call, rbcp_write_bytes) (record { client = v })

module _ (net : Net) (addr len : ℕ) (m : Mngr) where
  read_client-ReadOk :
      (o : Option Rbcp)
      → len ≤ max_data_len
      → m.sitcp ≡ o
      → ClientIsSound o
      → HasSound m
      → ReadOk len (rbcp_read_bytes net addr len m)
  unfolding rbcp_read_bytes
  read_client-ReadOk none le e c v = rw (e, rbcp_read_bytes) (v, λ ys k. absurd (cc k))
  read_client-ReadOk (some r) le e c v =
      read_answer-ReadOk net addr len m r (read_bytes net addr len r) e refl
        (read_bytes-IsSound net addr len r c)
        λ bytes r'. read_bytes-length net addr len r bytes r' le c

  -- A register read keeps the client sound, and brings as many bytes as it was asked for or none.
  pub rbcp_read_bytes-ReadOk :
      len ≤ max_data_len → HasSound m → ReadOk len (rbcp_read_bytes net addr len m)
  rbcp_read_bytes-ReadOk le v = read_client-ReadOk m.sitcp le refl v.client v

  write_client-HasSound :
      (o : Option Rbcp) (buffer : List ℕ)
      → len ≤ length buffer
      → m.sitcp ≡ o
      → ClientIsSound o
      → HasSound m
      → HasSound (rbcp_write_bytes net buffer addr len m).1
  unfolding rbcp_write_bytes
  write_client-HasSound none buffer le e c v = rw (e, rbcp_write_bytes) v
  write_client-HasSound (some r) buffer le e c v =
      write_answer-HasSound net addr len m r (write_bytes net buffer addr len r) buffer e refl
        (write_bytes-IsSound net buffer addr len r le c)

  -- A register write keeps the client sound.
  pub rbcp_write_bytes-HasSound :
      (buffer : List ℕ)
      → len ≤ length buffer
      → HasSound m
      → HasSound (rbcp_write_bytes net buffer addr len m).1
  rbcp_write_bytes-HasSound buffer le v = write_client-HasSound m.sitcp buffer le refl v.client v

-- What keeps the queues.
pub sidaq_stop-queues : (m : Mngr) → (sidaq_stop m).1.queues ≡ m.queues
unfolding sidaq_stop close_device
sidaq_stop-queues m = ground arith

pub begun-queues :
    (a : RunArgs) (w : Winsock) (m : Mngr) (p : Process)
    → CanRun a w
    → (sidaq_run a w m p).0.queues ≡ m.queues
begun-queues a w m p can = elim (sidaq_run-cases a w m p) [
  | inl (c, began) ↦ began.lists
  | inr (no_run, refused) ↦ absurd (no_run can)
]

pub rbcp_read_bytes-queues :
    (net : Net) (addr len : ℕ) (m : Mngr) → (rbcp_read_bytes net addr len m).1.queues ≡ m.queues
unfolding rbcp_read_bytes
rbcp_read_bytes-queues net addr len m = ground arith

pub rbcp_write_bytes-queues :
    (net : Net) (buffer : List ℕ) (addr len : ℕ) (m : Mngr)
    → (rbcp_write_bytes net buffer addr len m).1.queues ≡ m.queues
unfolding rbcp_write_bytes
rbcp_write_bytes-queues net buffer addr len m = ground arith
