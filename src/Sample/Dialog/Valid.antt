-- ===== src/Sample/Dialog/Valid.antt =====
-- What a valid dialog is, and the memory of managers.
use si_daq_api.Base.{
  arith, ℕ, zero, suc, ◌≡◌, ◌≢◌, ◌⊎◌, inl, inr, refl, true, false, Option, none, some, List, [],
  ◌∷◌, ◌++◌, done, Returns, returns, length, get_or,
}
use si_daq_api.Api.State.{Mngr}
use si_daq_api.Api.Access.{get_data_count, get_frame_data_count}
use si_daq_api.Api.Sound.{HasSound}
use si_daq_api.Sample.Controls.{GuiStatus, no_connection, Controls, update_gui_control_status}
use si_daq_api.Sample.Dialog.{
  Winthread, no_thread, alive, ended, join_thread, show_counts, Dialog, store, deref, terminate,
  update_controls,
}

-- The buttons that use the manager are locked.
pub record IsLocked (c : Controls) : Type 0 where
  pub run : c.button_run ≡ false
  pub read : c.button_rbcp_read ≡ false
  pub write : c.button_rbcp_write ≡ false
  pub reset : c.button_reset ≡ false

-- The dialog's pointer names a manager whose register client is sound and whose queues exist.
pub record IsConnected (d : Dialog) : Type 0 where
  pub at_ : ℕ
  pub mngr : Mngr
  pub pointer : d.mngr ≡ some at_
  pub there : get_or d.memory at_ none ≡ some mngr
  pub sound : HasSound mngr
  pub lists : mngr.queues ≡ true

pub record IsDisconnected (d : Dialog) : Type 0 where
  pub gui : d.gui ≡ no_connection
  pub pointer : d.mngr ≡ none
  pub timer : d.timer ≡ false
  pub locked : IsLocked d.controls

unfoldable pub IsValid : Dialog → Type 0
IsValid d = IsDisconnected d ⊎ ((d.gui ≢ no_connection) × IsConnected d)

pub get_or-store :
    (memory : List (Option Mngr)) (at_ : ℕ) (m m' : Mngr)
    → get_or memory at_ none ≡ some m
    → get_or (store memory at_ (some m')) at_ none ≡ some m'
get_or-store [] at_ m m' e = absurd (cc e)
get_or-store (x ∷ memory) zero m m' e = refl
get_or-store (x ∷ memory) (suc at_) m m' e = get_or-store memory at_ m m' e

pub get_or-end :
    (memory : List (Option Mngr)) (m : Mngr)
    → get_or (memory ++ some m ∷ []) (length memory) none ≡ some m
get_or-end [] m = refl
get_or-end (x ∷ memory) m = get_or-end memory m

pub deref-there :
    (memory : List (Option Mngr)) (at_ : ℕ) (m : Mngr)
    → get_or memory at_ none ≡ some m
    → deref memory (some at_) ≡ done m
unfolding deref
deref-there memory at_ m e = rw (e, deref) refl

-- `SiDaqTerminate` on the dialog's manager returns, and frees that manager alone.
pub terminate-there :
    (at_ : ℕ) (m : Mngr) (d : Dialog)
    → get_or d.memory at_ none ≡ some m
    → Returns
        (λ d'.
          (d'.gui ≡ d.gui)
          × (d'.mngr ≡ d.mngr)
          × (d'.timer ≡ d.timer)
          × (d'.controls ≡ d.controls)
          × (d'.memory ≡ store d.memory at_ none))
        (terminate (some at_) d)
unfolding terminate
terminate-there at_ m d e =
    rw (deref-there d.memory at_ m e) (returns (refl, refl, refl, refl, refl))

pub unlinked-IsLocked : (index : ℕ) → IsLocked (update_gui_control_status no_connection index)
unfolding update_gui_control_status
unlinked-IsLocked index = record { run = refl; read = refl; write = refl; reset = refl }

-- A valid state but for its controls.
unfoldable pub Ready : Dialog → Type 0
Ready d =
    ((d.gui ≡ no_connection) × (d.mngr ≡ none) × (d.timer ≡ false))
    ⊎ ((d.gui ≢ no_connection) × IsConnected d)

pub IsLocked-at :
    (gui : GuiStatus) (index : ℕ)
    → gui ≡ no_connection
    → IsLocked (update_gui_control_status gui index)
IsLocked-at gui index e = rw e (unlinked-IsLocked index)

pub update_controls-IsValid : (d : Dialog) → Ready d → IsValid (update_controls d)
unfolding Ready IsValid
update_controls-IsValid d (inl (gui, pointer, timer)) = inl (record {
  gui = gui;
  pointer = pointer;
  timer = timer;
  locked = IsLocked-at d.gui d.fields.run_mode gui;
})
update_controls-IsValid d (inr (gui, c)) = inr (
  gui,
  record {
    at_ = c.at_;
    mngr = c.mngr;
    pointer = c.pointer;
    there = c.there;
    sound = c.sound;
    lists = c.lists;
  },
)

abbrev pub with_controls :
    (d : Dialog) (c : Controls) → IsConnected d → IsConnected (record d { controls = c })
with_controls d c v = record {
  at_ = v.at_;
  mngr = v.mngr;
  pointer = v.pointer;
  there = v.there;
  sound = v.sound;
  lists = v.lists;
}

-- The dialog once the wait for the receiving thread is over.
abbrev pub joined : Dialog → Dialog
joined d = record d {
  winthread = no_thread;
  param = elim d.winthread [
    | no_thread ↦ d.param
    | alive ↦ record d.param { force_exit_flg = false }
    | ended ↦ d.param
  ];
}

-- The wait returns unless the thread's object is gone.
join_at :
    (d : Dialog) (t : Winthread) → d.winthread ≡ t → t ≢ ended → join_thread d ≡ done (joined d)
unfolding join_thread
join_at d no_thread e n = ground (arith, e)
join_at d alive e n = ground (arith, e)
join_at d ended e n = absurd (n refl)

pub join_thread-joined : (d : Dialog) → d.winthread ≢ ended → join_thread d ≡ done (joined d)
join_thread-joined d n = join_at d d.winthread refl n

-- What `show_counts` leaves where the queues exist.
abbrev pub counted : Mngr → Dialog → Dialog
counted m d = record d { receive = length m.recv_queue; event = length m.event_frame }

pub show_counts-counted :
    (m : Mngr) (d : Dialog) → m.queues ≡ true → show_counts m d ≡ done (counted m d)
unfolding show_counts get_data_count get_frame_data_count
show_counts-counted m d e = rw e refl
