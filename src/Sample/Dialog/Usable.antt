-- ===== src/Sample/Dialog/Usable.antt =====
-- A dialog that is shown or closing, and what its smaller messages and its exit leave of it.
use si_daq_api.Base.{
  ℕ, ◌≡◌, ◌≢◌, ◌⊎◌, inl, inr, refl, sym, subst, none, Outcome, Returns, returns, Returns-bind,
  Returns-mono, arith,
}
use si_daq_api.Sample.Controls.{frame_control_initialize}
use si_daq_api.Sample.Dialog.{Dialog, ended, on_app_exit, terminate}
use si_daq_api.Sample.Dialog.Window.{shown, closing, gone, App, within}
use si_daq_api.Sample.Dialog.Commands.{on_run_mode}
use si_daq_api.Sample.Dialog.Valid.{
  IsValid, IsConnected, terminate-there, joined, join_thread-joined,
}

pub on_run_mode-IsValid :
    (index : ℕ) (d : Dialog) → IsValid d → Returns IsValid (on_run_mode index d)
unfolding on_run_mode IsValid frame_control_initialize
on_run_mode-IsValid index d (inl v) = returns (
    inl (record {
      gui = v.gui;
      pointer = v.pointer;
      timer = v.timer;
      locked = record {
        run = ground (arith, v.locked.run);
        read = ground (arith, v.locked.read);
        write = ground (arith, v.locked.write);
        reset = ground (arith, v.locked.reset);
      };
    }))
on_run_mode-IsValid index d (inr (gui, v)) = returns (
    inr (
      gui,
      record {
        at_ = v.at_;
        mngr = v.mngr;
        pointer = v.pointer;
        there = v.there;
        sound = v.sound;
        lists = v.lists;
      },
    ))

-- While the window closes, the dialog has no manager or one that is there.
unfoldable pub Releasable : Dialog → Type 0
Releasable d = (d.mngr ≡ none) ⊎ IsConnected d

unfoldable pub IsUsable : App → Type 0
unfolding Releasable
IsUsable (shown, d) = IsValid d
IsUsable (closing, d) = Releasable d
IsUsable (gone, d) = Unit {0}

pub within-IsUsable : (o : Outcome Dialog) → Returns IsValid o → Returns IsUsable (within shown o)
unfolding IsUsable
within-IsUsable o v = Returns-bind v λ d k. returns k

pub terminated : (d : Dialog) → Releasable d → Returns (λ d'. d'.mngr ≡ d.mngr) (terminate d.mngr d)
unfolding Releasable terminate
terminated d (inl e) =
    subst (λ o. Returns (λ d'. d'.mngr ≡ d.mngr) (terminate o d)) (sym e) (returns refl)
terminated d (inr v) =
    subst (λ o. Returns (λ d'. d'.mngr ≡ d.mngr) (terminate o d)) (sym v.pointer)
      (Returns-mono (terminate-there v.at_ v.mngr d v.there) λ d' (g, p, t, c, mem). p)

pub valid-Releasable : (d : Dialog) → IsValid d → Releasable d
unfolding IsValid Releasable
valid-Releasable d (inl v) = inl v.pointer
valid-Releasable d (inr (gui, v)) = inr v

joined-Releasable : (d : Dialog) → Releasable d → Releasable (joined d)
unfolding Releasable
joined-Releasable d (inl e) = inl e
joined-Releasable d (inr v) = inr (record {
  at_ = v.at_;
  mngr = v.mngr;
  pointer = v.pointer;
  there = v.there;
  sound = v.sound;
  lists = v.lists;
})

-- `OnAppExit` gives the manager back and sets the pointer to NULL.
pub exits :
    (d : Dialog)
    → d.winthread ≢ ended
    → IsValid d
    → Returns IsUsable (within closing (on_app_exit d))
unfolding on_app_exit IsUsable Releasable
exits d there v = rw (join_thread-joined d there) (
    Returns-bind
      (Returns-bind {Q = λ d'. d'.mngr ≡ none}
        (terminated (joined d) (joined-Releasable d (valid-Releasable d v))) λ d' k. returns refl)
      λ d' k. returns (inl k))

-- The end of the receiving thread changes the thread's pointer alone.
pub thread_ends-IsValid : (d : Dialog) → IsValid d → IsValid (record d { winthread = ended })
unfolding IsValid
thread_ends-IsValid d (inl v) =
    inl (record { gui = v.gui; pointer = v.pointer; timer = v.timer; locked = v.locked })
thread_ends-IsValid d (inr (gui, v)) = inr (
  gui,
  record {
    at_ = v.at_;
    mngr = v.mngr;
    pointer = v.pointer;
    there = v.there;
    sound = v.sound;
    lists = v.lists;
  },
)

pub thread_ends-Releasable :
    (d : Dialog) → Releasable d → Releasable (record d { winthread = ended })
unfolding Releasable
thread_ends-Releasable d (inl e) = inl e
thread_ends-Releasable d (inr v) = inr (record {
  at_ = v.at_;
  mngr = v.mngr;
  pointer = v.pointer;
  there = v.there;
  sound = v.sound;
  lists = v.lists;
})
