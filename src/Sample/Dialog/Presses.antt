-- ===== src/Sample/Dialog/Presses.antt =====
-- The run button keeps the dialog valid, where `SiDaqRun` is not refused.
use si_daq_api.Base.{
  ◌≡◌, ◌≢◌, inl, inr, refl, sym, ◌∙◌, subst, false, some, done, Returns, returns, Bool-cases,
}
use si_daq_api.Api.State.{
  Status, idle, stopping, reset, run, sys_error, mngr_invalid, Mngr, Process,
}
use si_daq_api.Api.Control.{RunArgs, Winsock, sidaq_run, sidaq_stop}
use si_daq_api.Api.Control.Transitions.{CanRun, sidaq_run-cases}
use si_daq_api.Api.Sound.{begun-HasSound, stopped-HasSound, begun-queues, sidaq_stop-queues}
use si_daq_api.Sample.Controls.{no_connection}
use si_daq_api.Sample.Dialog.{
  Dialog, store, run_args, run_begun, run_done, start_run, stop_run, press_run, press_run_at,
  on_run_stop, is_idle, ended,
}
use si_daq_api.Sample.Dialog.Valid.{
  joined, join_thread-joined, show_counts-counted, IsConnected, IsValid, get_or-store, deref-there,
  with_controls,
}

run_status :
    (a : RunArgs) (w : Winsock) (m : Mngr) (p : Process)
    → CanRun a w
    → (sidaq_run a w m p).0.status ≡ run
run_status a w m p can = elim (sidaq_run-cases a w m p) [
  | inl (c, began) ↦ began.status
  | inr (no_run, refused) ↦ absurd (no_run can)
]

-- A run that `SiDaqRun` begins.
start_run-IsValid :
    (w : Winsock) (d : Dialog) (v : IsConnected d)
    → CanRun (run_args d.fields) w
    → d.winthread ≢ ended
    → Returns IsValid (start_run w v.at_ v.mngr d)
unfolding start_run run_done run_begun IsValid
start_run-IsValid w d v can there =
    let r = sidaq_run (run_args d.fields) w v.mngr d.process in
    let d₁ : Dialog = record (joined d) {
      memory = store d.memory v.at_ (some r.0);
      process = r.1;
    } in
    rw (join_thread-joined d there) (
      subst (λ status. Returns IsValid (run_done status v.at_ r.0 d₁))
        (sym (run_status (run_args d.fields) w v.mngr d.process can))
        (returns (
          inr (
            (λ k. cc),
            record {
              at_ = v.at_;
              mngr = r.0;
              pointer = v.pointer;
              there = get_or-store d.memory v.at_ v.mngr r.0 v.there;
              sound = begun-HasSound (run_args d.fields) w v.mngr d.process can v.sound;
              lists = begun-queues (run_args d.fields) w v.mngr d.process can ∙ v.lists;
            },
          ))))

module _ (w : Winsock) (d : Dialog) (gui : d.gui ≢ no_connection) (v : IsConnected d)
    (can : CanRun (run_args d.fields) w) (there : d.winthread ≢ ended) where
  stop_run-IsValid : Returns IsValid (stop_run v.at_ v.mngr d)
  unfolding stop_run IsValid
  stop_run-IsValid =
      rw (show_counts-counted (sidaq_stop v.mngr).1 _ (sidaq_stop-queues v.mngr ∙ v.lists)) (
        returns (
          inr (
            (λ k. cc),
            record {
              at_ = v.at_;
              mngr = (sidaq_stop v.mngr).1;
              pointer = v.pointer;
              there = get_or-store d.memory v.at_ v.mngr (sidaq_stop v.mngr).1 v.there;
              sound = stopped-HasSound v.mngr v.sound;
              lists = sidaq_stop-queues v.mngr ∙ v.lists;
            },
          )))

  as_it_is : Returns IsValid (done d)
  unfolding IsValid
  as_it_is = returns (inr (gui, v))

  press_run-IsValid : (status : Status) → Returns IsValid (press_run status w v.at_ v.mngr d)
  unfolding press_run
  press_run-IsValid sys_error = elim (Bool-cases (is_idle d.gui)) [
    | inl e ↦ rw e (start_run-IsValid w d v can there)
    | inr e ↦ rw e as_it_is
  ]
  press_run-IsValid idle = start_run-IsValid w d v can there
  press_run-IsValid run = stop_run-IsValid
  press_run-IsValid stopping = as_it_is
  press_run-IsValid reset = as_it_is
  press_run-IsValid mngr_invalid = as_it_is

abbrev pub without_buttons : Dialog → Dialog
without_buttons d = record d {
  controls = record d.controls { button_run = false; button_connect = false };
}

-- The run button, where `SiDaqRun` begins the run if it is called.
pub on_run_stop-IsValid :
    (w : Winsock) (d : Dialog)
    → CanRun (run_args d.fields) w
    → d.winthread ≢ ended
    → IsValid d
    → Returns IsValid (on_run_stop w d)
unfolding on_run_stop press_run_at IsValid
on_run_stop-IsValid w d can there (inl v) =
    let d₁ = without_buttons d in
    subst (λ o. Returns IsValid (press_run_at o w d₁)) (sym v.pointer)
      (returns (
        inl (record {
          gui = v.gui;
          pointer = v.pointer;
          timer = v.timer;
          locked = record {
            run = refl;
            read = v.locked.read;
            write = v.locked.write;
            reset = v.locked.reset;
          };
        })))
on_run_stop-IsValid w d can there (inr (gui, v)) =
    let d₁ = without_buttons d in
    let v₁ = with_controls d d₁.controls v in
    subst (λ o. Returns IsValid (press_run_at o w d₁)) (sym v.pointer)
      (rw (deref-there d.memory v.at_ v.mngr v.there)
        (press_run-IsValid w d₁ gui v₁ can there v.mngr.status))
