-- ===== src/Sample/Dialog/Dangling.antt =====
-- What the dialog does behind a run that `SiDaqRun` has refused.
use si_daq_api.Base.{
  ℕ, zero, suc, ◌≡◌, ◌≢◌, refl, sym, ap, subst, ◌∙◌, inl, inr, true, false, Option, none, some,
  List, [], ◌∷◌, done, fault, ◌>>=◌, Returns, returns, Returns-bind, Returns-mono, arith, get_or,
}
use si_daq_api.Api.State.{idle, sys_error, Mngr, Process}
use si_daq_api.Api.Control.{RunArgs, Winsock, sidaq_run}
use si_daq_api.Api.Control.Transitions.{CanRun, sidaq_run-cases}
use si_daq_api.Api.Lifecycle.{Startup}
use si_daq_api.Sample.Controls.{gui_idle, frame_control_initialize, update_gui_control_status}
use si_daq_api.Sample.Dialog.{
  Winthread, no_thread, alive, ended, Dialog, store, deref, terminate, switch_connection,
  on_connect, on_app_exit, run_args, run_refused, run_done, start_run, press_run, press_run_at,
  on_run_stop, join_thread, show_status, update_controls,
}
use si_daq_api.Sample.Dialog.Commands.{on_timer}
use si_daq_api.Sample.Dialog.Presses.{without_buttons}
use si_daq_api.Sample.Dialog.Valid.{
  joined, join_thread-joined, IsConnected, get_or-store, deref-there, terminate-there,
  with_controls,
}

get_or-freed :
    (memory : List (Option Mngr)) (at_ : ℕ) → get_or (store memory at_ none) at_ none ≡ none
get_or-freed [] at_ = refl
get_or-freed (x ∷ memory) zero = refl
get_or-freed (x ∷ memory) (suc at_) = get_or-freed memory at_

-- The pointer names a manager that was freed, and the dialog believes to be idle.
pub record IsDangling (d : Dialog) : Type 0 where
  pub at_ : ℕ
  pub pointer : d.mngr ≡ some at_
  pub freed : get_or d.memory at_ none ≡ none
  pub gui : d.gui ≡ gui_idle
  pub run_enabled : d.controls.button_run ≡ true
  pub connect_enabled : d.controls.button_connect ≡ true

deref-freed : (d : Dialog) (v : IsDangling d) → deref d.memory (some v.at_) ≡ fault
unfolding deref
deref-freed d v = rw (v.freed, deref) refl

-- With a dangling pointer, every handler that uses the manager has undefined behaviour.
module _ (d : Dialog) (v : IsDangling d) where
  terminate-fault : (d' : Dialog) → d'.memory ≡ d.memory → terminate (some v.at_) d' ≡ fault
  unfolding terminate
  terminate-fault d' e = rw (e, deref-freed d v) refl

  on_timer-fault : (polls : List (ℕ × ℕ)) → on_timer polls d ≡ fault
  unfolding on_timer
  on_timer-fault polls = rw (v.pointer, deref-freed d v) refl

  on_run_stop-fault : (w : Winsock) → on_run_stop w d ≡ fault
  unfolding on_run_stop press_run_at
  on_run_stop-fault w =
      ap
        (λ o. press_run_at o w (record d {
          controls = record d.controls { button_run = false; button_connect = false };
        }))
        v.pointer
      ∙ rw (deref-freed d v) refl

  on_connect-fault : (s : Startup) → on_connect s d ≡ fault
  unfolding on_connect switch_connection
  on_connect-fault s =
      let d₁ : Dialog = record d { controls = record d.controls { button_connect = false } } in
      ap (λ o. switch_connection s o d₁ >>= λ d'. done (update_controls d')) v.pointer
      ∙ rw (terminate-fault d₁ refl) refl

  exit_joined : join_thread d ≡ done (joined d) → on_app_exit d ≡ fault
  unfolding on_app_exit
  exit_joined e = rw e (
      ap (λ o. terminate o (joined d) >>= λ d'. done (record d' { mngr = none })) v.pointer
      ∙ rw (terminate-fault (joined d) refl) refl)

  -- Whether the receiving thread is there, or its object is gone.
  exit_at : (t : Winthread) → d.winthread ≡ t → on_app_exit d ≡ fault
  unfolding on_app_exit join_thread
  exit_at ended e = rw (e, join_thread) refl
  exit_at no_thread e = exit_joined (join_thread-joined d (λ k. cc (k, e)))
  exit_at alive e = exit_joined (join_thread-joined d (λ k. cc (k, e)))

  on_app_exit-fault : on_app_exit d ≡ fault
  on_app_exit-fault = exit_at d.winthread refl

refused_status :
    (a : RunArgs) (w : Winsock) (m : Mngr) (p : Process)
    → ¬ CanRun a w
    → (sidaq_run a w m p).0.status ≡ sys_error
refused_status a w m p cannot = elim (sidaq_run-cases a w m p) [
  | inl (can, began) ↦ absurd (cannot can)
  | inr (no_run, refused) ↦ refused.status
]

refused-IsDangling :
    (at_ : ℕ) (m : Mngr) (d : Dialog)
    → d.mngr ≡ some at_
    → get_or d.memory at_ none ≡ some m
    → Returns IsDangling (run_refused at_ m d)
unfolding run_refused update_gui_control_status frame_control_initialize
refused-IsDangling at_ m d pointer there =
    Returns-bind (terminate-there at_ m (show_status m d) there) λ d' (g, p, t, c, mem).
      returns (record {
        at_ = at_;
        pointer = p ∙ pointer;
        freed = ap (λ k. get_or k at_ none) mem ∙ get_or-freed d.memory at_;
        gui = refl;
        run_enabled = ground arith;
        connect_enabled = ground arith;
      })

start_run-IsDangling :
    (w : Winsock) (d : Dialog) (v : IsConnected d)
    → ¬ CanRun (run_args d.fields) w
    → d.winthread ≢ ended
    → Returns IsDangling (start_run w v.at_ v.mngr d)
unfolding start_run run_done
start_run-IsDangling w d v cannot there =
    let r = sidaq_run (run_args d.fields) w v.mngr d.process in
    let d₁ : Dialog = record (joined d) {
      memory = store d.memory v.at_ (some r.0);
      process = r.1;
    } in
    rw (join_thread-joined d there) (
      subst (λ status. Returns IsDangling (run_done status v.at_ r.0 d₁))
        (sym (refused_status (run_args d.fields) w v.mngr d.process cannot))
        (refused-IsDangling v.at_ r.0 d₁ v.pointer
          (get_or-store d.memory v.at_ v.mngr r.0 v.there)))

run_refused-IsDangling :
    (w : Winsock) (d : Dialog) (v : IsConnected d)
    → v.mngr.status ≡ idle
    → ¬ CanRun (run_args d.fields) w
    → d.winthread ≢ ended
    → Returns IsDangling (on_run_stop w d)
unfolding on_run_stop press_run_at press_run
run_refused-IsDangling w d v status cannot there =
    let d₁ = without_buttons d in
    let v₁ = with_controls d d₁.controls v in
    subst (λ o. Returns IsDangling (press_run_at o w d₁)) (sym v.pointer)
      (rw (deref-there d.memory v.at_ v.mngr v.there) (
        subst (λ k. Returns IsDangling (press_run k w v.at_ v.mngr d₁)) (sym status)
          (start_run-IsDangling w d₁ v₁ cannot there)))

-- The user presses the run button on an idle manager, no receiving thread has ended by itself (its
-- object would be gone), and `SiDaqRun` refuses the run. The handler
-- returns, frees the manager and keeps the pointer to it. Both the run button and the connect button are
-- enabled then, but the handlers of both, of the next tick of the timer and of the exit have
-- undefined behaviour.
pub run_refused_dangles :
    (w : Winsock) (d : Dialog) (v : IsConnected d)
    → v.mngr.status ≡ idle
    → ¬ CanRun (run_args d.fields) w
    → d.winthread ≢ ended
    → Returns
        (λ d'.
          (d'.controls.button_run ≡ true)
          × (d'.controls.button_connect ≡ true)
          × ((w' : Winsock) → on_run_stop w' d' ≡ fault)
          × ((s : Startup) → on_connect s d' ≡ fault)
          × ((polls : List (ℕ × ℕ)) → on_timer polls d' ≡ fault)
          × (on_app_exit d' ≡ fault))
        (on_run_stop w d)
run_refused_dangles w d v status cannot there =
    Returns-mono (run_refused-IsDangling w d v status cannot there) λ d' k. (
      k.run_enabled,
      k.connect_enabled,
      on_run_stop-fault d' k,
      on_connect-fault d' k,
      on_timer-fault d' k,
      on_app_exit-fault d' k,
    )
