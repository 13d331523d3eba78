-- ===== src/Sample/Dialog/Connects.antt =====
-- The connect button keeps the dialog valid.
use si_daq_api.Base.{
  ◌⊎◌, ◌<◌, ◌≡◌, inl, inr, refl, sym, ap, true, subst, ◌∙◌, false, none, some, [], ◌∷◌, ◌++◌, done,
  ◌>>=◌, Returns, returns, Returns-bind, length, Bool-cases,
}
use si_daq_api.Api.State.{Mngr, sys_error}
use si_daq_api.Api.Sound.{HasSound}
use si_daq_api.Api.Starts.{IsAnswer, CanConnect, sidaq_initialize-cases}
use si_daq_api.Api.Lifecycle.{Startup, Initialized, manager, host_name_max}
use si_daq_api.Sample.Controls.{no_connection}
use si_daq_api.Sample.Dialog.{
  Dialog, connected, switch_connection, on_connect, is_sys_error, update_controls, show_status,
}
use si_daq_api.Sample.Dialog.Valid.{
  IsConnected, IsDisconnected, IsValid, get_or-end, terminate-there, Ready, update_controls-IsValid,
  with_controls,
}

lists-exist :
    (m : Mngr)
    → is_sys_error m.status ≡ false
    → (m.status ≡ sys_error) ⊎ (m.queues ≡ true)
    → m.queues ≡ true
unfolding is_sys_error
lists-exist m e (inl s) = absurd (cc (sym e, ap is_sys_error s))
lists-exist m e (inr l) = l

-- A manager that `SiDaqInitialize` answers.
connected-Ready :
    (m : Mngr) (d : Dialog)
    → HasSound m
    → (m.status ≡ sys_error) ⊎ (m.queues ≡ true)
    → d.timer ≡ false
    → Returns Ready (connected (manager m) d)
unfolding connected Ready
connected-Ready m d sound lists timer =
    let d₁ : Dialog = record d { memory = d.memory ++ some m ∷ [] } in
    elim (Bool-cases (is_sys_error m.status)) [
      | inl e ↦ rw e (
          Returns-bind
            (terminate-there (length d.memory) m (show_status m d₁) (get_or-end d.memory m))
            λ d' (g, p, t, c, mem). returns (inl (refl, refl, t ∙ timer)))
      | inr e ↦ rw e (
          returns (
            inr (
              (λ k. cc),
              record {
                at_ = length d.memory;
                mngr = m;
                pointer = refl;
                there = get_or-end d.memory m;
                sound = sound;
                lists = lists-exist m e lists;
              },
            )))
    ]

connected-cases :
    (i : Initialized) (d : Dialog)
    → IsAnswer i
    → d.gui ≡ no_connection
    → d.mngr ≡ none
    → d.timer ≡ false
    → Returns Ready (connected i d)
unfolding connected Ready
connected-cases i d (inl e) gui pointer timer =
    rw (e, connected) (returns (inl (gui, pointer, timer)))
connected-cases i d (inr (m, e, v, l)) gui pointer timer = rw e (connected-Ready m d v l timer)

new_connection-Ready :
    (s : Startup) (d : Dialog)
    → CanConnect s d.fields.ip_address 4660
    → length d.fields.ip_address < host_name_max
    → IsDisconnected d
    → Returns Ready (switch_connection s none d)
unfolding switch_connection
new_connection-Ready s d can fits v =
    Returns-bind
      (sidaq_initialize-cases s d.fields.ip_address d.fields.tcp_port 4660 d.process fits can)
      λ i c. connected-cases i.0 (record d { process = i.1 }) c v.gui v.pointer v.timer

end_connection-Ready :
    (s : Startup) (d : Dialog) (v : IsConnected d)
    → Returns Ready (switch_connection s (some v.at_) d)
unfolding switch_connection Ready
end_connection-Ready s d v =
    Returns-bind (terminate-there v.at_ v.mngr d v.there) λ d' t. returns (inl (refl, refl, refl))

-- The connect button makes a connection, or ends it.
pub on_connect-IsValid :
    (s : Startup) (d : Dialog)
    → CanConnect s d.fields.ip_address 4660
    → length d.fields.ip_address < host_name_max
    → IsValid d
    → Returns IsValid (on_connect s d)
unfolding on_connect IsValid
on_connect-IsValid s d can fits (inl v) =
    let d₁ : Dialog = record d { controls = record d.controls { button_connect = false } } in
    subst (λ o. Returns IsValid (switch_connection s o d₁ >>= λ d'. done (update_controls d')))
      (sym v.pointer)
      (Returns-bind
        (new_connection-Ready s d₁ can fits (record {
          gui = v.gui;
          pointer = v.pointer;
          timer = v.timer;
          locked = record {
            run = v.locked.run;
            read = v.locked.read;
            write = v.locked.write;
            reset = v.locked.reset;
          };
        }))
        λ d' k. returns (update_controls-IsValid d' k))
on_connect-IsValid s d can fits (inr (gui, v)) =
    let d₁ : Dialog = record d { controls = record d.controls { button_connect = false } } in
    subst (λ o. Returns IsValid (switch_connection s o d₁ >>= λ d'. done (update_controls d')))
      (sym v.pointer)
      (Returns-bind (end_connection-Ready s d₁ (with_controls d d₁.controls v))
        λ d' k. returns (update_controls-IsValid d' k))
