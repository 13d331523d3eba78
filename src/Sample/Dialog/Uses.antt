-- ===== src/Sample/Dialog/Uses.antt =====
-- The timer and the other buttons keep the dialog valid.
use si_daq_api.Base.{
  ℕ, ◌≤◌, ◌≡◌, ◌≢◌, inl, inr, refl, sym, ap, subst, ◌∙◌, Bool, true, false, Option, none, some,
  List, [], ◌∷◌, arith, done, Returns, returns, Returns-bind, Returns-mono, length, get_or,
  Bool-cases, ◌&&◌, ◌==◌,
}
use si_daq_api.Rbcp.{Net}
use si_daq_api.Api.State.{Mngr}
use si_daq_api.Api.Sound.{
  rbcp_read_bytes-queues, rbcp_write_bytes-queues, HasSound, emptied-HasSound,
  rbcp_read_bytes-ReadOk, rbcp_write_bytes-HasSound,
}
use si_daq_api.Api.Access.{rbcp_read_bytes, rbcp_write_bytes}
use si_daq_api.Sample.Controls.{GuiStatus, no_connection, gui_idle, gui_running, gui_stopping}
use si_daq_api.Sample.SitcpInfo.{AllBytes, create_sitcp_info, create_sitcp_info-IsShown}
use si_daq_api.Sample.Dialog.{Dialog, deref, is_sys_error, show_status}
use si_daq_api.Sample.Dialog.Commands.{
  store_at, force_stopping, stop_ends, all_empty, on_timer, on_rbcp_read, on_rbcp_write, on_reset,
  stored,
}
use si_daq_api.Sample.Dialog.Valid.{
  counted, show_counts-counted, IsConnected, IsValid, get_or-store, deref-there,
}

-- Both parts of the timer's handler keep the pointer and stay connected.
force_stopping-IsConnected :
    (gui : GuiStatus) (m : Mngr) (d : Dialog)
    → d.gui ≡ gui
    → gui ≢ no_connection
    → IsConnected d
    → ((force_stopping gui m d).gui ≢ no_connection) × IsConnected (force_stopping gui m d)
unfolding force_stopping
force_stopping-IsConnected no_connection m d e g v = absurd (g refl)
force_stopping-IsConnected gui_idle m d e g v = (λ k. cc (k, e), v)
force_stopping-IsConnected gui_stopping m d e g v = (λ k. cc (k, e), v)
force_stopping-IsConnected gui_running m d e g v = elim (Bool-cases (is_sys_error m.status)) [
  | inl k ↦ rw k (
    (λ n. cc),
    record {
      at_ = v.at_;
      mngr = v.mngr;
      pointer = v.pointer;
      there = v.there;
      sound = v.sound;
      lists = v.lists;
    },
  )
  | inr k ↦ rw k (λ n. cc (n, e), v)
]

stop_ends-IsConnected :
    (gui : GuiStatus) (empty : Bool) (d : Dialog)
    → d.gui ≡ gui
    → gui ≢ no_connection
    → IsConnected d
    → ((stop_ends gui empty d).gui ≢ no_connection) × IsConnected (stop_ends gui empty d)
unfolding stop_ends
stop_ends-IsConnected no_connection empty d e g v = absurd (g refl)
stop_ends-IsConnected gui_idle empty d e g v = (λ k. cc (k, e), v)
stop_ends-IsConnected gui_running empty d e g v = (λ k. cc (k, e), v)
stop_ends-IsConnected gui_stopping true d e g v = (
  (λ n. cc),
  record {
    at_ = v.at_;
    mngr = v.mngr;
    pointer = v.pointer;
    there = v.there;
    sound = v.sound;
    lists = v.lists;
  },
)
stop_ends-IsConnected gui_stopping false d e g v = (λ n. cc (n, e), v)

info-Returns :
    (o : Option (List ℕ))
    → ((bytes : List ℕ) → o ≡ some bytes → (48 ≤ length bytes) × AllBytes bytes)
    → Returns (λ info. Unit {0}) (create_sitcp_info o)
unfolding create_sitcp_info
info-Returns none shown = returns tt
info-Returns (some bytes) shown =
    Returns-mono (create_sitcp_info-IsShown bytes (shown bytes refl).1 (shown bytes refl).0)
      λ r k. tt

-- A handler that begins with the use of the manager.
pub deref-IsConnected : (d : Dialog) (v : IsConnected d) → deref d.memory d.mngr ≡ done v.mngr
deref-IsConnected d v = ap (deref d.memory) v.pointer ∙ deref-there d.memory v.at_ v.mngr v.there

stored-IsConnected :
    (m : Mngr) (d : Dialog)
    → HasSound m
    → m.queues ≡ true
    → IsConnected d
    → IsConnected (stored m d)
stored-IsConnected m d sound lists v = record {
  lists = lists;
  sound = sound;
  at_ = v.at_;
  mngr = m;
  pointer = v.pointer;
  there =
      subst (λ o. get_or (store_at o m d.memory) v.at_ none ≡ some m) (sym v.pointer)
        (get_or-store d.memory v.at_ v.mngr m v.there);
}

pub on_timer-IsValid :
    (polls : List (ℕ × ℕ)) (d : Dialog)
    → d.gui ≢ no_connection
    → IsConnected d
    → Returns IsValid (on_timer polls d)
unfolding on_timer IsValid
on_timer-IsValid polls d gui v =
    let m = v.mngr in
    let d₁ = counted m (show_status m d) in
    let c₁ : IsConnected d₁ = record {
      at_ = v.at_;
      mngr = v.mngr;
      pointer = v.pointer;
      there = v.there;
      sound = v.sound;
      lists = v.lists;
    } in
    let (gui₂, c₂) = force_stopping-IsConnected d.gui m d₁ refl gui c₁ in
    let d₂ = force_stopping d.gui m d₁ in
    let empty = (d₂.receive == 0) && (d₂.event == 0) && all_empty polls in
    let (gui₃, c₃) = stop_ends-IsConnected d₂.gui empty d₂ refl gui₂ c₂ in
    rw (deref-IsConnected d v, show_counts-counted m (show_status m d) v.lists)
      (returns (
        inr (
          gui₃,
          record {
            at_ = c₃.at_;
            mngr = c₃.mngr;
            pointer = c₃.pointer;
            there = c₃.there;
            sound = c₃.sound;
            lists = c₃.lists;
          },
        )))

pub on_reset-IsValid :
    (d : Dialog) → d.gui ≢ no_connection → IsConnected d → Returns IsValid (on_reset d)
unfolding on_reset IsValid
on_reset-IsValid d gui v = rw (deref-IsConnected d v) (
    Returns-bind (emptied-HasSound v.mngr v.lists v.sound) λ m (sound, lists).
      let c = stored-IsConnected m d sound lists v in
      returns (
        inr (
          gui,
          record {
            at_ = c.at_;
            mngr = c.mngr;
            pointer = c.pointer;
            there = c.there;
            sound = c.sound;
            lists = c.lists;
          },
        )))

pub on_rbcp_write-IsValid :
    (net : Net) (d : Dialog)
    → d.gui ≢ no_connection
    → IsConnected d
    → Returns IsValid (on_rbcp_write net d)
unfolding on_rbcp_write IsValid
on_rbcp_write-IsValid net d gui v =
    let c =
      stored-IsConnected (rbcp_write_bytes net (0x80 ∷ []) 0xffffff10 1 v.mngr).1 d
        (rbcp_write_bytes-HasSound net 0xffffff10 1 v.mngr (0x80 ∷ []) (omega arith) v.sound)
        (rbcp_write_bytes-queues net (0x80 ∷ []) 0xffffff10 1 v.mngr ∙ v.lists) v in
    rw (deref-IsConnected d v) (
      returns (
        inr (
          gui,
          record {
            at_ = c.at_;
            mngr = c.mngr;
            pointer = c.pointer;
            there = c.there;
            sound = c.sound;
            lists = c.lists;
          },
        )))

-- The read button, where an answer of the device consists of bytes.
pub on_rbcp_read-IsValid :
    (net : Net) (d : Dialog)
    → d.gui ≢ no_connection
    → (v : IsConnected d)
    → ((bytes : List ℕ)
        → (rbcp_read_bytes net 0xffffff00 64 v.mngr).0 ≡ some bytes
        → AllBytes bytes)
    → Returns IsValid (on_rbcp_read net d)
unfolding on_rbcp_read IsValid
on_rbcp_read-IsValid net d gui v shown =
    let r = rbcp_read_bytes net 0xffffff00 64 v.mngr in
    let (sound, brings) = rbcp_read_bytes-ReadOk net 0xffffff00 64 v.mngr (omega arith) v.sound in
    let c =
      stored-IsConnected r.1 d sound (rbcp_read_bytes-queues net 0xffffff00 64 v.mngr ∙ v.lists)
        v in
    rw (deref-IsConnected d v) (
      Returns-bind (info-Returns r.0 λ bytes k. (omega (arith, brings bytes k), shown bytes k))
        λ info t. returns (
          inr (
            gui,
            record {
              at_ = c.at_;
              mngr = c.mngr;
              pointer = c.pointer;
              there = c.there;
              sound = c.sound;
              lists = c.lists;
            },
          )))
