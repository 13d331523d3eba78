-- ===== src/Sample/Dialog/Takes.antt =====
-- The events that a pass of the dialog's receiving thread takes.
use si_daq_api.Base.{
  ℕ, ◌+◌, ◌^◌, ◌<◌, ◌≡◌, inl, inr, refl, sym, ap, ◌∙◌, true, ltb, some, List, [], ◌∷◌, ◌++◌,
  flatten, flatten-append, append_assoc, append-nil, arith, length, length-append, if◌then◌else◌,
  Bool-cases, Returns, returns, Returns-mono,
}
use si_daq_api.Api.State.{Packets, Mngr}
use si_daq_api.Api.Control.{pause_recv_data, resume_recv_data}
use si_daq_api.Api.Gets.{get_data-none, get_data-some, resume-pause_events}
use si_daq_api.Api.Access.{get_data}
use si_daq_api.Sample.Dialog.Receiver.{Receiver, add_bytes, took_event, write_event}

-- Passes take `taken` from the events and `arrived` behind them.
pub record Took (r r' : Receiver) (taken arrived : Packets) : Type 0 where
  pub events : taken ++ r'.mngr.event_frame ≡ r.mngr.event_frame ++ arrived
  pub file : r'.file ≡ (if r.param.write_file_flg then r.file ++ taken else r.file)
  pub bytes : r'.param.receive_bytes ≡ r.param.receive_bytes + length (flatten taken)
  pub flag : r'.param.write_file_flg ≡ r.param.write_file_flg
  pub lists : r'.mngr.queues ≡ r.mngr.queues

pub Took-none :
    (r r' : Receiver) (arrived : Packets)
    → r'.mngr.event_frame ≡ r.mngr.event_frame ++ arrived
    → r'.file ≡ r.file
    → r'.param.receive_bytes ≡ r.param.receive_bytes
    → r'.param.write_file_flg ≡ r.param.write_file_flg
    → r'.mngr.queues ≡ r.mngr.queues
    → Took r r' [] arrived
unfolding flatten
Took-none r r' arrived e f b w l = record {
  events = e;
  file = ground (arith, f, append-nil r.file);
  bytes = omega (arith, b);
  flag = w;
  lists = l;
}

pub Took-trans :
    (r r' r'' : Receiver) (taken taken' arrived arrived' : Packets)
    → Took r r' taken arrived
    → Took r' r'' taken' arrived'
    → Took r r'' (taken ++ taken') (arrived ++ arrived')
Took-trans r r' r'' taken taken' arrived arrived' t u = record {
  events =
      append_assoc taken taken' r''.mngr.event_frame
      ∙ ap (◌++◌ taken) u.events
      ∙ sym (append_assoc taken r'.mngr.event_frame arrived')
      ∙ ap (λ k. k ++ arrived') t.events
      ∙ append_assoc r.mngr.event_frame arrived arrived';
  file = ground (arith, t.file, u.file, t.flag, append_assoc r.file taken taken');
  bytes = omega (
    arith,
    t.bytes,
    u.bytes,
    ap length (flatten-append taken taken'),
    length-append (flatten taken) (flatten taken'),
  );
  flag = u.flag ∙ t.flag;
  lists = u.lists ∙ t.lists;
}

-- How many bytes the events have.
abbrev pub size : Packets → ℕ
size events = length (flatten events)

pub size-append : (a b : Packets) → size (a ++ b) ≡ size a + size b
size-append a b = ap length (flatten-append a b) ∙ length-append (flatten a) (flatten b)

write_event-Took :
    (event : List ℕ) (r : Receiver)
    → let r' = write_event event r in
      (r'.mngr.event_frame ≡ r.mngr.event_frame)
      × (r'.file ≡ (if r.param.write_file_flg then r.file ++ event ∷ [] else r.file))
      × (r'.param ≡ r.param)
      × (r'.mngr.queues ≡ r.mngr.queues)
unfolding write_event pause_recv_data resume_recv_data
write_event-Took event r = elim (Bool-cases r.param.write_file_flg) [
  | inl w ↦ rw w (resume-pause_events r.mngr, refl, refl, ground arith)
  | inr w ↦ rw w (refl, refl, refl, refl)
]

-- An event that the pass takes.
took_event-Took :
    (m : Mngr) (r : Receiver) (more : Packets) (event : List ℕ) (events : Packets)
    → r.param.receive_bytes + length event < 2 ^ 63
    → m.queues ≡ r.mngr.queues
    → event ∷ events ≡ r.mngr.event_frame ++ more
    → Returns
        (λ r'. Took r r' (event ∷ []) more)
        (took_event (some event) (record r { mngr = record m { event_frame = events } }))
unfolding took_event add_bytes flatten
took_event-Took m r more event events fits l e =
    let s = record r { mngr = record m { event_frame = events } } in
    let (kept, file, param, lists) = write_event-Took event s in
    let p = (write_event event s).param in
    let small : ltb (p.receive_bytes + length event) (2 ^ 63) ≡ true =
      ground (arith, ap (λ k. k.receive_bytes) param, fits) in
    rw small (
      returns (record {
        events = ap (◌∷◌ event) kept ∙ e;
        file = file;
        bytes =
            ap (λ k. k.receive_bytes + length event) param
            ∙ ap (λ k. r.param.receive_bytes + length k) (sym (append-nil event));
        flag = ap (λ k. k.write_file_flg) param;
        lists = lists ∙ l;
      }))

pub get-Took :
    (m : Mngr) (r : Receiver) (more events : Packets)
    → r.param.receive_bytes + size events < 2 ^ 63
    → m.queues ≡ r.mngr.queues
    → m.event_frame ≡ events
    → events ≡ r.mngr.event_frame ++ more
    → let g = get_data m in
      Returns
        (λ r'. (taken : Packets) × Took r r' taken more)
        (took_event g.0 (record r { mngr = g.1 }))
unfolding took_event flatten
get-Took m r more [] fits l e d =
    rw (get_data-none m e) (returns ([], Took-none r _ more (e ∙ d) refl refl refl l))
get-Took m r more (event ∷ events) fits l e d = rw (get_data-some m event events e) (
    Returns-mono
      (took_event-Took m r more event events
        (omega (arith, fits, length-append event (flatten events))) l d)
      λ r' t. (event ∷ [], t))
