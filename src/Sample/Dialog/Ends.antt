-- ===== src/Sample/Dialog/Ends.antt =====
-- When the receiving thread of the dialog ends.
use si_daq_api.Base.{
  ℕ, zero, suc, ◌<◌, ◌≡◌, ◌↔◌, ◌⊎◌, inl, inr, refl, ap, ap₂, ◌∙◌, true, false, ◌&&◌, ◌==◌, none, [],
  ◌∷◌, arith, length, Bool-cases, Returns, returns,
}
use si_daq_api.Api.State.{
  Packets, Status, idle, stopping, reset, run, sys_error, mngr_invalid, Mngr,
}
use si_daq_api.Api.Access.{get_data_count, get_frame_data_count}
use si_daq_api.Sample.Dialog.Receiver.{Receiver, may_end, stays_empty, leaves}

-- Why a pass ends the loop: the dialog wants it, there is no manager, or no run is on and the queues
-- are empty, now and in the ten polls.
unfoldable pub IsHalted : Status → Type 0
IsHalted status = (status ≡ idle) ⊎ ((status ≡ stopping) ⊎ (status ≡ sys_error))

pub record IsDone (polls : ℕ → ℕ × ℕ) (m : Mngr) : Type 0 where
  pub halted : IsHalted m.status
  pub no_blocks : m.recv_queue ≡ []
  pub no_events : m.event_frame ≡ []
  pub stays : (i : ℕ) → i < 10 → polls i ≡ (0, 0)

unfoldable pub MayEnd : (ℕ → ℕ × ℕ) → Receiver → Type 0
MayEnd polls r =
    (r.param.force_exit_flg ≡ false) ⊎ ((r.param.sidaq_mngr_ptr ≡ none) ⊎ IsDone polls r.mngr)

may_end-IsHalted : (status : Status) → may_end status ≡ true → IsHalted status
unfolding may_end IsHalted
may_end-IsHalted idle e = inl refl
may_end-IsHalted stopping e = inr (inl refl)
may_end-IsHalted sys_error e = inr (inr refl)
may_end-IsHalted reset e = absurd (cc e)
may_end-IsHalted run e = absurd (cc e)
may_end-IsHalted mngr_invalid e = absurd (cc e)

IsHalted-may_end : (status : Status) → IsHalted status → may_end status ≡ true
unfolding may_end IsHalted
IsHalted-may_end status (inl e) = ap may_end e
IsHalted-may_end status (inr (inl e)) = ap may_end e
IsHalted-may_end status (inr (inr e)) = ap may_end e

pair_eq : (p : ℕ × ℕ) → p.0 ≡ 0 → p.1 ≡ 0 → p ≡ (0, 0)
pair_eq (a, b) e d = ap₂ (λ x y. (x, y)) e d

both_zero : (p : ℕ × ℕ) → ((p.0 == 0) && (p.1 == 0)) ≡ true → p ≡ (0, 0)
both_zero p e = pair_eq p (ground (arith, e)) (ground (arith, e))

stays_empty-zero :
    (polls : ℕ → ℕ × ℕ) (n : ℕ) → stays_empty polls n ≡ true → (i : ℕ) → i < n → polls i ≡ (0, 0)
unfolding stays_empty
stays_empty-zero polls zero e i le = absurd (omega (arith, le))
stays_empty-zero polls (suc n) e i le = elim (Bool-cases (i == n)) [
  | inr other ↦ stays_empty-zero polls n (ground (arith, e)) i (ground (arith, le, other))
  | inl same ↦ ap polls (ground (arith, same)) ∙ both_zero (polls n) (ground (arith, e))
]

zero-stays_empty :
    (polls : ℕ → ℕ × ℕ) (n : ℕ) → ((i : ℕ) → i < n → polls i ≡ (0, 0)) → stays_empty polls n ≡ true
unfolding stays_empty
zero-stays_empty polls zero z = refl
zero-stays_empty polls (suc n) z =
    rw (zero-stays_empty polls n λ i le. z i (omega (arith, le)), z n (omega arith)) refl

no_packets : (q : Packets) → (length q == 0) ≡ true → q ≡ []
no_packets [] e = refl
no_packets (x ∷ q) e = absurd (ground (arith, e))

no_length : (q : Packets) → q ≡ [] → (length q == 0) ≡ true
no_length q e = ap (λ k. length k == 0) e

-- The checks of the state, the counts and the ten polls.
pub leaves-IsDone :
    (polls : ℕ → ℕ × ℕ) (m : Mngr)
    → m.queues ≡ true
    → Returns (λ ends. (ends ≡ true) ↔ IsDone polls m) (leaves polls m)
unfolding leaves get_data_count get_frame_data_count
leaves-IsDone polls m lists = elim (Bool-cases (may_end m.status)) [
  | inr e ↦
      rw (e, lists)
        (returns (λ k. absurd (cc k), λ d. absurd (cc (e, IsHalted-may_end m.status d.halted))))
  | inl e ↦
      rw (e, lists)
        (returns (
          λ k. record {
            halted = may_end-IsHalted m.status e;
            no_blocks = no_packets m.recv_queue (ground (arith, k));
            no_events = no_packets m.event_frame (ground (arith, k));
            stays = stays_empty-zero polls 10 (ground (arith, k));
          },
          λ d.
              rw
                (
                  no_length m.recv_queue d.no_blocks,
                  no_length m.event_frame d.no_events,
                  zero-stays_empty polls 10 d.stays,
                )
                refl,
        ))
]
