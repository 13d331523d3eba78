-- ===== src/Sample/Dialog/Passes.antt =====
-- One pass of the dialog's receiving thread, and when it ends the loop.
use si_daq_api.Base.{
  Outcome, sym, ◌≢◌, ◌∙◌, ℕ, ◌+◌, ◌^◌, ◌<◌, ◌≡◌, ◌↔◌, inl, inr, refl, subst, Bool, true, false,
  none, some, ◌++◌, Bool-cases, done, Returns, returns, Returns-bind, Returns-result, ◌>>=◌, fault,
  out_of_fuel,
}
use si_daq_api.Api.State.{Packets}
use si_daq_api.Api.Starts.{option-cases}
use si_daq_api.Sample.Dialog.Receiver.{Receiver, Pass, grown, receiver_take, receiver_pass}
use si_daq_api.Sample.Dialog.Takes.{Took, size, get-Took}
use si_daq_api.Sample.Dialog.Ends.{IsDone, MayEnd, leaves-IsDone}

-- One pass, and when it ends the loop.
pub record Passed (p : Pass) (r : Receiver) (r' : Bool × Receiver) : Type 0 where
  pub ends : (r'.0 ≡ true) ↔ MayEnd p.polls r
  pub same : r'.0 ≡ true → r'.1 ≡ r
  pub goes : r'.0 ≡ false → (taken : Packets) × Took r r'.1 taken p.later

stopped : (p : Pass) (r : Receiver) → MayEnd p.polls r → Passed p r (true, r)
stopped p r e = record { ends = (λ k. e, λ k. refl); same = λ k. refl; goes = λ k. absurd (cc k) }

went :
    (p : Pass) (r r' : Receiver)
    → ¬ MayEnd p.polls r
    → (taken : Packets) × Took r r' taken p.later
    → Passed p r (false, r')
went p r r' stays t = record {
  ends = (λ k. absurd (cc k), λ k. absurd (stays k));
  same = λ k. absurd (cc k);
  goes = λ k. t;
}

not-MayEnd :
    (p : Pass) (r : Receiver) (at_ : ℕ)
    → r.param.force_exit_flg ≡ true
    → r.param.sidaq_mngr_ptr ≡ some at_
    → ¬ IsDone p.polls r.mngr
    → ¬ MayEnd p.polls r
unfolding MayEnd
not-MayEnd p r at_ flag pointer busy (inl e) = cc (flag, e)
not-MayEnd p r at_ flag pointer busy (inr (inl e)) = cc (pointer, e)
not-MayEnd p r at_ flag pointer busy (inr (inr d)) = busy d

-- The branches of the first two checks.
module _ (polls : ℕ → ℕ × ℕ) (later : Packets) (r : Receiver) where
  flagged : r.param.force_exit_flg ≡ false → done (true, r) ≡ receiver_pass polls later r
  unfolding receiver_pass
  flagged e = cc

  unpointed :
      r.param.force_exit_flg ≡ true
      → r.param.sidaq_mngr_ptr ≡ none
      → done (true, r) ≡ receiver_pass polls later r
  unfolding receiver_pass
  unpointed e d = cc

  pointed :
      {at_ : ℕ}
      → r.param.force_exit_flg ≡ true
      → r.param.sidaq_mngr_ptr ≡ some at_
      → receiver_take polls later r ≡ receiver_pass polls later r
  unfolding receiver_pass
  pointed e d = cc

receiver_take-Passed :
    (p : Pass) (r : Receiver) (at_ : ℕ)
    → r.param.force_exit_flg ≡ true
    → r.param.sidaq_mngr_ptr ≡ some at_
    → r.mngr.queues ≡ true
    → r.param.receive_bytes + size (r.mngr.event_frame ++ p.later) < 2 ^ 63
    → Returns (Passed p r) (receiver_take p.polls p.later r)
unfolding receiver_take MayEnd
receiver_take-Passed p r at_ flag pointer lists fits =
    Returns-bind (leaves-IsDone p.polls r.mngr lists) λ ends iff. elim (Bool-cases ends) [
      | inl e ↦ rw e (returns (stopped p r (inr (inr (iff.0 e)))))
      | inr e ↦ rw e (
          Returns-bind (get-Took (grown p.later r.mngr) r p.later _ fits refl refl refl)
            λ r' t. returns (went p r r' (not-MayEnd p r at_ flag pointer λ d. cc (iff.1 d, e)) t))
    ]

pub receiver_pass-Passed :
    (p : Pass) (r : Receiver)
    → r.mngr.queues ≡ true
    → r.param.receive_bytes + size (r.mngr.event_frame ++ p.later) < 2 ^ 63
    → Returns (Passed p r) (receiver_pass p.polls p.later r)
unfolding MayEnd
receiver_pass-Passed p r lists fits = elim (Bool-cases r.param.force_exit_flg) [
  | inr flag ↦
      subst (Returns (Passed p r)) (flagged p.polls p.later r flag)
        (returns (stopped p r (inl flag)))
  | inl flag ↦ elim (option-cases r.param.sidaq_mngr_ptr) [
    | inl pointer ↦
        subst (Returns (Passed p r)) (unpointed p.polls p.later r flag pointer)
          (returns (stopped p r (inr (inl pointer))))
    | inr (at_, pointer) ↦
        subst (Returns (Passed p r)) (pointed p.polls p.later r flag pointer)
          (receiver_take-Passed p r at_ flag pointer lists fits)
  ]
]

-- An event that is taken does not end the loop.
took-goes :
    (o : Outcome Receiver) (r : Receiver)
    → ◌>>=◌ {B = Bool × Receiver} o (λ r'. done (false, r')) ≢ done (true, r)
took-goes (done a) r e = cc
took-goes fault r e = cc
took-goes out_of_fuel r e = cc

receiver_take-ends :
    (p : Pass) (r : Receiver)
    → r.mngr.queues ≡ true
    → (receiver_take p.polls p.later r ≡ done (true, r)) ↔ IsDone p.polls r.mngr
unfolding receiver_take
receiver_take-ends p r lists =
    let (ends, eq, iff) = Returns-result (leaves-IsDone p.polls r.mngr lists) in
    elim (Bool-cases ends) [
      | inl e ↦ rw (eq, e) (λ k. iff.0 e, λ d. refl)
      | inr e ↦ rw (eq, e) (λ k. absurd (took-goes _ r k), λ d. absurd (cc (iff.1 d, e)))
    ]

-- A pass ends the loop exactly if it may.
pub receiver_pass-ends :
    (p : Pass) (r : Receiver)
    → r.mngr.queues ≡ true
    → (receiver_pass p.polls p.later r ≡ done (true, r)) ↔ MayEnd p.polls r
unfolding MayEnd
receiver_pass-ends p r lists = elim (Bool-cases r.param.force_exit_flg) [
  | inr flag ↦ (λ k. inl flag, λ k. sym (flagged p.polls p.later r flag))
  | inl flag ↦ elim (option-cases r.param.sidaq_mngr_ptr) [
    | inl pointer ↦ (λ k. inr (inl pointer), λ k. sym (unpointed p.polls p.later r flag pointer))
    | inr (at_, pointer) ↦
        let same = pointed p.polls p.later r flag pointer in
        let iff = receiver_take-ends p r lists in
        (
          λ k. inr (inr (iff.0 (same ∙ k))),
          λ k. elim k [
            | inl off ↦ absurd (cc (flag, off))
            | inr (inl null) ↦ absurd (cc (pointer, null))
            | inr (inr d) ↦ sym same ∙ iff.1 d
          ],
        )
  ]
]
