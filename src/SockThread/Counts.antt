-- ===== src/SockThread/Counts.antt =====
-- The count of received bytes.
use si_daq_api.Base.{
  ℕ, ◌+◌, ◌%◌, ◌<◌, ◌≡◌, refl, ap, ◌∙◌, inl, inr, ◌^◌, Bool, true, false, List, [], ◌∷◌, flatten,
  flatten-append, append-nil, arith, done, Returns, returns, Returns-bind, Returns-mono, length,
  length-append, Bool-cases,
}
use si_daq_api.SockThread.{
  is_allowed_error, Received, bytes, closed, failed, Pass, Thread, drop_socket, after_put, receive,
  recv_pass, recv_passes,
}
use si_daq_api.SockThread.Laws.{offered, all_offered}
use si_daq_api.Framer.{list_put}

-- Unless the pass breaks the loop, it counts the bytes that it offers.
abbrev Counted : Pass → Thread (List (List ℕ)) → Bool × Thread (List (List ℕ)) → Type 0
Counted p t r =
    r.0 ≡ false → r.1.param.rx_bytes ≡ (t.param.rx_bytes + length (flatten (offered p))) % 2 ^ 64

receive-Counted :
    (run : Bool) (answer : Received) (t : Thread (List (List ℕ)))
    → t.param.rx_bytes < 2 ^ 64
    → let p : Pass = record { run = run; pause = false; answer = answer } in
      Returns (Counted p t) (
        receive list_put answer
          (record t { param = record t.param { run = run; pause_flg = false } }))
unfolding receive after_put offered flatten is_allowed_error drop_socket
receive-Counted run (bytes block) t lt = returns (λ e. ground (arith, append-nil block))
receive-Counted run (closed k) t lt = returns (λ e. omega arith)
receive-Counted run (failed k) t lt = elim (Bool-cases (is_allowed_error k)) [
  | inl a ↦ rw a (returns (λ e. omega arith))
  | inr a ↦ rw a (returns (λ e. cc))
]

recv_pass-Counted :
    (p : Pass) (t : Thread (List (List ℕ)))
    → t.param.rx_bytes < 2 ^ 64
    → Returns (Counted p t) (recv_pass list_put p t)
unfolding recv_pass offered flatten
recv_pass-Counted p t lt = elim (Bool-cases p.pause) [
  | inl e ↦ rw e (returns (λ _. omega arith))
  | inr e ↦ rw e (receive-Counted p.run p.answer t lt)
]

passes_count :
    (p : Pass) (ps : List Pass) (t : Thread (List (List ℕ)))
    → t.param.rx_bytes < 2 ^ 64
    → ((t' : Thread (List (List ℕ)))
        → t'.param.rx_bytes < 2 ^ 64
        → Returns
            (λ r.
              r.0 ≡ false
              → r.1.param.rx_bytes
                ≡ (t'.param.rx_bytes + length (flatten (all_offered ps))) % 2 ^ 64)
            (recv_passes list_put ps t'))
    → (b : Bool) (t' : Thread (List (List ℕ))) → Counted p t (b, t')
    → Returns
        (λ r.
          r.0 ≡ false
          → r.1.param.rx_bytes
            ≡ (t.param.rx_bytes + length (flatten (all_offered (p ∷ ps)))) % 2 ^ 64)
        (elim b [ true ↦ done (true, t') | false ↦ recv_passes list_put ps t' ])
unfolding all_offered
passes_count p ps t lt ih true t' k = returns (λ e. cc)
passes_count p ps t lt ih false t' k =
    let one = k refl in
    let more =
      ap length (flatten-append (offered p) (all_offered ps))
      ∙ length-append (flatten (offered p)) (flatten (all_offered ps)) in
    Returns-mono (ih t' (omega arith)) λ r g e. omega (arith, g e, more, one)

-- From a count below 2 ^ 64: if no pass breaks the loop, `rx_bytes` has grown by the bytes of all
-- the blocks, modulo 2 ^ 64.
pub recv_passes-rx_bytes :
    (ps : List Pass) (t : Thread (List (List ℕ)))
    → t.param.rx_bytes < 2 ^ 64
    → Returns
        (λ r.
          r.0 ≡ false
          → r.1.param.rx_bytes ≡ (t.param.rx_bytes + length (flatten (all_offered ps))) % 2 ^ 64)
        (recv_passes list_put ps t)
unfolding recv_passes all_offered flatten
recv_passes-rx_bytes [] t lt = returns (λ e. omega arith)
recv_passes-rx_bytes (p ∷ ps) t lt =
    Returns-bind (recv_pass-Counted p t lt)
      λ (b, t') k. passes_count p ps t lt (recv_passes-rx_bytes ps) b t' k
