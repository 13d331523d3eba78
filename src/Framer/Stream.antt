-- ===== src/Framer/Stream.antt =====
-- A whole run: one call after the other over the blocks that arrive.
use si_daq_api.Base.{
  ℕ, ◌<◌, ◌≡◌, sym, ap, ◌∙◌, inl, inr, ◌^◌, List, [], ◌∷◌, ◌++◌, flatten, flatten-append,
  append_assoc, append-nil, arith, Outcome, done, ◌>>=◌, Returns, returns, Returns-bind,
  Returns-mono, length,
}
use si_daq_api.Framer.{Framer, Return, recv_data, list_put}
use si_daq_api.Framer.Outcomes.{Packets, held, Ends}
use si_daq_api.Framer.Joins.{IsHealthy, Ends-IsHealthy, recv_data-ok}

-- The calls for the blocks, in order, as `framer_thread` makes them.
unfoldable pub feed : ℕ → Framer → List (List ℕ) → Packets → Outcome (Framer × Packets)
feed past f [] q = done (f, q)
feed past f (block ∷ blocks) q =
    recv_data list_put past f block (length block) q >>= λ r. feed past r.0 blocks r.1

-- Blocks far from the end of an `int`.
abbrev pub AllSmall : List (List ℕ) → Type 0
AllSmall [] = Unit {0}
AllSmall (block ∷ blocks) = (length block < 2 ^ 30) × AllSmall blocks

-- The frames that a run has cut, and what is held at its end, are the bytes of the stream.
pub record Cuts (f : Framer) (stream : List ℕ) (q : Packets) (r : Framer × Packets) : Type 0 where
  pub out : Packets
  pub queue : r.1 ≡ q ++ out
  pub bytes : flatten out ++ held r.0 ≡ held f ++ stream
  pub healthy : IsHealthy r.0
  pub limit : r.0.queue_limit ≡ 0

-- Without a limit on the queue nothing is lost.
pub Ends-kept :
    {limit : ℕ} {read : List ℕ} {count : ℕ} {q : Packets} {f' : Framer} {q' : Packets}
    {ret : Return}
    → limit ≡ 0
    → (e : Ends limit read count q f' q' ret) → flatten e.out ++ held f' ≡ read
Ends-kept {f' = f'} z e = elim e.verdict [
  | inl (_, none_lost) ↦
      ap (◌++◌ (flatten e.out)) (sym (append-nil (held f')) ∙ ap (◌++◌ (held f')) (sym none_lost))
      ∙ e.bytes
  | inr (_, _, limited) ↦ absurd (limited z)
]

Cuts-cons :
    (f : Framer) (block : List ℕ) (blocks : List (List ℕ)) (q : Packets) (f₁ : Framer)
    (q₁ : Packets) (ret : Return) (r : Framer × Packets)
    → f.queue_limit ≡ 0
    → Ends f.queue_limit (held f ++ block) 0 q f₁ q₁ ret
    → Cuts f₁ (flatten blocks) q₁ r
    → Cuts f (flatten (block ∷ blocks)) q r
unfolding flatten
Cuts-cons f block blocks q f₁ q₁ ret r z e c = record {
  out = e.out ++ c.out;
  queue = c.queue ∙ ap (λ k. k ++ c.out) e.queue ∙ append_assoc q e.out c.out;
  bytes =
      ap (λ k. k ++ held r.0) (flatten-append e.out c.out)
      ∙ append_assoc (flatten e.out) (flatten c.out) (held r.0)
      ∙ ap (◌++◌ (flatten e.out)) c.bytes
      ∙ sym (append_assoc (flatten e.out) (held f₁) (flatten blocks))
      ∙ ap (λ k. k ++ flatten blocks) (Ends-kept z e)
      ∙ append_assoc (held f) block (flatten blocks);
  healthy = c.healthy;
  limit = c.limit;
}

-- From a healthy framer without a queue limit, and for blocks of less than 2 ^ 30 bytes: however
-- the device's stream is cut into blocks, the calls return, and the new frames, in order,
-- followed by the bytes that are held then, are the bytes that were held and the stream. The
-- framer stays healthy.
pub feed-Cuts :
    (past : ℕ) (f : Framer) (blocks : List (List ℕ)) (q : Packets)
    → IsHealthy f
    → f.queue_limit ≡ 0
    → AllSmall blocks
    → Returns (Cuts f (flatten blocks) q) (feed past f blocks q)
unfolding feed flatten
feed-Cuts past f [] q w z s = returns (record {
  out = [];
  queue = sym (append-nil q);
  bytes = sym (append-nil (held f));
  healthy = w;
  limit = z;
})
feed-Cuts past f (block ∷ blocks) q w z s =
    Returns-bind (recv_data-ok past f block q w (omega (arith, w.rest_fits, w.ready.small)))
      λ (f₁, q₁, ret) e.
        Returns-mono (feed-Cuts past f₁ blocks q₁ (Ends-IsHealthy e) (e.limit_same ∙ z) s.1)
          λ r c. Cuts-cons f block blocks q f₁ q₁ ret r z e c
