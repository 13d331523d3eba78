-- ===== src/Framer/Cutting.antt =====
-- Frames of a fixed length do not depend on how the stream was cut into blocks.
use si_daq_api.Base.{
  ℕ, ◌<◌, ◌≡◌, refl, sym, ap, ap₂, ◌∙◌, List, [], ◌∷◌, ◌++◌, flatten, append_assoc,
  append-cancel_length, arith, Outcome, done, Returns, returns, Returns-mono, Returns-result,
  length, length-append,
}
use si_daq_api.Framer.{Framer, event_length}
use si_daq_api.Framer.Outcomes.{Packets, held}
use si_daq_api.Framer.Joins.{IsHealthy}
use si_daq_api.Framer.Buffer.{length-held}
use si_daq_api.Framer.Stream.{feed, AllSmall, feed-Cuts}
use si_daq_api.Framer.Fixed.{IsFixed, AllOf, feed-Ends}

-- Two cuttings of one stream into frames of `n` bytes and fewer than `n` bytes behind them are the same.
AllOf-unique :
    (n : ℕ) (q q' : Packets) (h h' : List ℕ)
    → AllOf n q
    → AllOf n q'
    → length h < n
    → length h' < n
    → flatten q ++ h ≡ flatten q' ++ h'
    → (q ≡ q') × (h ≡ h')
unfolding flatten
AllOf-unique n [] [] h h' a a' lt lt' e = (refl, e)
AllOf-unique n [] (x ∷ q') h h' a a' lt lt' e = absurd (
    omega
      (arith, ap length e, length-append (x ++ flatten q') h', length-append x (flatten q'), a'.0))
AllOf-unique n (x ∷ q) [] h h' a a' lt lt' e =
    absurd (
      omega
        (arith, ap length e, length-append (x ++ flatten q) h, length-append x (flatten q), a.0))
AllOf-unique n (x ∷ q) (y ∷ q') h h' a a' lt lt' e =
    let e' = sym (append_assoc x (flatten q) h) ∙ e ∙ append_assoc y (flatten q') h' in
    let (same, rest) =
      append-cancel_length x (flatten q ++ h) y (flatten q' ++ h') (a.0 ∙ sym a'.0) e' in
    let (qs, hs) = AllOf-unique n q q' h h' a.1 a'.1 lt lt' rest in (ap₂ ◌∷◌ same qs, hs)

IsFixed-IsHealthy : (n : ℕ) (f : Framer) → IsFixed n f → IsHealthy f
unfolding event_length
IsFixed-IsHealthy n f v = record {
  ready = v.ready;
  short = omega (arith, v.no_header);
  rest_fits = omega (arith, v.few, v.fits, v.ready.room);
  steady = λ g e. cc (e, v.no_func);
  partial = λ buff len e le. ground (arith, v.no_func, v.fixed, v.few);
}

both :
    {A : Type 0} {P Q : A → Type 0} {o : Outcome A}
    → Returns P o
    → Returns Q o
    → Returns (λ a. P a × Q a) o
both (returns p) (returns q) = returns (p, q)

-- The frames of a run, from an empty queue: all of `n` bytes, and behind them fewer than `n` are held.
pub record IsCut (n : ℕ) (stream : List ℕ) (f' : Framer) (q : Packets) : Type 0 where
  pub all_of : AllOf n q
  pub few : length (held f') < n
  pub bytes : flatten q ++ held f' ≡ stream

feed-IsCut :
    (n past : ℕ) (f : Framer) (blocks : Packets)
    → IsFixed n f
    → AllSmall blocks
    → Returns (λ (f', q). IsCut n (held f ++ flatten blocks) f' q) (feed past f blocks [])
feed-IsCut n past f blocks v s =
    Returns-mono
      (both (feed-Cuts past f blocks [] (IsFixed-IsHealthy n f v) v.unlimited s)
        (feed-Ends n f v past blocks [] tt s))
      λ (f', q) (c, (a, w)). record {
        all_of = a;
        few =
            omega
              (arith, length-held f' w.ready (omega (arith, w.few, w.fits, w.ready.room)), w.few);
        bytes = ap (λ k. flatten k ++ held f') c.queue ∙ c.bytes;
      }

-- With a fixed frame length of `n` bytes, a header's length of 0, no length function, no queue limit
-- and an empty queue, fewer than `n` bytes held, `n` within the frame limit and that within the
-- buffer, and blocks of less than 2 ^ 30 bytes: however the stream is cut into blocks, the calls return the same frames and hold the
-- same bytes. The frames all have `n` bytes, and they and the fewer than `n` bytes held behind
-- them are the bytes that were held and the stream.
pub feed_cutting :
    (n past past' : ℕ) (f : Framer) (blocks blocks' : Packets)
    → IsFixed n f
    → AllSmall blocks
    → AllSmall blocks'
    → flatten blocks ≡ flatten blocks'
    → (f₁ : Framer) × (f₂ : Framer) × (q : Packets) × (feed past f blocks [] ≡ done (f₁, q))
      × (feed past' f blocks' [] ≡ done (f₂, q))
      × (held f₁ ≡ held f₂)
      × IsCut n (held f ++ flatten blocks) f₁ q
feed_cutting n past past' f blocks blocks' v s s' e =
    let ((f₁, q₁), e₁, c) = Returns-result (feed-IsCut n past f blocks v s) in
    let ((f₂, q₂), e₂, d) = Returns-result (feed-IsCut n past' f blocks' v s') in
    let (same, rest) =
      AllOf-unique n q₁ q₂ (held f₁) (held f₂) c.all_of d.all_of c.few d.few
        (c.bytes ∙ ap (λ k. held f ++ k) e ∙ sym d.bytes) in
    (f₁, f₂, q₁, e₁, e₂ ∙ ap (λ k. done (f₂, k)) (sym same), rest, c)
