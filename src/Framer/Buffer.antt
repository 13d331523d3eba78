-- ===== src/Framer/Buffer.antt =====
-- The buffer where held and new bytes are joined, and what follows the first frame.
use si_daq_api.Base.{
  ℕ, ◌+◌, ◌<◌, ◌≤◌, ◌≡◌, refl, sym, ap, ◌∙◌, inl, inr, ◌^◌, List, [], ◌∷◌, ◌++◌, flatten,
  append_assoc, append-nil, arith, Returns, returns, length, length-append, length-take,
  length-drop, take, drop, take_all, take-append_le, take-append_ge, take-take, take-append-drop,
  ltb→le, sub32, sub32_exact, slt, slt-ltb, is_neg-false, Bool-cases, if◌then◌else◌,
}
use si_daq_api.Framer.{
  Framer, exceed_frame_queue_count, frames, finish, again, limit_hit, after_first, list_put,
}
use si_daq_api.Framer.Sizing.{IsReady, IsSteady}
use si_daq_api.Framer.Outcomes.{Packets, held, RoundOk}

module _ (kept : List ℕ) (data_ tail : List ℕ) (copy : ℕ) (le : copy ≤ length data_) where
  take_joined :
      (n : ℕ)
      → n ≤ copy
      → take (length kept + n) (kept ++ take copy data_ ++ tail) ≡ kept ++ take n data_
  take_joined n m =
      ap (take (length kept + n)) (append_assoc kept (take copy data_) tail)
      ∙ take-append_ge (length kept + n) kept (take copy data_ ++ tail) (omega arith)
      ∙ ap (◌++◌ kept) (
          ap (λ k. take k (take copy data_ ++ tail)) (omega arith)
          ∙ take-append_le n (take copy data_) tail (omega (arith, length-take copy data_))
          ∙ take-take n copy data_ m)

pub length-held : (f : Framer) → IsReady f → f.rest ≤ f.buff_size → length (held f) ≡ f.rest
length-held f v le = omega (arith, length-take f.rest f.buff, v.size)

-- `f` with its held bytes taken over.
abbrev pub cleared : Framer → Framer
cleared f = record f { rest = 0 }

abbrev noted : Framer → ℕ → Framer
noted f n =
    record (if limit_hit f n then record f { error_code = exceed_frame_queue_count } else f) {
      rest = 0;
    }

noted-IsReady : (f : Framer) (n : ℕ) → IsReady f → IsReady (noted f n)
noted-IsReady f n v = ground (arith, v.size, v.room, v.small, v.header)

noted-header : (f : Framer) (n : ℕ) → (noted f n).header_len ≡ f.header_len
noted-header f n = ground arith

noted-IsSteady : (f : Framer) (n : ℕ) → IsSteady f → IsSteady (noted f n)
noted-IsSteady f n s = elim (Bool-cases (limit_hit f n)) [ inl e ↦ rw e s | inr e ↦ rw e s ]

noted-limit : (f : Framer) (n : ℕ) → (noted f n).queue_limit ≡ f.queue_limit
noted-limit f n = ground arith

-- The frame that the held bytes begin is complete: `used` bytes of the new data belong to it.
module _ (f f₁ : Framer) (data_ : List ℕ) (q : Packets) (n used : ℕ) (v : IsReady f₁)
    (hd : f₁.header_len ≤ f.header_len) (some_held : 0 < length (held f))
    (small : length data_ < 2 ^ 31) (le : used ≤ length data_) (short : f.header_len ≤ 2)
    (steady : IsSteady f₁) (same : f₁.queue_limit ≡ f.queue_limit) where
  first_goes : RoundOk (cleared f) (held f ++ data_) 0 q (
      again
        (noted f₁ n)
        (drop used data_)
        (sub32 (length data_) used)
        1
        (q ++ (held f ++ take used data_) ∷ []))
  first_goes =
      let exact = sub32_exact (length data_) used (omega arith) le in
      record {
        frame = held f ++ take used data_;
        queue = refl;
        bytes =
            append_assoc (held f) (take used data_) (drop used data_)
            ∙ ap (◌++◌ (held f)) (take-append-drop used data_);
        length_eq = omega (arith, exact, length-drop used data_);
        less = omega (arith, exact, length-append (held f) data_);
        count_eq = refl;
        limit_same = noted-limit f₁ n ∙ same;
        ready = noted-IsReady f₁ n v;
        header_le = omega (arith, noted-header f₁ n);
        steady = noted-IsSteady f₁ n steady;
        rest_eq = refl;
      }

  first_ends :
      used ≡ length data_
      → RoundOk
          (cleared f)
          (held f ++ data_)
          0
          q
          (finish (noted f₁ n) (q ++ (held f ++ take used data_) ∷ []) (frames 1))
  unfolding flatten
  first_ends all = record {
    out = (held f ++ take used data_) ∷ [];
    lost = [];
    queue = refl;
    bytes = append-nil _ ∙ append-nil _ ∙ ap (◌++◌ (held f)) (take_all used data_ (omega arith));
    ready = noted-IsReady f₁ n v;
    rest_fits = omega arith;
    short = omega (arith, noted-header f₁ n);
    steady = noted-IsSteady f₁ n steady;
    partial = λ buff len e le. omega arith;
    verdict = inl (refl, refl);
    limit_same = noted-limit f₁ n ∙ same;
  }

  pub after_first-ok :
      Returns (RoundOk (cleared f) (held f ++ data_) 0 q) (
        after_first list_put f₁ data_ (length data_) used n (q ++ (held f ++ take used data_) ∷ []))
  unfolding after_first
  after_first-ok =
      let signs = slt-ltb used (length data_) (omega arith) small in
      elim (Bool-cases (slt used (length data_))) [
        | inl m ↦ rw (m, is_neg-false used (omega arith)) (returns first_goes)
        | inr m ↦
            rw m (returns (first_ends (omega (arith, ltb→le used (length data_) (sym signs ∙ m)))))
      ]

-- The buffer after `copy` new bytes are put behind the held ones.
abbrev pub filled : Framer → List ℕ → ℕ → List ℕ
filled f data_ copy = take f.rest f.buff ++ take copy data_ ++ drop (f.rest + copy) f.buff

module _ (f : Framer) (data_ : List ℕ) (copy : ℕ) (v : IsReady f) (some_held : 0 < f.rest)
    (fits : f.rest + copy ≤ f.buff_size) (le : copy ≤ length data_) where
  pub length-filled : length (filled f data_ copy) ≡ length f.buff
  length-filled = omega (
    arith,
    length-append (take f.rest f.buff ++ take copy data_) (drop (f.rest + copy) f.buff),
    length-append (take f.rest f.buff) (take copy data_),
    length-take f.rest f.buff,
    length-take copy data_,
    length-drop (f.rest + copy) f.buff,
    v.size,
  )

  pub take-filled :
      (n : ℕ) → n ≤ copy → take (f.rest + n) (filled f data_ copy) ≡ held f ++ take n data_
  take-filled n m =
      ap (λ k. take (k + n) (filled f data_ copy)) (sym (length-held f v (omega arith)))
      ∙ take_joined (held f) data_ (drop (f.rest + copy) f.buff) copy le n m

  pub held-filled : take f.rest (filled f data_ copy) ≡ held f
  held-filled =
      ap (λ k. take k (filled f data_ copy)) (omega arith)
      ∙ take-filled 0 (omega arith)
      ∙ append-nil (held f)
