-- ===== src/Framer/Fixed.antt =====
-- Frames of a fixed length, as a stream of messages that have it.
use si_daq_api.Base.{
  ℕ, zero, suc, ◌-◌, ◌<◌, ◌≤◌, ◌≡◌, refl, sym, ap, subst, ◌∙◌, inl, inr, none, List, [], ◌∷◌, ◌++◌,
  flatten, append_assoc, append-nil, arith, Returns, Returns-mono, length, length-append,
  length-take, length-drop, length-replicate, replicate, take, drop, take-append-drop, ltb, ltb→lt,
  ltb→le, Bool-cases,
}
use si_daq_api.Framer.{Framer, event_length}
use si_daq_api.Framer.Sizing.{IsReady}
use si_daq_api.Framer.Buffer.{length-held}
use si_daq_api.Framer.Stream.{feed, AllSmall}
use si_daq_api.Framer.Outcomes.{Packets, held, IsReady-buff}
use si_daq_api.Framer.Messages.{IsTuned, AllMessages, holding, Short}
use si_daq_api.Framer.Messages.Runs.{AllReach, feed-Waits}

-- Frames of `n` bytes without a header, and no limit on the queue; fewer than `n` bytes are held.
pub record IsFixed (n : ℕ) (f : Framer) : Type 0 where
  pub ready : IsReady f
  pub no_func : f.length_func ≡ none
  pub no_header : f.header_len ≡ 0
  pub fixed : f.fixed_frame_len ≡ n
  pub positive : 0 < n
  pub fits : n ≤ f.max_frame_len
  pub unlimited : f.queue_limit ≡ 0
  pub few : f.rest < n

abbrev pub AllOf : ℕ → Packets → Type 0
AllOf n [] = Unit {0}
AllOf n (frame ∷ q) = (length frame ≡ n) × AllOf n q

AllOf-append : (n : ℕ) (q q' : Packets) → AllOf n q → AllOf n q' → AllOf n (q ++ q')
AllOf-append n [] q' a a' = a'
AllOf-append n (frame ∷ q) q' a a' = (a.0, AllOf-append n q q' a.1 a')

AllOf-split : (n : ℕ) (q q' : Packets) → AllOf n (q ++ q') → AllOf n q × AllOf n q'
AllOf-split n [] q' a = (tt, a)
AllOf-split n (frame ∷ q) q' a =
    let (front, behind) = AllOf-split n q q' a.1 in ((a.0, front), behind)

-- A stream goes on to whole frames of `n` bytes.
pub record Filled (n : ℕ) (stream : List ℕ) : Type 0 where
  pub future : List ℕ
  pub frames : Packets
  pub all_of : AllOf n frames
  pub bytes : stream ++ future ≡ flatten frames

fill : (n fuel : ℕ) (stream : List ℕ) → 0 < n → length stream < fuel → Filled n stream
unfolding flatten
fill n zero stream pos lt = absurd (omega arith)
fill n (suc fuel) stream pos lt = elim (Bool-cases (ltb (length stream) n)) [
  | inl m ↦
      let pad = replicate (n - length stream) 0 in
      record {
        future = pad;
        frames = (stream ++ pad) ∷ [];
        all_of = (
          omega (
            arith,
            length-append stream pad,
            length-replicate {A = ℕ} (n - length stream) 0,
            ltb→lt _ _ m,
          ),
          tt,
        );
        bytes = sym (append-nil (stream ++ pad));
      }
  | inr m ↦
      let rest =
        fill n fuel (drop n stream) pos (omega (arith, length-drop n stream, ltb→le _ _ m)) in
      record {
        future = rest.future;
        frames = take n stream ∷ rest.frames;
        all_of = (omega (arith, length-take n stream, ltb→le _ _ m), rest.all_of);
        bytes =
            ap (λ k. k ++ rest.future) (sym (take-append-drop n stream))
            ∙ append_assoc (take n stream) (drop n stream) rest.future
            ∙ ap (◌++◌ (take n stream)) rest.bytes;
      }
]

module _ (n : ℕ) (f : Framer) (v : IsFixed n f) where
  IsFixed-IsTuned : IsTuned f
  IsFixed-IsTuned = record {
    room = v.ready.room;
    small = v.ready.small;
    header = v.ready.header;
    short = omega (arith, v.no_header);
    unlimited = v.unlimited;
  }

  AllOf-AllMessages : (q : Packets) → AllOf n q → AllMessages f q
  unfolding event_length
  AllOf-AllMessages [] a = tt
  AllOf-AllMessages (frame ∷ q) a = (
    record {
      size = λ bytes len le heads. ground (arith, v.no_func, v.no_header, v.fixed, v.positive, a.0);
      header = omega (arith, v.no_header);
      positive = omega (arith, v.positive, a.0);
      fits = omega (arith, v.fits, a.0);
    },
    AllOf-AllMessages q a.1,
  )

  all_reach : (blocks : Packets) → AllReach f blocks
  all_reach [] = tt
  all_reach (block ∷ blocks) = (omega (arith, v.no_header), all_reach blocks)

  few_left : (rest : ℕ) (left : Packets) → AllOf n left → Short rest left → rest < n
  few_left rest [] a few = omega (arith, few, v.positive)
  few_left rest (frame ∷ left) a few = omega (arith, few, a.0)

  Short-few :
      (rest : ℕ) (left : Packets)
      → AllOf n left
      → rest < n
      → rest ≤ length (flatten left)
      → Short rest left
  unfolding flatten
  Short-few rest [] a few le = omega arith
  Short-few rest (frame ∷ left) a few le = omega (arith, a.0)

  -- The same settings with fewer than `n` other held bytes.
  refill :
      (rest : ℕ) (buff : List ℕ)
      → f.buff_size ≡ length buff
      → rest < n
      → IsFixed n (holding f rest buff)
  refill rest buff e few = record {
    ready = IsReady-buff f buff rest v.ready (omega (arith, v.ready.size));
    no_func = v.no_func;
    no_header = v.no_header;
    fixed = v.fixed;
    positive = v.positive;
    fits = v.fits;
    unlimited = v.unlimited;
    few = few;
  }

  -- The calls return; they keep the settings, hold fewer than `n` bytes, and add frames of `n` bytes alone.
  pub feed-Ends :
      (past : ℕ) (blocks : Packets) (q : Packets)
      → AllOf n q
      → AllSmall blocks
      → Returns (λ (f', q'). AllOf n q' × IsFixed n f') (feed past f blocks q)
  feed-Ends past blocks q a s =
      let stream = held f ++ flatten blocks in
      let goal = fill n (suc (length stream)) stream v.positive (omega arith) in
      Returns-mono
        (feed-Waits f IsFixed-IsTuned (q ++ goal.frames) past goal.future blocks f q s
          (all_reach blocks)
          (record {
            rest = f.rest;
            buff = f.buff;
            same = refl;
            size = v.ready.size;
            left = goal.frames;
            whole = refl;
            valid = AllOf-AllMessages goal.frames goal.all_of;
            bytes = sym (append_assoc (held f) (flatten blocks) goal.future) ∙ goal.bytes;
            few = Short-few f.rest goal.frames goal.all_of v.few (
                omega (
                  arith,
                  ap length goal.bytes,
                  length-append stream goal.future,
                  length-append (held f) (flatten blocks),
                  length-held f v.ready (omega (arith, v.few, v.fits, v.ready.room)),
                ));
          }))
        λ (f', q') w.
          let (front, behind) =
            AllOf-split n q' w.left
              (subst (AllOf n) (sym w.whole) (AllOf-append n q goal.frames a goal.all_of)) in
          (
            front,
            subst (IsFixed n) (sym w.same)
                (refill w.rest w.buff w.size (few_left w.rest w.left behind w.few)),
          )
