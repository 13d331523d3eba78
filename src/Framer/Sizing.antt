-- ===== src/Framer/Sizing.antt =====
-- The length of the next frame: what the two checks leave of it.
use si_daq_api.Base.{
  ℕ, ◌+◌, ◌<◌, ◌≤◌, ◌≡◌, ◌≢◌, ◌⊎◌, inl, inr, ◌^◌, false, Option, none, some, refl, sym, ap, ◌∙◌,
  take, take-take, List, arith, length, ltb, ltb→lt, ltb→le, add32, add32_exact, is_neg, is_neg_iff,
  Bool-cases,
}
use si_daq_api.Framer.{
  Framer, LengthFunc, FramerErrorCode, no_error, get_frame_length_failed, exceed_max_frame_length,
  event_length, fall_back, checked_length, sized,
}

-- Settings that `SiDaqRun` accepts, for a limit on frames that the buffer can hold.
pub record IsReady (f : Framer) : Type 0 where
  pub size : f.buff_size ≡ length f.buff
  pub room : f.max_frame_len ≤ f.buff_size
  pub small : f.buff_size < 2 ^ 30
  pub header : f.header_len < f.max_frame_len

-- The length function looks at the header alone, once all of it is there.
abbrev pub IsSteady : Framer → Type 0
IsSteady f =
    (g : LengthFunc)
    → f.length_func ≡ some g
    → (b b' : List ℕ) (len len' : ℕ) → f.header_len ≤ len
    → f.header_len ≤ len'
    → take f.header_len b ≡ take f.header_len b'
    → g b len f.header_len ≡ g b' len' f.header_len

-- However the held bytes go on, they are no more than the frame that they begin.
abbrev pub IsPartial : Framer → Type 0
IsPartial f =
    (buff : List ℕ) (len : ℕ)
    → take f.rest buff ≡ take f.rest f.buff
    → f.rest ≤ len
    → f.rest ≤ event_length f buff len + f.header_len

incomplete_go :
    (f : Framer) (l : Option LengthFunc) (bytes buff : List ℕ) (n len : ℕ)
    → IsSteady f
    → f.length_func ≡ l
    → f.header_len ≤ n
    → n < event_length f bytes n + f.header_len
    → take n buff ≡ take n bytes
    → n ≤ len
    → n ≤ event_length f buff len + f.header_len
unfolding event_length
incomplete_go f none bytes buff n len s e h lt same le = ground arith
incomplete_go f (some g) bytes buff n len s e h lt same le =
    let heads : take f.header_len buff ≡ take f.header_len bytes =
      sym (take-take f.header_len n buff h)
      ∙ ap (take f.header_len) same
      ∙ take-take f.header_len n bytes h in
    ground (arith, s g e buff bytes len n (omega arith) h heads)

-- The bytes of a frame that is not complete, once they are held.
pub incomplete-IsPartial :
    (f : Framer) (bytes buff : List ℕ) (n : ℕ)
    → IsSteady f
    → n < event_length f bytes n + f.header_len
    → take n buff ≡ take n bytes
    → IsPartial (record f { rest = n; buff = buff })
unfolding event_length
incomplete-IsPartial f bytes buff n s lt same buff₂ len₂ e le =
    elim (Bool-cases (ltb n f.header_len)) [
      | inl m ↦ omega (arith, ltb→lt _ _ m)
      | inr m ↦
          incomplete_go f f.length_func bytes buff₂ n len₂ s refl (ltb→le _ _ m) lt (e ∙ same) le
    ]

pub fall_back-IsSteady : (c : FramerErrorCode) (f : Framer) → IsSteady (fall_back c f)
fall_back-IsSteady c f g e = cc

-- The settings give the frame at `bytes` a length, and it passes both checks.
pub record Fits (f : Framer) (bytes : List ℕ) (len : ℕ) : Type 0 where
  pub keeps : sized f bytes len ≡ (f, event_length f bytes len)
  pub total :
      add32 (event_length f bytes len) f.header_len ≡ event_length f bytes len + f.header_len
  pub bounded : event_length f bytes len + f.header_len ≤ f.max_frame_len
  pub positive : 0 < event_length f bytes len + f.header_len

-- A check fails: the framer keeps the error, and all that is there is one frame.
pub record FallsBack (f : Framer) (bytes : List ℕ) (len : ℕ) : Type 0 where
  pub code : FramerErrorCode
  pub is_error : code ≢ no_error
  pub keeps : sized f bytes len ≡ (fall_back code f, len)

event_length-pos :
    (f : Framer) (bytes : List ℕ) (len : ℕ) → 0 < len → 0 < event_length f bytes len + f.header_len
unfolding event_length
event_length-pos f bytes len p = ground arith

module _ (f : Framer) (bytes : List ℕ) (len : ℕ) (v : IsReady f) (pos : 0 < len) where
  checked-Fits :
      is_neg (event_length f bytes len) ≡ false
      → ltb f.max_frame_len (add32 (event_length f bytes len) f.header_len) ≡ false
      → Fits f bytes len
  unfolding sized checked_length
  checked-Fits n b =
      let exact =
        add32_exact (event_length f bytes len) f.header_len
          (omega (arith, is_neg_iff _ n, v.header, v.room, v.small)) in
      record {
        keeps = rw (n, b);
        total = exact;
        bounded = omega (arith, exact, ltb→le _ _ b);
        positive = event_length-pos f bytes len pos;
      }

  -- On ready settings and some bytes, the length that the settings give passes both checks of the
  -- code, without overflow and within the limit; or the framer records an error and takes all the
  -- bytes as one frame.
  pub sized-cases : Fits f bytes len ⊎ FallsBack f bytes len
  unfolding sized checked_length
  sized-cases = elim (Bool-cases (is_neg (event_length f bytes len))) [
    | inl n ↦ inr (elim (Bool-cases (ltb f.max_frame_len (add32 len 0))) [
      | inl b ↦ record {
        code = exceed_max_frame_length;
        is_error = λ e. cc;
        keeps = ground (arith);
      }
      | inr b ↦ record {
        code = get_frame_length_failed;
        is_error = λ e. cc;
        keeps = ground (arith);
      }
    ])
    | inr n ↦
        elim (Bool-cases (ltb f.max_frame_len (add32 (event_length f bytes len) f.header_len))) [
          | inl b ↦
              inr (record { code = exceed_max_frame_length; is_error = λ e. cc; keeps = rw (n, b) })
          | inr b ↦ inl (checked-Fits n b)
        ]
  ]
