-- ===== src/Framer/Outcomes.antt =====
-- What a round and a run of rounds leave, and copies that stay in the buffer.
use si_daq_api.Base.{
  ℕ, ◌+◌, ◌<◌, ◌≤◌, ◌≡◌, ◌≢◌, refl, ◌⊎◌, ◌^◌, some, List, [], ◌∷◌, ◌++◌, flatten, arith, done,
  length, take, drop, get_or, le→ltb, le→leb, is_neg-false,
}
use si_daq_api.Framer.{
  Framer, FramerErrorCode, no_error, fall_back, memcpy, put_frame, Return, frames, failed, Round,
  finish, again, list_put,
}
use si_daq_api.Framer.Sizing.{IsReady, IsSteady, IsPartial}

abbrev pub Packets : Type 0
Packets = List (List ℕ)

-- The bytes that wait in the buffer for the next call.
abbrev pub held : Framer → List ℕ
held f = take f.rest f.buff

-- The bytes `read` have become the frames `out`, what is held, and after an error what is lost.
pub record Ends (limit : ℕ) (read : List ℕ) (count : ℕ) (q : Packets) (f' : Framer) (q' : Packets)
    (ret : Return) : Type 0 where
  pub out : Packets
  pub lost : List ℕ
  pub queue : q' ≡ q ++ out
  pub bytes : flatten out ++ (held f' ++ lost) ≡ read
  pub ready : IsReady f'
  pub rest_fits : f'.rest ≤ f'.buff_size
  pub short : f'.header_len ≤ 2
  pub steady : IsSteady f'
  pub partial : IsPartial f'
  pub verdict :
      ((ret ≡ frames (count + length out)) × (lost ≡ []))
      ⊎ ((ret ≡ failed) × (f'.error_code ≢ no_error) × (limit ≢ 0))
  pub limit_same : f'.queue_limit ≡ limit

-- The round has cut one frame off `read`.
pub record Goes (f : Framer) (read : List ℕ) (count : ℕ) (q : Packets) (f' : Framer)
    (read' : List ℕ) (len' count' : ℕ) (q' : Packets) : Type 0 where
  pub frame : List ℕ
  pub queue : q' ≡ q ++ frame ∷ []
  pub bytes : frame ++ read' ≡ read
  pub length_eq : len' ≡ length read'
  pub less : len' < length read
  pub count_eq : count' ≡ count + 1
  pub ready : IsReady f'
  pub header_le : f'.header_len ≤ f.header_len
  pub steady : IsSteady f'
  pub rest_eq : f'.rest ≡ f.rest
  pub limit_same : f'.queue_limit ≡ f.queue_limit

abbrev pub RoundOk : Framer → List ℕ → ℕ → Packets → Round Packets → Type 0
RoundOk f read count q (finish f' q' ret) = Ends f.queue_limit read count q f' q' ret
RoundOk f read count q (again f' read' len' count' q') = Goes f read count q f' read' len' count' q'

pub memcpy-done :
    (dest : List ℕ) (start : ℕ) (src : List ℕ) (n : ℕ)
    → start + n ≤ length dest
    → n ≤ length src
    → memcpy dest start src n ≡ done (take start dest ++ take n src ++ drop (start + n) dest)
unfolding memcpy
memcpy-done dest start src n a b = rw (le→leb _ _ a, le→leb _ _ b)

pub fall_back-IsReady : (c : FramerErrorCode) (f : Framer) → IsReady f → IsReady (fall_back c f)
fall_back-IsReady c f v = record {
  size = v.size;
  room = v.room;
  small = v.small;
  header = omega (arith, v.header);
}

pub put_frame-done :
    (bytes : List ℕ) (total : ℕ) (q : Packets)
    → total < 2 ^ 31
    → total ≤ length bytes
    → put_frame list_put bytes total q ≡ done (some (length q + 1), q ++ take total bytes ∷ [])
unfolding put_frame
put_frame-done bytes total q s le = rw (is_neg-false total s, le→ltb _ _ le)

pub short_held :
    (read : List ℕ) (past : ℕ) (tail : List ℕ)
    → length read ≤ 1
    → take (length read) (get_or read 0 past ∷ tail) ≡ read
short_held [] past tail h = refl
short_held (x ∷ []) past tail h = refl
short_held (x ∷ y ∷ read) past tail h = absurd (omega arith)

-- A new buffer of the same length.
pub IsReady-buff :
    (f : Framer) (buff : List ℕ) (rest : ℕ)
    → IsReady f
    → length buff ≡ length f.buff
    → IsReady (record f { rest = rest; buff = buff })
IsReady-buff f buff rest v e = record {
  size = omega (arith, v.size);
  room = v.room;
  small = v.small;
  header = v.header;
}
