-- ===== src/Framer.antt =====
-- SiDaqApi/sidaq_framer.cpp and sidaq_framer.h: cutting received blocks into event frames. An
-- `int` and a `UINT` are words (Base.Words). The event queue is a parameter: `put` is `SQPut` on
-- it, with `none` for the negative result. An access outside an array is a fault, but for one: the
-- loop reads the byte behind a block that ends on a frame, which is the argument `past` here.
pub mod Rounds
pub mod Buffer
pub mod Steps
pub mod Outcomes
pub mod Defects
pub mod Joins
pub mod Sizing
pub mod Stream
pub mod Messages
pub mod Fixed
pub mod Follows
pub mod Linked
pub mod Pipeline
pub mod Cutting
mod Tests
use si_daq_api.Base.{
  ℕ, zero, suc, ◌+◌, ◌*◌, Bool, true, false, not, ◌&&◌, ◌||◌, Option, none, some, List, [], ◌∷◌,
  ◌++◌, Outcome, done, fault, out_of_fuel, ◌>>=◌, ◌==◌, ltb, leb, if◌then◌else◌, length, get_or,
  take, drop, replicate, add32, sub32, is_neg, slt,
}

-- `FramerErroeCode`
pub data FramerErrorCode : Type 0 where
  no_error : FramerErrorCode
  invalid_parameter : FramerErrorCode
  memory_allocated_failed : FramerErrorCode
  exceed_frame_queue_count : FramerErrorCode
  get_frame_length_failed : FramerErrorCode
  exceed_max_frame_length : FramerErrorCode
  buf_size_error : FramerErrorCode

-- The memory from a pointer on, the number of bytes received there, the header length.
abbrev pub LengthFunc : Type 0
LengthFunc = List ℕ → ℕ → ℕ → ℕ

-- `struct _SiDaqFramer`; an empty `buff` is a NULL buffer.
pub record Framer : Type 0 where
  pub rest : ℕ
  pub buff_size : ℕ
  pub buff : List ℕ
  pub length_func : Option LengthFunc
  pub header_len : ℕ
  pub error_flg : ℕ
  pub error_code : FramerErrorCode
  pub queue_limit : ℕ
  pub max_frame_len : ℕ
  pub fixed_frame_len : ℕ

abbrev pub default_max_frame_len : ℕ
default_max_frame_len = 262144

-- `NewSiDaqFramer` where its two allocations succeed.
unfoldable pub new_framer : Framer
new_framer = record {
  rest = 0;
  buff_size = default_max_frame_len;
  buff = replicate default_max_frame_len 0;
  length_func = none;
  header_len = 0;
  error_flg = 0;
  error_code = no_error;
  queue_limit = 0;
  max_frame_len = 0;
  fixed_frame_len = 0;
}

-- `memcpy(&dest[at], src, n)`
unfoldable pub memcpy : List ℕ → ℕ → List ℕ → ℕ → Outcome (List ℕ)
memcpy dest start src n =
    if leb (start + n) (length dest) && leb n (length src)
    then done (take start dest ++ take n src ++ drop (start + n) dest)
    else fault

-- The length that the settings give to the frame at `bytes`, of which `len` bytes are there.
unfoldable pub event_length : Framer → List ℕ → ℕ → ℕ
event_length f bytes len = elim f.length_func [
  | some g ↦
      if f.header_len == 0
      then (if f.fixed_frame_len == 0 then len else f.fixed_frame_len)
      else g bytes len f.header_len
  | none ↦ if f.fixed_frame_len == 0 then len else f.fixed_frame_len
]

-- "put null framer": after a failure, all that is there is one frame.
abbrev pub fall_back : FramerErrorCode → Framer → Framer
fall_back c f = record f { error_code = c; length_func = none; header_len = 0; fixed_frame_len = 0 }

-- The sum is one of two `int`s: where it overflows, which C leaves open, it wraps around here.
checked_length : Framer → ℕ → ℕ → Framer × ℕ
checked_length f len event =
    if ltb f.max_frame_len (add32 event f.header_len)
    then (fall_back exceed_max_frame_length f, len)
    else (f, event)

-- The length of the next event, with both checks of it.
pub sized : Framer → List ℕ → ℕ → Framer × ℕ
sized f bytes len =
    if is_neg (event_length f bytes len)
    then checked_length (fall_back get_frame_length_failed f) len len
    else checked_length f len (event_length f bytes len)

-- The result of `RecvSiDaqData`: the count of frames, or -1.
pub data Return : Type 0 where
  frames : ℕ → Return
  failed : Return

module _ {Q : Type 0} (put : List ℕ → Q → Outcome (Option ℕ × Q)) where
  -- `SQPut(pSQueue, bytes, total)`: a size past the end of the memory is a fault.
  pub put_frame : List ℕ → ℕ → Q → Outcome (Option ℕ × Q)
  put_frame bytes total q =
      if is_neg total || ltb (length bytes) total then fault else put (take total bytes) q

-- What a round of the code leaves: a result, or bytes that are still to be cut (`read_ptr`,
-- `data_len`) and the count of frames so far.
pub data Round (Q : Type 0) : Type 0 where
  finish : Framer → Q → Return → Round Q
  again : Framer → List ℕ → ℕ → ℕ → Q → Round Q

abbrev pub Result : Type 0 → Type 0
Result Q = Framer × Q × Return

-- A finished round is the result; otherwise `loop` goes on.
abbrev pub resume :
    {Q : Type 0} → (Framer → List ℕ → ℕ → ℕ → Q → Outcome (Result Q)) → Round Q → Outcome (Result Q)
resume loop (finish f q ret) = done (f, q, ret)
resume loop (again f read data_len count q) = loop f read data_len count q

pub limit_hit : Framer → ℕ → Bool
limit_hit f n = not (f.queue_limit == 0) && leb f.queue_limit n

-- The first part: the bytes kept from the last call and the new ones are put together.
module _ {Q : Type 0} (put : List ℕ → Q → Outcome (Option ℕ × Q)) where
  -- Behind the frame that the kept bytes begin: `used` bytes of the new data belong to it.
  pub after_first : Framer → List ℕ → ℕ → ℕ → ℕ → Q → Outcome (Round Q)
  after_first f read data_len used n q =
      let f' =
        record (if limit_hit f n then record f { error_code = exceed_frame_queue_count } else f) {
          rest = 0;
        } in
      if slt used data_len
      then (if is_neg used
          then fault
          else done (again f' (drop used read) (sub32 data_len used) 1 q))
      else done (finish f' q (frames 1))

  -- The event takes `total` of the `copy_len` bytes that are in the buffer now; `rest` of them
  -- were there before.
  join_at : Framer → ℕ → ℕ → List ℕ → ℕ → ℕ → Q → Outcome (Round Q)
  join_at f total rest read data_len copy_len q =
      if slt copy_len total
      then done (finish (record f { rest = copy_len }) q (frames 0))
      else put_frame put f.buff total q >>= λ r. elim r.0 [
        | none ↦ done (finish (record f { error_code = memory_allocated_failed }) r.1 failed)
        | some n ↦ after_first f read data_len (sub32 total rest) n r.1
      ]

  join_rest : Framer × ℕ → ℕ → List ℕ → ℕ → ℕ → Q → Outcome (Round Q)
  join_rest (f, event) = join_at f (add32 event f.header_len)

  pub recv_rest : Framer → List ℕ → ℕ → Q → Outcome (Round Q)
  recv_rest f read data_len q =
      let room = sub32 f.buff_size f.rest in
      if is_neg room
      then done (finish (record f { error_code = buf_size_error }) q failed)
      else let copy_len = (if slt data_len room then data_len else room) in
        memcpy f.buff f.rest read copy_len >>= λ buff.
        let joined = add32 f.rest copy_len in
        join_rest (sized (record f { buff = buff }) buff joined) f.rest read data_len joined q

  pub after_frame : Framer → List ℕ → ℕ → ℕ → ℕ → ℕ → Q → Outcome (Round Q)
  after_frame f read data_len total n count q =
      if limit_hit f n
      then done (finish (record f { error_code = exceed_frame_queue_count }) q failed)
      else done (again f (drop total read) (sub32 data_len total) (count + 1) q)

  -- A round whose event takes `total` bytes.
  cut_at : Framer → ℕ → List ℕ → ℕ → ℕ → Q → Outcome (Round Q)
  cut_at f total read data_len count q =
      if slt data_len total
      then (memcpy f.buff 0 read data_len >>= λ buff.
          done (finish (record f { rest = data_len; buff = buff }) q (frames count)))
      else put_frame put read total q >>= λ r. elim r.0 [
        | none ↦ done (finish (record f { error_code = memory_allocated_failed }) r.1 failed)
        | some n ↦ after_frame f read data_len total n count r.1
      ]

  -- The part of a round behind `sized`: the framer and the length of the event.
  cut_round : Framer × ℕ → List ℕ → ℕ → ℕ → Q → Outcome (Round Q)
  cut_round (f, event) = cut_at f (add32 event f.header_len)

  -- One round of the loop. `past` is the byte that lies behind the received block.
  pub recv_round : ℕ → Framer → List ℕ → ℕ → ℕ → Q → Outcome (Round Q)
  recv_round past f read data_len count q =
      if (data_len == 0) || slt data_len f.header_len
      then (memcpy f.buff 0 (get_or read 0 past ∷ []) 1 >>= λ buff.
          done (finish (record f { rest = data_len; buff = buff }) q (frames count)))
      else cut_round (sized f read data_len) read data_len count q

  -- `while (read_ptr != NULL)`
  pub recv_loop : ℕ → ℕ → Framer → List ℕ → ℕ → ℕ → Q → Outcome (Result Q)
  recv_loop zero past f read data_len count q = out_of_fuel
  recv_loop (suc fuel) past f read data_len count q =
      recv_round past f read data_len count q >>= resume (recv_loop fuel past)

  -- `RecvSiDaqData(framer_ptr, data_ptr, data_len, pSQueue)`; a round for each byte
  -- that is held or received, and one more, are enough.
  pub recv_data : ℕ → Framer → List ℕ → ℕ → Q → Outcome (Result Q)
  recv_data past f read data_len q =
      if is_neg data_len
      then done (f, q, frames 0)
      else if slt 0 f.rest
      then recv_rest f read data_len q >>= resume (recv_loop (suc (f.rest + data_len)) past)
      else recv_loop (suc data_len) past f read data_len 0 q

-- The event queue as the list of its entries, oldest first; its memory never runs out.
abbrev pub list_put : List ℕ → List (List ℕ) → Outcome (Option ℕ × List (List ℕ))
list_put bytes q = done (some (length q + 1), q ++ bytes ∷ [])
