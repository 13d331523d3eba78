-- ===== src/Framer/Messages.antt =====
-- Streams of whole messages, of which the settings know the length once the header is there.
mod Sizes
mod Rounds
mod Joins
pub mod Runs
use si_daq_api.Base.{
  ℕ, ◌+◌, ◌-◌, ◌<◌, ◌≤◌, ◌≡◌, sym, ap, ◌∙◌, ◌^◌, List, [], ◌∷◌, ◌++◌, flatten, append_assoc, arith,
  length, length-take, take, drop, take-append_le, take-append-drop, append-cancel_length,
}
use si_daq_api.Framer.{Framer, event_length, Round, finish, again}
use si_daq_api.Framer.Outcomes.{Packets}

-- Settings that `SiDaqRun` accepts, without a limit on the queue, and a header of at most two bytes.
pub record IsTuned (s : Framer) : Type 0 where
  pub room : s.max_frame_len ≤ s.buff_size
  pub small : s.buff_size < 2 ^ 30
  pub header : s.header_len < s.max_frame_len
  pub short : s.header_len ≤ 2
  pub unlimited : s.queue_limit ≡ 0

-- The settings give the message its length wherever its header stands, and the length is allowed.
pub record IsMessage (s : Framer) (message : List ℕ) : Type 0 where
  pub size :
      (bytes : List ℕ) (len : ℕ)
      → s.header_len ≤ len
      → take s.header_len bytes ≡ take s.header_len message
      → event_length s bytes len ≡ length message - s.header_len
  pub header : s.header_len ≤ length message
  pub positive : 0 < length message
  pub fits : length message ≤ s.max_frame_len

abbrev pub AllMessages : Framer → Packets → Type 0
AllMessages s [] = Unit {0}
AllMessages s (message ∷ messages) = IsMessage s message × AllMessages s messages

-- `s` with `rest` held bytes in `buff`.
abbrev pub holding : Framer → ℕ → List ℕ → Framer
holding s rest buff = record s { rest = rest; buff = buff }

-- Fewer bytes than the first message has.
abbrev pub Short : ℕ → Packets → Type 0
Short n [] = n ≡ 0
Short n (message ∷ messages) = n < length message

-- Between two calls: the messages of `full` are in the queue up to some point, and the held bytes
-- with those of the future are the others.
pub record Waits (s : Framer) (future : List ℕ) (full : Packets) (f : Framer) (q : Packets)
    : Type 0 where
  pub rest : ℕ
  pub buff : List ℕ
  pub same : f ≡ holding s rest buff
  pub size : s.buff_size ≡ length buff
  pub left : Packets
  pub whole : q ++ left ≡ full
  pub valid : AllMessages s left
  pub bytes : take rest buff ++ future ≡ flatten left
  pub few : Short rest left

-- Within a call: the same of the bytes that are still to be cut.
pub record Cutting (s : Framer) (future : List ℕ) (full : Packets) (most : ℕ) (f : Framer)
    (read : List ℕ) (len : ℕ) (q : Packets) : Type 0 where
  pub buff : List ℕ
  pub same : f ≡ holding s 0 buff
  pub size : s.buff_size ≡ length buff
  pub left : Packets
  pub whole : q ++ left ≡ full
  pub valid : AllMessages s left
  pub bytes : read ++ future ≡ flatten left
  pub exact : len ≡ length read
  pub less : length read < most

abbrev pub GoesOn : Framer → List ℕ → Packets → ℕ → Round Packets → Type 0
GoesOn s future full most (finish f' q' ret) = Waits s future full f' q'
GoesOn s future full most (again f' read' len' count' q') =
    Cutting s future full most f' read' len' q'

-- The bytes begin with `message`, all of which is there.
pub take_front :
    (message read rest future : List ℕ)
    → read ++ future ≡ message ++ rest
    → length message ≤ length read
    → (take (length message) read ≡ message) × (drop (length message) read ++ future ≡ rest)
take_front message read rest future e le =
    let front = take (length message) read in
    let behind = drop (length message) read in
    append-cancel_length front (behind ++ future) message rest
      (omega (arith, length-take (length message) read))
      (sym (append_assoc front behind future)
        ∙ ap (λ k. k ++ future) (take-append-drop (length message) read)
        ∙ e)

-- The bytes begin with `message`, of which the first `n` are there.
pub take_head :
    (n : ℕ) (message read rest future : List ℕ)
    → read ++ future ≡ message ++ rest
    → n ≤ length read
    → n ≤ length message
    → take n read ≡ take n message
take_head n message read rest future e le le' =
    sym (take-append_le n read future le) ∙ ap (take n) e ∙ take-append_le n message rest le'
