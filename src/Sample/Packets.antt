-- ===== src/Sample/Packets.antt =====
-- A device that sends packets, each a big-endian length and a body of that length, to the dialog's
-- settings: its length function and the length of the header.
use si_daq_api.Base.{
  ℕ, ◌+◌, ◌*◌, ◌<◌, ◌≤◌, ◌≡◌, sym, ap, ◌∙◌, ◌^◌, some, List, [], ◌∷◌, ◌++◌, flatten, arith, done,
  ne→==, length, length-append, take, drop, take_all, take-append_le, take-append-drop,
}
use si_daq_api.Framer.{Framer, event_length}
use si_daq_api.Framer.Outcomes.{Packets, held}
use si_daq_api.Framer.Stream.{feed, AllSmall}
use si_daq_api.Framer.Messages.{IsTuned, IsMessage, AllMessages}
use si_daq_api.Framer.Messages.Runs.{AllReach, feed_messages}
use si_daq_api.Sample.FrameLength.{length_of, big_endian, length-big_endian, length_of-big_endian}

-- The settings of the dialog, with a header of one or two bytes.
pub record IsSample (f : Framer) : Type 0 where
  pub tuned : IsTuned f
  pub func : f.length_func ≡ some length_of
  pub some_header : 0 < f.header_len

unfoldable pub packet : ℕ → List ℕ → List ℕ
packet size body = big_endian size (length body) ++ body

unfoldable pub packets : ℕ → Packets → Packets
packets size [] = []
packets size (body ∷ bodies) = packet size body ∷ packets size bodies

-- No body is empty, its length can stand in the header, and the packet is within the limit.
pub record IsBody (f : Framer) (body : List ℕ) : Type 0 where
  pub positive : 0 < length body
  pub encodes : length body < 2 ^ (f.header_len * 8)
  pub fits : f.header_len + length body ≤ f.max_frame_len

abbrev pub AllBodies : Framer → Packets → Type 0
AllBodies f [] = Unit {0}
AllBodies f (body ∷ bodies) = IsBody f body × AllBodies f bodies

length-packet : (size : ℕ) (body : List ℕ) → length (packet size body) ≡ size + length body
unfolding packet
length-packet size body = omega (
  arith,
  length-append (big_endian size (length body)) body,
  length-big_endian size (length body),
)

module _ (f : Framer) (v : IsSample f) (body : List ℕ) (b : IsBody f body) where
  length_of-packet :
      (bytes : List ℕ) (len : ℕ)
      → f.header_len ≤ len
      → take f.header_len bytes ≡ take f.header_len (packet f.header_len body)
      → length_of bytes len f.header_len ≡ length body
  unfolding packet
  length_of-packet bytes len le heads =
      let header = big_endian f.header_len (length body) in
      let digits : take f.header_len bytes ≡ header =
        heads
        ∙ take-append_le f.header_len header body
            (omega (arith, length-big_endian f.header_len (length body)))
        ∙ take_all f.header_len header
            (omega (arith, length-big_endian f.header_len (length body))) in
      let whole : header ++ drop f.header_len bytes ≡ bytes =
        ap (λ k. k ++ drop f.header_len bytes) (sym digits) ∙ take-append-drop f.header_len bytes in
      ap (λ k. length_of k len f.header_len) (sym whole)
      ∙ length_of-big_endian f.header_len (length body) (drop f.header_len bytes) len v.some_header
          (omega (arith, v.tuned.short)) b.encodes le b.positive

  packet-IsMessage : IsMessage f (packet f.header_len body)
  unfolding event_length
  packet-IsMessage = record {
    size = λ bytes len le heads.
        rw (v.func, ne→== f.header_len 0 (λ e. omega (arith, v.some_header)))
          (length_of-packet bytes len le heads ∙ omega (arith, length-packet f.header_len body));
    header = omega (arith, length-packet f.header_len body);
    positive = omega (arith, length-packet f.header_len body, b.positive);
    fits = omega (arith, length-packet f.header_len body, b.fits);
  }

AllBodies-AllMessages :
    (f : Framer) (bodies : Packets)
    → IsSample f
    → AllBodies f bodies
    → AllMessages f (packets f.header_len bodies)
unfolding packets
AllBodies-AllMessages f [] v b = tt
AllBodies-AllMessages f (body ∷ bodies) v b =
    (packet-IsMessage f v body b.0, AllBodies-AllMessages f bodies v b.1)

-- A device sends packets of a big-endian length in a header of one or two bytes, and a body of
-- that length that is not empty. A framer with `GetFrameLength` and this header's length, no
-- bytes held, no queue limit and a frame limit that the packets keep and the buffer has room for returns exactly these
-- packets as the new frames, in order, and holds nothing behind them, however the stream is cut
-- into received blocks (of less than 2 ^ 30 bytes, and not empty where the header has two bytes).
pub feed-packets :
    (past : ℕ) (f : Framer) (bodies blocks : Packets) (q : Packets)
    → IsSample f
    → f.rest ≡ 0
    → f.buff_size ≡ length f.buff
    → AllBodies f bodies
    → AllSmall blocks
    → AllReach f blocks
    → flatten blocks ≡ flatten (packets f.header_len bodies)
    → (f' : Framer) × (feed past f blocks q ≡ done (f', q ++ packets f.header_len bodies))
      × (held f' ≡ [])
feed-packets past f bodies blocks q v fresh size b small reach e =
    feed_messages past f (packets f.header_len bodies) blocks q v.tuned fresh size
      (AllBodies-AllMessages f bodies v b) small reach e
