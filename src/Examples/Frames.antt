-- ===== src/Examples/Frames.antt =====
-- A framer whose frames have a header of two bytes, the second of which is the length of the body.
use si_daq_api.Base.{
  ℕ, ◌≡◌, refl, sym, ap, subst, ◌∙◌, ◌⊎◌, none, some, List, [], ◌∷◌, ◌++◌, flatten, arith, done,
  fault, Returns, take, get_or, replicate,
}
use si_daq_api.Framer.{Framer, LengthFunc, no_error, event_length, frames, recv_data, list_put}
use si_daq_api.Framer.Sizing.{IsReady, IsSteady, Fits, FallsBack, sized-cases}
use si_daq_api.Framer.Outcomes.{Packets, held, Ends}
use si_daq_api.Framer.Joins.{IsHealthy, recv_data-ok}
use si_daq_api.Framer.Stream.{feed, Cuts, feed-Cuts}
use si_daq_api.Framer.Messages.{IsTuned, AllMessages}
use si_daq_api.Framer.Messages.Runs.{feed_messages}
use si_daq_api.Framer.Fixed.{IsFixed}
use si_daq_api.Framer.Cutting.{IsCut, feed_cutting}
use si_daq_api.Framer.Defects.{recv_data_short_header, recv_data_overflow}

abbrev second_byte : LengthFunc
second_byte bytes len header_len = get_or bytes 1 0

abbrev pub headed : Framer
headed = record {
  rest = 0;
  buff_size = 8;
  buff = replicate 8 0;
  length_func = some second_byte;
  header_len = 2;
  error_flg = 0;
  error_code = no_error;
  queue_limit = 0;
  max_frame_len = 8;
  fixed_frame_len = 0;
}

second_byte_take : (b : List ℕ) → get_or (take 2 b) 1 0 ≡ get_or b 1 0
second_byte_take [] = refl
second_byte_take (x ∷ []) = refl
second_byte_take (x ∷ y ∷ b) = refl

chosen : (g : LengthFunc) → some second_byte ≡ some g → second_byte ≡ g
chosen g e = ap (λ o. elim o [ none ↦ second_byte | some k ↦ k ]) e

headed-IsSteady : IsSteady headed
headed-IsSteady g e b b' len len' h h' heads =
    subst (λ g. g b len 2 ≡ g b' len' 2) (chosen g e)
      (sym (second_byte_take b) ∙ ap (λ k. get_or k 1 0) heads ∙ second_byte_take b')

headed-IsReady : IsReady headed
headed-IsReady = record {
  size = refl;
  room = omega arith;
  small = omega arith;
  header = omega arith;
}

headed-IsHealthy : IsHealthy headed
headed-IsHealthy = record {
  ready = headed-IsReady;
  short = omega arith;
  rest_fits = omega arith;
  steady = headed-IsSteady;
  partial = λ buff len e le. omega arith;
}

abbrev blocks : List (List ℕ)
blocks = (7 ∷ 1 ∷ 5 ∷ 7 ∷ []) ∷ (2 ∷ 5 ∷ 6 ∷ 7 ∷ []) ∷ []

feed-Cuts_example : Returns (Cuts headed (flatten blocks) []) (feed 0 headed blocks [])
feed-Cuts_example =
    feed-Cuts 0 headed blocks [] headed-IsHealthy refl (omega arith, (omega arith, tt))

recv_data-ok_example :
    Returns
      (λ (f', q', ret). Ends 0 (held headed ++ (7 ∷ 1 ∷ 5 ∷ 7 ∷ [])) 0 [] f' q' ret)
      (recv_data list_put 0 headed (7 ∷ 1 ∷ 5 ∷ 7 ∷ []) 4 [])
recv_data-ok_example = recv_data-ok 0 headed (7 ∷ 1 ∷ 5 ∷ 7 ∷ []) [] headed-IsHealthy (omega arith)

sized-cases_example : Fits headed (7 ∷ 1 ∷ 5 ∷ []) 3 ⊎ FallsBack headed (7 ∷ 1 ∷ 5 ∷ []) 3
sized-cases_example = sized-cases headed (7 ∷ 1 ∷ 5 ∷ []) 3 headed-IsReady (omega arith)

abbrev long_headed : Framer
long_headed = record headed { header_len = 4 }

recv_data_short_header_example :
    recv_data list_put 0 long_headed (1 ∷ 2 ∷ 3 ∷ []) 3 []
    ≡ done (record long_headed { rest = 3; buff = 1 ∷ replicate 7 0 }, [], frames 0)
recv_data_short_header_example =
    recv_data_short_header list_put 0 long_headed [] refl 1 2 (3 ∷ []) (omega arith) (omega arith)
      (omega arith)

abbrev unbounded : Framer
unbounded = record headed { max_frame_len = 100 }

recv_data_overflow_example : recv_data list_put 0 unbounded (1 ∷ 20 ∷ replicate 8 9) 10 [] ≡ fault
recv_data_overflow_example =
    recv_data_overflow list_put 0 unbounded [] refl (1 ∷ 20 ∷ replicate 8 9) (omega arith)
      (omega arith) (omega arith) (unfold event_length in omega arith)
      (unfold event_length in omega arith) (omega arith)

abbrev fixed_three : Framer
fixed_three = record headed {
  length_func = none;
  header_len = 0;
  fixed_frame_len = 3;
  rest = 1;
  buff = 5 ∷ replicate 7 0;
}

fixed_three-IsFixed : IsFixed 3 fixed_three
fixed_three-IsFixed = record {
  ready = record { size = refl; room = omega arith; small = omega arith; header = omega arith };
  no_func = refl;
  no_header = refl;
  fixed = refl;
  positive = omega arith;
  fits = omega arith;
  unlimited = refl;
  few = omega arith;
}

abbrev one_block : List (List ℕ)
one_block = (7 ∷ 1 ∷ 5 ∷ 7 ∷ 2 ∷ 5 ∷ 6 ∷ 7 ∷ []) ∷ []

feed_cutting_example :
    (f₁ : Framer) × (f₂ : Framer) × (q : Packets) × (feed 0 fixed_three blocks [] ≡ done (f₁, q))
    × (feed 9 fixed_three one_block [] ≡ done (f₂, q))
    × (held f₁ ≡ held f₂)
    × IsCut 3 (held fixed_three ++ flatten blocks) f₁ q
unfolding flatten
feed_cutting_example =
    feed_cutting 3 0 9 fixed_three blocks one_block fixed_three-IsFixed
      (omega arith, (omega arith, tt)) (omega arith, tt) refl

second_byte_head :
    (bytes message : List ℕ) → take 2 bytes ≡ take 2 message → get_or bytes 1 0 ≡ get_or message 1 0
second_byte_head bytes message e =
    sym (second_byte_take bytes) ∙ ap (λ k. get_or k 1 0) e ∙ second_byte_take message

pub headed-IsTuned : IsTuned headed
headed-IsTuned = record {
  room = omega arith;
  small = omega arith;
  header = omega arith;
  short = omega arith;
  unlimited = refl;
}

abbrev pub messages : List (List ℕ)
messages = (7 ∷ 1 ∷ 5 ∷ []) ∷ (7 ∷ 2 ∷ 5 ∷ 6 ∷ []) ∷ []

pub messages-AllMessages : AllMessages headed messages
unfolding event_length
messages-AllMessages = (
  record {
    size = λ bytes len le heads. second_byte_head bytes (7 ∷ 1 ∷ 5 ∷ []) heads;
    header = omega arith;
    positive = omega arith;
    fits = omega arith;
  },
  (
    record {
      size = λ bytes len le heads. second_byte_head bytes (7 ∷ 2 ∷ 5 ∷ 6 ∷ []) heads;
      header = omega arith;
      positive = omega arith;
      fits = omega arith;
    },
    tt,
  ),
)

abbrev pub message_pieces : List (List ℕ)
message_pieces = (7 ∷ []) ∷ (1 ∷ 5 ∷ 7 ∷ 2 ∷ []) ∷ (5 ∷ 6 ∷ []) ∷ []

feed_messages_example :
    (f' : Framer) × (feed 0 headed message_pieces [] ≡ done (f', messages)) × (held f' ≡ [])
unfolding flatten
feed_messages_example =
    feed_messages 0 headed messages message_pieces [] headed-IsTuned refl refl messages-AllMessages
      (omega arith, (omega arith, (omega arith, tt)))
      (omega arith, (omega arith, (omega arith, tt))) refl
