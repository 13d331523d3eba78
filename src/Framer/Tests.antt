-- ===== src/Framer/Tests.antt =====
-- Runs of the framer on small inputs.
use si_daq_api.Base.{◌≡◌, refl, none, some, [], ◌∷◌, done, get_or, add32, is_neg, slt, sub32}
use si_daq_api.Framer.{
  Framer, no_error, frames, recv_data, recv_rest, join_rest, after_first, recv_loop, recv_round,
  join_at, cut_at, cut_round, after_frame, limit_hit, put_frame, sized, event_length,
  checked_length, memcpy, list_put, LengthFunc,
}

abbrev small : Framer
small = record {
  rest = 0;
  buff_size = 8;
  buff = 0 ∷ 0 ∷ 0 ∷ 0 ∷ 0 ∷ 0 ∷ 0 ∷ 0 ∷ [];
  length_func = none;
  header_len = 0;
  error_flg = 0;
  error_code = no_error;
  queue_limit = 0;
  max_frame_len = 8;
  fixed_frame_len = 3;
}

-- The second byte is the length of the body.
abbrev second_byte : LengthFunc
second_byte bytes len header_len = get_or bytes 1 0

abbrev headed : Framer
headed = record small { length_func = some second_byte; header_len = 2; fixed_frame_len = 0 }

fixed_frames :
    recv_data list_put 0 small (1 ∷ 2 ∷ 3 ∷ 4 ∷ []) 4 []
    ≡ done (
      record small { rest = 1; buff = 4 ∷ 0 ∷ 0 ∷ 0 ∷ 0 ∷ 0 ∷ 0 ∷ 0 ∷ [] },
      (1 ∷ 2 ∷ 3 ∷ []) ∷ [],
      frames 1,
    )
unfolding recv_data recv_rest join_rest after_first recv_loop recv_round join_at cut_at cut_round
    after_frame limit_hit put_frame sized event_length checked_length memcpy is_neg slt sub32 add32
fixed_frames = refl

joined_frames :
    recv_data list_put 0
      (record headed { rest = 1; buff = 9 ∷ 0 ∷ 0 ∷ 0 ∷ 0 ∷ 0 ∷ 0 ∷ 0 ∷ [] })
      (1 ∷ 2 ∷ 3 ∷ 0 ∷ 4 ∷ [])
      5
      []
    ≡ done (
      record headed { rest = 1; buff = 4 ∷ 1 ∷ 2 ∷ 3 ∷ 0 ∷ 4 ∷ 0 ∷ 0 ∷ [] },
      (9 ∷ 1 ∷ 2 ∷ []) ∷ (3 ∷ 0 ∷ []) ∷ [],
      frames 2,
    )
unfolding recv_data recv_rest join_rest after_first recv_loop recv_round join_at cut_at cut_round
    after_frame limit_hit put_frame sized event_length checked_length memcpy is_neg slt sub32 add32
joined_frames = refl
