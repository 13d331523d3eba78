-- ===== src/Sample/FixedMode.antt =====
-- The dialog's run mode "Fixed": what `OnBnClickedButtonRunStop` of MfcSample/SiDaqMfcSampleDlg.cpp
-- hands to `SiDaqRun`, and the frames that come of it.
use si_daq_api.Base.{
  ℕ, ◌+◌, ◌<◌, ◌≤◌, ◌≡◌, refl, sym, false, none, [], ◌∷◌, flatten, arith, done, length-replicate,
}
use si_daq_api.Framer.{Framer, event_length, new_framer, default_max_frame_len}
use si_daq_api.Framer.Outcomes.{Packets, held}
use si_daq_api.Framer.Stream.{feed, AllSmall}
use si_daq_api.Framer.Fixed.{AllOf}
use si_daq_api.Framer.Messages.{IsTuned, AllMessages}
use si_daq_api.Framer.Messages.Runs.{AllReach, feed_messages}
use si_daq_api.System.Runs.{framer_of}
use si_daq_api.Sample.Dialog.{Fields, run_args}

-- The run mode is "Fixed", the header's length is one that the framer handles, there is no limit on
-- events, and a frame with a header is within the library's limit.
pub record IsFixedMode (f : Fields) : Type 0 where
  pub mode : f.run_mode ≡ 2
  pub header : f.header_len ≤ 2
  pub positive : 0 < f.frame_len
  pub unlimited : f.frame_limit_check ≡ false
  pub fits : f.header_len + f.frame_len ≤ default_max_frame_len

module _ (f : Fields) (v : IsFixedMode f) where
  no_function : (run_args f).length_func ≡ none
  unfolding run_args
  no_function = ground (arith, v.mode)

  header_kept : (run_args f).header_len ≡ f.header_len
  unfolding run_args
  header_kept = ground (arith, v.mode)

  fixed_length : (run_args f).fixed_frame_len ≡ f.frame_len
  unfolding run_args
  fixed_length = ground (arith, v.mode)

  no_limit : (run_args f).frame_queue_limit ≡ 0
  unfolding run_args
  no_limit = ground (arith, v.unlimited)

  limit_kept : (run_args f).max_frame_len ≡ default_max_frame_len
  unfolding run_args
  limit_kept = refl

  abbrev pub settings : Framer
  settings = framer_of (run_args f)

  settings-IsTuned : IsTuned settings
  unfolding new_framer run_args
  settings-IsTuned = record {
    room = omega arith;
    small = omega arith;
    header = omega (arith, header_kept, v.header);
    short = omega (arith, header_kept, v.header);
    unlimited = no_limit;
  }

  AllOf-AllMessages :
      (messages : Packets)
      → AllOf (f.header_len + f.frame_len) messages
      → AllMessages settings messages
  unfolding event_length new_framer
  AllOf-AllMessages [] a = tt
  AllOf-AllMessages (message ∷ messages) a = (
    record {
      size = λ bytes len le heads.
          ground (arith, no_function, header_kept, fixed_length, v.positive, a.0);
      header = omega (arith, a.0, header_kept);
      positive = omega (arith, a.0, v.positive);
      fits = omega (arith, a.0, limit_kept, v.fits);
    },
    AllOf-AllMessages messages a.1,
  )

  -- In the run mode "Fixed" (a header's length of at most two, no limit on events, a positive frame
  -- length that together with the header's is within the library's limit) a device sends pieces of as many bytes as the frame length of the dialog
  -- and the header's length together. From the fresh framer of the run, and however the stream is cut into
  -- received blocks (of less than 2 ^ 30 bytes, and not empty where the header's length is two), the
  -- frames are exactly these pieces: they are longer by the header's length than the user has
  -- asked for.
  pub fixed_mode_frames :
      (past : ℕ) (pieces blocks : Packets)
      → AllOf (f.header_len + f.frame_len) pieces
      → AllSmall blocks
      → AllReach settings blocks
      → flatten blocks ≡ flatten pieces
      → (f' : Framer) × (feed past settings blocks [] ≡ done (f', pieces)) × (held f' ≡ [])
  unfolding new_framer
  fixed_mode_frames past pieces blocks a small reach e =
      feed_messages past settings pieces blocks [] settings-IsTuned refl
        (sym (length-replicate {A = ℕ} default_max_frame_len 0)) (AllOf-AllMessages pieces a) small
        reach e
